-- ===== src/Cfg/Loader/KeptSegments.antt =====
-- What the loop over the segments keeps (mcsema/CFG/CFG.cpp, `ReadProtoBuf`).
use mcsema.Prelude.{
  ℕ, suc, ◌≡◌, refl, ◌∙◌, inl, inr, Option, none, some, List, [], ◌∷◌, Bool-cases, ◌≤◌, arith,
}
use mcsema.Cfg.Types.{NativeSegment}
use mcsema.Cfg.Names.{Bytes}
use mcsema.Cfg.Objects.{NativeFunction, NativeVariable, Objects, try_get_function, try_get_variable}
use mcsema.Cfg.Objects.Indexed.{
  IsIndexed, skip-IsIndexed, later-IsIndexed, update-IsIndexed, look_up-IsIndexed,
}
use mcsema.Cfg.Loader.Externals.{ByName}
use mcsema.Cfg.Loader.Segments.{
  CfgVariable, CfgSegment, new_segment, update_variable, new_variable, load_variable,
  load_variables, enter_segment, take_number, load_segment, is_extern_name, load_segments,
}
use mcsema.Cfg.Loader.Kept.{IsLoaded, added}

-- The variables of a segment.
load_variable-IsLoaded :
    (id : ℕ) (cfg : CfgVariable) (name : Option Bytes) (v : Option (ℕ × NativeVariable))
    (f : Option (ℕ × NativeFunction)) (seg : NativeSegment) (o : Objects)
    → try_get_variable o cfg.ea ≡ v
    → IsLoaded o
    → IsLoaded (load_variable id cfg name v f seg o).1
unfolding load_variable try_get_variable update_variable new_variable
load_variable-IsLoaded id cfg name (some found) f seg o e h =
    let (at, there, is_at) =
      look_up-IsIndexed (λ (v : NativeVariable). v.ea) o.next_id cfg.ea o.ea_to_var o.variables
        found.0 found.1 h.vars e in
    record {
      funcs = h.funcs;
      vars =
          update-IsIndexed (λ (v : NativeVariable). v.ea) o.next_id found.0 o.ea_to_var o.variables
            found.1 (update_variable found.1 seg.is_exported seg.is_thread_local) h.vars there refl;
      segs = h.segs;
    }
load_variable-IsLoaded id cfg name none (some func) seg o e h = h
load_variable-IsLoaded id cfg none none none seg o e h = h
load_variable-IsLoaded id cfg (some name) none none seg o e h = record {
  funcs = skip-IsIndexed _ o.next_id o.ea_to_func o.functions h.funcs;
  vars = added _ o.next_id cfg.ea o.ea_to_var o.variables (new_variable id cfg name) h.vars refl;
  segs = skip-IsIndexed _ o.next_id o.ea_to_seg o.segments h.segs;
}

-- They leave the segments alone.
record KeepsSegments (o out : Objects) : Type 0 where
  segments : out.segments ≡ o.segments
  ea_to_seg : out.ea_to_seg ≡ o.ea_to_seg
  later : o.next_id ≤ out.next_id

load_variable-KeepsSegments :
    (id : ℕ) (cfg : CfgVariable) (name : Option Bytes) (v : Option (ℕ × NativeVariable))
    (f : Option (ℕ × NativeFunction)) (seg : NativeSegment) (o : Objects)
    → KeepsSegments o (load_variable id cfg name v f seg o).1
unfolding load_variable
load_variable-KeepsSegments id cfg name (some found) f seg o = record {
  segments = refl;
  ea_to_seg = refl;
  later = omega arith;
}
load_variable-KeepsSegments id cfg name none (some func) seg o = record {
  segments = refl;
  ea_to_seg = refl;
  later = omega arith;
}
load_variable-KeepsSegments id cfg none none none seg o = record {
  segments = refl;
  ea_to_seg = refl;
  later = omega arith;
}
load_variable-KeepsSegments id cfg (some name) none none seg o = record {
  segments = refl;
  ea_to_seg = refl;
  later = omega arith;
}

load_variables-KeepsSegments :
    (id : ℕ) (cfgs : List CfgVariable) (seg : NativeSegment) (o : Objects)
    → IsLoaded o
    → KeepsSegments o (load_variables id cfgs seg o).1 × IsLoaded (load_variables id cfgs seg o).1
unfolding load_variables
load_variables-KeepsSegments id [] seg o h =
    (record { segments = refl; ea_to_seg = refl; later = omega arith }, h)
load_variables-KeepsSegments id (cfg ∷ cfgs) seg o h =
    let v = try_get_variable o cfg.ea in
    let f = try_get_function o cfg.ea in
    let next : NativeSegment × Objects = load_variable id cfg cfg.name v f seg o in
    let one = load_variable-KeepsSegments id cfg cfg.name v f seg o in
    let (rest, loaded) =
      load_variables-KeepsSegments id cfgs next.0 next.1
        (load_variable-IsLoaded id cfg cfg.name v f seg o refl h) in
    (
      record {
        segments = rest.segments ∙ one.segments;
        ea_to_seg = rest.ea_to_seg ∙ one.ea_to_seg;
        later = omega (arith, rest.later, one.later);
      },
      loaded,
    )

take_number-IsLoaded : (o : Objects) → IsLoaded o → IsLoaded (take_number o)
unfolding take_number
take_number-IsLoaded o h = record {
  funcs = skip-IsIndexed _ o.next_id o.ea_to_func o.functions h.funcs;
  vars = skip-IsIndexed _ o.next_id o.ea_to_var o.variables h.vars;
  segs = skip-IsIndexed _ o.next_id o.ea_to_seg o.segments h.segs;
}

enter_segment-IsLoaded :
    (seg : NativeSegment) (o mid : Objects)
    → IsLoaded o
    → IsLoaded mid
    → KeepsSegments (take_number o) mid
    → IsLoaded (enter_segment o.next_id seg mid)
unfolding enter_segment take_number
enter_segment-IsLoaded seg o mid h loaded keeps = record {
  funcs = loaded.funcs;
  vars = loaded.vars;
  segs = later-IsIndexed _ (suc o.next_id) mid.next_id _ _ keeps.later (
      added (λ (s : NativeSegment). s.ea) o.next_id seg.ea mid.ea_to_seg mid.segments seg before
        refl);
}
  where
    before : IsIndexed (λ (s : NativeSegment). s.ea) o.next_id mid.ea_to_seg mid.segments
    before = rw (keeps.segments, keeps.ea_to_seg) h.segs

load_segment-IsLoaded :
    (cfg : CfgSegment) (o : Objects) → IsLoaded o → IsLoaded (load_segment cfg o)
unfolding load_segment
load_segment-IsLoaded cfg o h =
    let (keeps, loaded) =
      load_variables-KeepsSegments o.next_id cfg.vars (new_segment o.next_id cfg) (take_number o)
        (take_number-IsLoaded o h) in
    enter_segment-IsLoaded _ o _ h loaded keeps

pub load_segments-IsLoaded :
    (by_name : ByName) (cfgs : List CfgSegment) (o : Objects)
    → IsLoaded o
    → IsLoaded (load_segments by_name cfgs o)
unfolding load_segments
load_segments-IsLoaded by_name [] o h = h
load_segments-IsLoaded by_name (cfg ∷ cfgs) o h =
    load_segments-IsLoaded by_name cfgs _
      (elim (Bool-cases (is_extern_name by_name cfg.variable_name)) [
        | inl skip ↦ rw skip h
        | inr load ↦ rw load (load_segment-IsLoaded cfg o h)
      ])
