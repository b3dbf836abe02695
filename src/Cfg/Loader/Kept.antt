-- ===== src/Cfg/Loader/Kept.antt =====
-- What the loops over the objects keep (mcsema/CFG/CFG.cpp, `ReadProtoBuf`).
use mcsema.Prelude.{
  ℕ, suc, ◌≡◌, refl, subst, inl, inr, true, not, ◌&&◌, Option, none, some, List, [], ◌∷◌,
  if◌then◌else◌, Bool-cases,
}
use mcsema.Prelude.Maps.{Map, assign, find?-assign_self}
use mcsema.Cfg.Types.{NativeSegment, ok, check, exported_without_name, >>=-inverts, ok-eq}
use mcsema.Cfg.Names.{Bytes, is_empty}
use mcsema.Cfg.Forward.{Forwards}
use mcsema.Cfg.Objects.{NativeFunction, NativeVariable, Objects, no_objects, try_get_function}
use mcsema.Cfg.Objects.Indexed.{
  IsIndexed, empty-IsIndexed, skip-IsIndexed, new-IsIndexed, enter-IsIndexed, update-IsIndexed,
  look_up-IsIndexed,
}
use mcsema.Cfg.Loader.Externals.{
  Platform, CfgExternalFunction, ByName, find_name, export_as, forward_older, function_ea,
  enter_external_function, new_external_function, load_external_function, load_named_function,
  load_each_external, load_external_functions,
}
use mcsema.Cfg.Loader.Functions.{
  CfgFunction, Libraries, or_old, export_again, redeclare, new_function, enter_function,
  load_function, load_functions,
}

-- The maps lead to objects at the addresses that they are asked for.
pub record IsLoaded (o : Objects) : Type 0 where
  pub funcs : IsIndexed (λ (f : NativeFunction). f.ea) o.next_id o.ea_to_func o.functions
  pub vars : IsIndexed (λ (v : NativeVariable). v.ea) o.next_id o.ea_to_var o.variables
  pub segs : IsIndexed (λ (s : NativeSegment). s.ea) o.next_id o.ea_to_seg o.segments

pub no_objects-IsLoaded : IsLoaded no_objects
unfolding no_objects
no_objects-IsLoaded = record {
  funcs = empty-IsIndexed _ 0;
  vars = empty-IsIndexed _ 0;
  segs = empty-IsIndexed _ 0;
}

-- A new object, put under its address.
pub added {ℓ} :
    {A : Type ℓ} (ea_of : A → ℕ) (next ea : ℕ) (index : Map ℕ) (objects : Map A) (a : A)
    → IsIndexed ea_of next index objects
    → ea_of a ≡ ea
    → IsIndexed ea_of (suc next) (assign ea next index) (assign next a objects)
added ea_of next ea index objects a h e =
    enter-IsIndexed ea_of (suc next) ea next index (assign next a objects) a
      (new-IsIndexed ea_of next index objects a h) (find?-assign_self next a objects) e

-- A function that was found changes, but not its address.
pub change_function :
    (o : Objects) (ea : ℕ) (found : ℕ × NativeFunction) (g : NativeFunction)
    → IsLoaded o
    → try_get_function o ea ≡ some found
    → g.ea ≡ found.1.ea
    → IsLoaded (record o { functions = assign found.0 g o.functions })
unfolding try_get_function
change_function o ea found g h e same =
    let (at, there, is_at) =
      look_up-IsIndexed (λ (f : NativeFunction). f.ea) o.next_id ea o.ea_to_func o.functions found.0
        found.1 h.funcs e in
    record {
      funcs =
          update-IsIndexed (λ (f : NativeFunction). f.ea) o.next_id found.0 o.ea_to_func o.functions
            found.1 g h.funcs there same;
      vars = h.vars;
      segs = h.segs;
    }

enter_function-IsLoaded :
    (f : NativeFunction) (o : Objects) → IsLoaded o → IsLoaded (enter_function f o)
unfolding enter_function
enter_function-IsLoaded f o h = record {
  funcs = added _ o.next_id f.ea o.ea_to_func o.functions f h.funcs refl;
  vars = skip-IsIndexed _ o.next_id o.ea_to_var o.variables h.vars;
  segs = skip-IsIndexed _ o.next_id o.ea_to_seg o.segments h.segs;
}

redeclare_ea :
    (libs : Libraries) (cfg : CfgFunction) (f : NativeFunction) → (redeclare libs cfg f).ea ≡ f.ea
unfolding redeclare export_again
redeclare_ea libs cfg f = elim (Bool-cases (not f.is_exported && cfg.is_entrypoint)) [
  | inl e ↦ rw e refl
  | inr e ↦ rw e refl
]

load_function-IsLoaded :
    (libs : Libraries) (cfg : CfgFunction) (r : Option (ℕ × NativeFunction)) (o out : Objects)
    → try_get_function o cfg.ea ≡ r
    → IsLoaded o
    → load_function libs cfg r o ≡ ok out
    → IsLoaded out
unfolding load_function
load_function-IsLoaded libs cfg (some found) o out e h q = subst IsLoaded (ok-eq q) (
    change_function o cfg.ea found (redeclare libs cfg found.1) h e (redeclare_ea libs cfg found.1))
load_function-IsLoaded libs cfg none o out e h q =
    let (u, passed, rest) =
      >>=-inverts
        (check (if cfg.is_entrypoint then not (is_empty (or_old cfg.name [])) else true)
          exported_without_name)
        _ q in
    subst IsLoaded (ok-eq rest) (enter_function-IsLoaded (new_function libs cfg) o h)

pub load_functions-IsLoaded :
    (libs : Libraries) (cfgs : List CfgFunction) (o out : Objects)
    → IsLoaded o
    → load_functions libs cfgs o ≡ ok out
    → IsLoaded out
unfolding load_functions
load_functions-IsLoaded libs [] o out h q = subst IsLoaded (ok-eq q) h
load_functions-IsLoaded libs (cfg ∷ cfgs) o out h q =
    let (next, e, rest) = >>=-inverts (load_function libs cfg (try_get_function o cfg.ea) o) _ q in
    load_functions-IsLoaded libs cfgs next out
      (load_function-IsLoaded libs cfg (try_get_function o cfg.ea) o next refl h e) rest

export_as_ea : (name : Bytes) (f : NativeFunction) → (export_as name f).ea ≡ f.ea
unfolding export_as
export_as_ea name f = elim (Bool-cases f.is_exported) [ inl e ↦ rw e refl | inr e ↦ rw e refl ]

-- A function that is there gets an external name.
pub export_found :
    (o : Objects) (ea : ℕ) (found : ℕ × NativeFunction) (name : Bytes)
    → IsLoaded o
    → try_get_function o ea ≡ some found
    → IsLoaded (record o { functions = assign found.0 (export_as name found.1) o.functions })
export_found o ea found name h e =
    change_function o ea found (export_as name found.1) h e (export_as_ea name found.1)

enter_external_function-IsLoaded :
    (f : NativeFunction) (forwards : Forwards) (o : Objects)
    → IsLoaded o
    → IsLoaded (enter_external_function f forwards o)
unfolding enter_external_function
enter_external_function-IsLoaded f forwards o h = record {
  funcs = added _ o.next_id f.ea o.ea_to_func o.functions f h.funcs refl;
  vars = skip-IsIndexed _ o.next_id o.ea_to_var o.variables h.vars;
  segs = skip-IsIndexed _ o.next_id o.ea_to_seg o.segments h.segs;
}

load_external_function-IsLoaded :
    (k : ℕ) (libs : Libraries) (p : Platform) (by_name : ByName) (cfg : CfgExternalFunction)
    (name : Bytes) (r : Option (ℕ × NativeFunction)) (o out : Objects)
    → try_get_function o cfg.ea ≡ r
    → IsLoaded o
    → load_external_function k libs p by_name cfg name r o ≡ ok out
    → IsLoaded out
unfolding load_external_function
load_external_function-IsLoaded k libs p by_name cfg name (some found) o out e h q =
    subst IsLoaded (ok-eq q) (export_found o cfg.ea found name h e)
load_external_function-IsLoaded k libs p by_name cfg name none o out e h q =
    let (f, passed, rest) =
      >>=-inverts
        (forward_older k (find_name name by_name) o.next_id cfg.ea (function_ea o) o.forwards) _
        q in
    subst IsLoaded (ok-eq rest)
      (enter_external_function-IsLoaded (new_external_function libs p cfg name) f o h)

load_named_function-IsLoaded :
    (k : ℕ) (libs : Libraries) (p : Platform) (by_name : ByName) (cfg : CfgExternalFunction)
    (name : Option Bytes) (o out : Objects)
    → IsLoaded o
    → load_named_function k libs p by_name cfg name o ≡ ok out
    → IsLoaded out
unfolding load_named_function
load_named_function-IsLoaded k libs p by_name cfg none o out h q = subst IsLoaded (ok-eq q) h
load_named_function-IsLoaded k libs p by_name cfg (some name) o out h q =
    load_external_function-IsLoaded k libs p by_name cfg name (try_get_function o cfg.ea) o out refl
      h q

pub load_each_external-IsLoaded :
    (k : ℕ) (libs : Libraries) (p : Platform) (by_name : ByName) (cfgs : List CfgExternalFunction)
    (o out : Objects)
    → IsLoaded o
    → load_each_external k libs p by_name cfgs o ≡ ok out
    → IsLoaded out
unfolding load_each_external
load_each_external-IsLoaded k libs p by_name [] o out h q = subst IsLoaded (ok-eq q) h
load_each_external-IsLoaded k libs p by_name (cfg ∷ cfgs) o out h q =
    let (next, e, rest) = >>=-inverts (load_named_function k libs p by_name cfg cfg.name o) _ q in
    load_each_external-IsLoaded k libs p by_name cfgs next out
      (load_named_function-IsLoaded k libs p by_name cfg cfg.name o next h e) rest

pub load_external_functions-IsLoaded :
    (k : ℕ) (libs : Libraries) (p : Platform) (cfgs : List CfgExternalFunction) (o out : Objects)
    → IsLoaded o
    → load_external_functions k libs p cfgs o ≡ ok out
    → IsLoaded out
unfolding load_external_functions
load_external_functions-IsLoaded k libs p cfgs o out h q =
    load_each_external-IsLoaded k libs p [] cfgs o out h q
