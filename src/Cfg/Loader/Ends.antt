-- ===== src/Cfg/Loader/Ends.antt =====
-- The four loops, with enough fuel (mcsema/CFG/CFG.cpp, `ReadProtoBuf`).
use mcsema.Prelude.{
  ℕ, suc, ◌≤◌, ◌<◌, ◌≡◌, refl, sym, subst, inl, inr, true, false, not, Option, none, some, List, [],
  ◌∷◌, if◌then◌else◌, arith, some_eq, none_not_some, and_then-inverts, Bool-cases,
}
use mcsema.Prelude.Maps.{find?}
use mcsema.Cfg.Types.{NativeSegment, Checked, ok, failed, ◌>>=◌}
use mcsema.Cfg.Names.{Bytes, is_empty}
use mcsema.Cfg.Forward.{fresh_forwards}
use mcsema.Cfg.Forward.Roots.{here, Root-unique}
use mcsema.Cfg.Forward.Classes.{fresh-IsForest}
use mcsema.Cfg.Forward.Kinds.{IsKept, with_new, IsKept-with_new}
use mcsema.Cfg.Objects.{NativeFunction, Objects, no_objects, look_up, try_get_function}
use mcsema.Cfg.Loader.{CfgModule, load_objects}
use mcsema.Cfg.Loader.Settled.{IsFine, Settles, Settles-at, Settles-then}
use mcsema.Cfg.Loader.Functions.{
  CfgFunction, Libraries, or_old, enter_function, load_function, load_functions,
}
use mcsema.Cfg.Loader.Externals.{
  Platform, CfgExternalFunction, ByName, find_name, forward_older, enter_external_function,
  load_external_function, load_named_function, load_each_external, load_external_functions,
}
use mcsema.Cfg.Loader.Variables.{
  CfgExternalVariable, forward_segment, variable_ea, enter_external_variable,
  load_external_variable, load_named_variable, load_each_variable, load_external_variables,
}
use mcsema.Cfg.Loader.Segments.{load_segments}
use mcsema.Cfg.Loader.Kept.{IsLoaded}
use mcsema.Cfg.Loader.Whole.{load_objects-IsLoaded}
use mcsema.Cfg.Loader.Redirected.{
  IsOldSegment, Ready, KeepsVariable, forward_segment-Settles, forward_older-Settles,
  enter_external_variable-Ready,
}

abbrev IsReady : Objects × ByName → Type 0
IsReady (o, by_name) = Ready by_name o

found_segment :
    {by_name : ByName} (o : Objects) (ea id : ℕ) (seg : NativeSegment) (r : Ready by_name o)
    → look_up ea o.ea_to_seg o.segments ≡ some (id, seg)
    → IsOldSegment r.kind o.next_id id seg
unfolding look_up
found_segment o ea id seg r e =
    let (at, first, rest) = and_then-inverts (find? ea o.ea_to_seg) _ e in
    let (there, second, last) = and_then-inverts (find? at o.segments) _ rest in
    subst (λ (p : ℕ × NativeSegment). IsOldSegment r.kind o.next_id p.0 p.1) (some_eq last)
      (r.segs at there second)

load_external_variable-Settles :
    (cfg : CfgExternalVariable) (name : Bytes) (found : Option (ℕ × NativeFunction))
    (by_name : ByName) (o : Objects)
    → Ready by_name o
    → Settles (λ j. load_external_variable j cfg name found by_name o) IsReady
unfolding load_external_variable
load_external_variable-Settles cfg name (some found) by_name o r =
    Settles-at _ _ _ (λ j. refl)
      (record { kind = r.kind; kept = r.kept; segs = r.segs; names = r.names })
load_external_variable-Settles cfg name none by_name o r =
    let n = o.next_id in
    let old = look_up cfg.ea o.ea_to_seg o.segments in
    let older = find_name name by_name in
    let is_old : (id : ℕ) (seg : NativeSegment)
        → old ≡ some (id, seg)
        → IsOldSegment r.kind n id seg =
      λ id seg e. found_segment o cfg.ea id seg r e in
    Settles-then (KeepsVariable r.kind n) IsReady (λ j. forward_segment j old n (suc n) o.forwards)
      (λ j f. forward_older j older (suc n) cfg.ea (variable_ea o) f >>= λ g.
        ok (enter_external_variable cfg name older old g o, (name, suc n) ∷ by_name))
      (forward_segment-Settles r.kind n o.forwards old is_old (
        IsKept-with_new r.kind n o.forwards r.kept,
        r.kept.fresh n (omega arith),
        r.kept.fresh (suc n) (omega arith),
      ))
      (λ f kept.
        Settles-then (IsKept (with_new r.kind n) (suc (suc n))) IsReady
          (λ j. forward_older j older (suc n) cfg.ea (variable_ea o) f)
          (λ j g. ok (enter_external_variable cfg name older old g o, (name, suc n) ∷ by_name))
          (forward_older-Settles r.kind n f older cfg.ea (variable_ea o) (r.names name) kept)
          (λ g kept1.
            Settles-at _ _ _ (λ j. refl)
              (enter_external_variable-Ready cfg name by_name o g old older r is_old kept1)))

load_named_variable-Settles :
    (cfg : CfgExternalVariable) (name : Option Bytes) (by_name : ByName) (o : Objects)
    → Ready by_name o
    → Settles (λ j. load_named_variable j cfg name by_name o) IsReady
unfolding load_named_variable
load_named_variable-Settles cfg none by_name o r = Settles-at _ _ _ (λ j. refl) r
load_named_variable-Settles cfg (some name) by_name o r =
    load_external_variable-Settles cfg name (try_get_function o cfg.ea) by_name o r

load_each_variable-Settles :
    (cfgs : List CfgExternalVariable) (by_name : ByName) (o : Objects)
    → Ready by_name o
    → Settles (λ j. load_each_variable j cfgs by_name o) IsReady
unfolding load_each_variable
load_each_variable-Settles [] by_name o r = Settles-at _ _ _ (λ j. refl) r
load_each_variable-Settles (cfg ∷ cfgs) by_name o r =
    Settles-then IsReady IsReady (λ j. load_named_variable j cfg cfg.name by_name o)
      (λ j next. load_each_variable j cfgs next.1 next.0)
      (load_named_variable-Settles cfg cfg.name by_name o r)
      (λ next ready. load_each_variable-Settles cfgs next.1 next.0 ready)

-- The functions come first, and forward nothing.
record IsFresh (o : Objects) : Type 0 where
  forwards : o.forwards ≡ fresh_forwards
  segments : o.segments ≡ []

IsFresh-Ready : (o : Objects) → IsFresh o → Ready [] o
unfolding fresh_forwards find? find_name
IsFresh-Ready o h = record {
  kind = λ x. false;
  kept = rw (h.forwards) (record {
    forest = fresh-IsForest;
    fresh = λ x l. refl;
    below = λ x y l u.
        let same : y ≡ x = Root-unique u.1 x 0 (here refl) in
        (subst (λ z. z < o.next_id) (sym same) l, refl);
  });
  segs = rw (h.segments) (λ id seg e. absurd (none_not_some e));
  names = λ name id e. absurd (none_not_some e);
}

load_function-IsFine :
    (libs : Libraries) (cfg : CfgFunction) (found : Option (ℕ × NativeFunction)) (o : Objects)
    → IsFresh o
    → IsFine IsFresh (load_function libs cfg found o)
unfolding load_function enter_function
load_function-IsFine libs cfg (some found) o h = record {
  forwards = h.forwards;
  segments = h.segments;
}
load_function-IsFine libs cfg none o h =
    elim (Bool-cases (if cfg.is_entrypoint then not (is_empty (or_old cfg.name [])) else true)) [
      | inl e ↦ rw (e) (record { forwards = h.forwards; segments = h.segments })
      | inr e ↦ rw (e) (λ q. cc)
    ]

load_functions-Settles :
    (libs : Libraries) (cfgs : List CfgFunction) (o : Objects)
    → IsFresh o
    → Settles (λ j. load_functions libs cfgs o) IsFresh
unfolding load_functions
load_functions-Settles libs [] o h = Settles-at _ _ _ (λ j. refl) h
load_functions-Settles libs (cfg ∷ cfgs) o h =
    Settles-then IsFresh IsFresh (λ j. load_function libs cfg (try_get_function o cfg.ea) o)
      (λ j next. load_functions libs cfgs next)
      (Settles-at _ _ _ (λ j. refl) (load_function-IsFine libs cfg (try_get_function o cfg.ea) o h))
      (λ next fresh. load_functions-Settles libs cfgs next fresh)

load_external_function-Settles :
    (libs : Libraries) (p : Platform) (cfg : CfgExternalFunction) (name : Bytes)
    (found : Option (ℕ × NativeFunction)) (o : Objects)
    → IsFresh o
    → Settles (λ j. load_external_function j libs p [] cfg name found o) IsFresh
unfolding load_external_function forward_older find_name enter_external_function
load_external_function-Settles libs p cfg name (some found) o h =
    Settles-at _ _ _ (λ j. refl) (record { forwards = h.forwards; segments = h.segments })
load_external_function-Settles libs p cfg name none o h =
    Settles-at _ _ _ (λ j. refl) (record { forwards = h.forwards; segments = h.segments })

load_named_function-Settles :
    (libs : Libraries) (p : Platform) (cfg : CfgExternalFunction) (name : Option Bytes)
    (o : Objects)
    → IsFresh o
    → Settles (λ j. load_named_function j libs p [] cfg name o) IsFresh
unfolding load_named_function
load_named_function-Settles libs p cfg none o h = Settles-at _ _ _ (λ j. refl) h
load_named_function-Settles libs p cfg (some name) o h =
    load_external_function-Settles libs p cfg name (try_get_function o cfg.ea) o h

load_each_external-Settles :
    (libs : Libraries) (p : Platform) (cfgs : List CfgExternalFunction) (o : Objects)
    → IsFresh o
    → Settles (λ j. load_each_external j libs p [] cfgs o) IsFresh
unfolding load_each_external
load_each_external-Settles libs p [] o h = Settles-at _ _ _ (λ j. refl) h
load_each_external-Settles libs p (cfg ∷ cfgs) o h =
    Settles-then IsFresh IsFresh (λ j. load_named_function j libs p [] cfg cfg.name o)
      (λ j next. load_each_external j libs p [] cfgs next)
      (load_named_function-Settles libs p cfg cfg.name o h)
      (λ next fresh. load_each_external-Settles libs p cfgs next fresh)

-- No fuel runs out.
abbrev AnyObjects : Objects → Type 0
AnyObjects o = Unit

load_objects-Settles :
    (libs : Libraries) (p : Platform) (cfg : CfgModule)
    → Settles (λ j. load_objects j libs p cfg) AnyObjects
unfolding load_objects load_external_functions load_external_variables
load_objects-Settles libs p cfg =
    Settles-then IsFresh AnyObjects (λ j. load_functions libs cfg.funcs no_objects)
      (λ j a. load_each_external j libs p [] cfg.external_funcs a >>= λ b.
        load_each_variable j cfg.external_vars [] b >>= λ c.
        ok (load_segments c.1 cfg.segments c.0))
      (load_functions-Settles libs cfg.funcs no_objects
        (unfold no_objects in record { forwards = refl; segments = refl }))
      (λ a fresh_a.
        Settles-then IsFresh AnyObjects (λ j. load_each_external j libs p [] cfg.external_funcs a)
          (λ j b. load_each_variable j cfg.external_vars [] b >>= λ c.
            ok (load_segments c.1 cfg.segments c.0))
          (load_each_external-Settles libs p cfg.external_funcs a fresh_a)
          (λ b fresh_b.
            Settles-then IsReady AnyObjects (λ j. load_each_variable j cfg.external_vars [] b)
              (λ j c. ok (load_segments c.1 cfg.segments c.0))
              (load_each_variable-Settles cfg.external_vars [] b (IsFresh-Ready b fresh_b))
              (λ c ready. Settles-at _ _ _ (λ j. refl) tt)))

IsLoaded-outcome :
    (k : ℕ) (libs : Libraries) (p : Platform) (cfg : CfgModule) (out : Checked Objects)
    → load_objects k libs p cfg ≡ out
    → IsFine AnyObjects out
    → IsFine IsLoaded out
IsLoaded-outcome k libs p cfg (ok o) e fine = load_objects-IsLoaded k libs p cfg o e
IsLoaded-outcome k libs p cfg (failed why) e fine = fine

-- The four loops end: for every module there is an outcome that they have with any fuel from some
-- amount on. It is a CHECK of the source that failed, or objects where every address in the maps of
-- functions, of variables and of segments leads to an object that is there and that is at this
-- address, and no object has a number that is still to be given.
pub load_objects_ends :
    (libs : Libraries) (p : Platform) (cfg : CfgModule)
    → (fuel : ℕ) × (out : Checked Objects) × ((j : ℕ) → fuel ≤ j → load_objects j libs p cfg ≡ out)
      × IsFine IsLoaded out
load_objects_ends libs p cfg =
    let s = load_objects-Settles libs p cfg in
    (
      s.fuel,
      s.out,
      s.ends,
      IsLoaded-outcome s.fuel libs p cfg s.out (s.ends s.fuel (omega arith)) s.fine,
    )
