-- ===== src/Cfg/Loader/Exported.antt =====
-- The external functions in the map from addresses (mcsema/CFG/CFG.cpp, `ReadProtoBuf`).
use mcsema.Prelude.{
  ℕ, ◌≡◌, refl, sym, ◌∙◌, ap, inl, inr, Bool, true, false, Option, none, some, List, [], ◌∷◌, ◌==◌,
  ==_iff, ==_ne, eq_cases, if◌then◌else◌, Bool-cases,
}
use mcsema.Prelude.Maps.{assign}
use mcsema.Cfg.Types.{Checked, ok}
use mcsema.Cfg.Names.{Bytes, external_func_name}
use mcsema.Cfg.Objects.{NativeFunction, Objects, try_get_function}
use mcsema.Cfg.Objects.Lookups.{look_up-add, look_up-update}
use mcsema.Cfg.Loader.Functions.{Libraries}
use mcsema.Cfg.Loader.Externals.{
  Platform, CfgExternalFunction, find_name, export_as, forward_older, new_external_function,
  enter_external_function, load_external_function, load_named_function, load_each_external,
  load_external_functions,
}
use mcsema.Cfg.Loader.Kept.{IsLoaded, load_each_external-IsLoaded}
use mcsema.Cfg.Loader.First.{View, function_view, view_of, view_if}

-- What an external function does to the view at its own address.
abbrev pub exported : (ea : ℕ) → Option Bytes → View → View
exported ea none v = v
exported ea (some name) none = some (external_func_name ea name, true)
exported ea (some name) (some (lifted, is_exported)) = some (lifted, true)

abbrev pub external_views : List CfgExternalFunction → ℕ → View → View
external_views [] ea v = v
external_views (cfg ∷ cfgs) ea v =
    external_views cfgs ea (if cfg.ea == ea then exported cfg.ea cfg.name v else v)

-- A state that the loop makes of another.
record Exports (cfg : CfgExternalFunction) (name : Option Bytes) (o : Objects) (c : Checked Objects)
    : Type 0 where
  out : Objects
  is_ok : c ≡ ok out
  forwards : out.forwards ≡ o.forwards
  seen :
      (ea : ℕ)
      → function_view out ea
        ≡ (if cfg.ea == ea then exported cfg.ea name (function_view o ea) else function_view o ea)

exported_as :
    (name : Bytes) (f : NativeFunction)
    → ((export_as name f).lifted_name ≡ f.lifted_name) × ((export_as name f).is_exported ≡ true)
unfolding export_as
exported_as name f = elim (Bool-cases f.is_exported) [
  | inl e ↦ (rw e refl, rw e refl)
  | inr e ↦ (rw e refl, rw e refl)
]

at_own :
    (cfg : CfgExternalFunction) (name : Bytes) (v : ℕ → View) (w : View) (x : Bytes × Bool)
    → v cfg.ea ≡ w
    → some x ≡ exported cfg.ea (some name) w
    → (ea : ℕ)
    → (if cfg.ea == ea then some x else v ea)
      ≡ (if cfg.ea == ea then exported cfg.ea (some name) (v ea) else v ea)
at_own cfg name v w x e d ea = elim (eq_cases cfg.ea ea) [
  | inr ne ↦ rw (==_ne cfg.ea ea ne) refl
  | inl same ↦
      rw ((==_iff cfg.ea ea).1 same) (d ∙ ap (exported cfg.ea (some name)) (sym e ∙ ap v same))
]

load_external_function-Exports :
    (k : ℕ) (libs : Libraries) (p : Platform) (cfg : CfgExternalFunction) (name : Bytes)
    (r : Option (ℕ × NativeFunction)) (o : Objects)
    → IsLoaded o
    → try_get_function o cfg.ea ≡ r
    → Exports cfg (some name) o (load_external_function k libs p [] cfg name r o)
unfolding load_external_function try_get_function function_view view_of
load_external_function-Exports k libs p cfg name (some found) o h e = record {
  out = record o { functions = assign found.0 (export_as name found.1) o.functions };
  is_ok = refl;
  forwards = refl;
  seen = λ ea.
      ap view_of (
        look_up-update (λ (f : NativeFunction). f.ea) cfg.ea ea o.next_id found.0 o.ea_to_func
          o.functions found.1 (export_as name found.1) h.funcs e)
      ∙ view_if (cfg.ea == ea) (some (found.0, export_as name found.1)) (try_get_function o ea)
      ∙ rw ((exported_as name found.1).0, (exported_as name found.1).1)
          (at_own cfg name (function_view o) _ (found.1.lifted_name, true) (ap view_of e) refl ea);
}
load_external_function-Exports k libs p cfg name none o h e = record {
  out = enter_external_function (new_external_function libs p cfg name) o.forwards o;
  is_ok = unfold find_name forward_older in refl;
  forwards = unfold enter_external_function in refl;
  seen = λ ea.
      unfold enter_external_function new_external_function in
      ap view_of (
        look_up-add (λ (f : NativeFunction). f.ea) cfg.ea ea o.next_id o.ea_to_func o.functions
          (new_external_function libs p cfg name) h.funcs)
      ∙ view_if (cfg.ea == ea) (some (o.next_id, new_external_function libs p cfg name))
          (try_get_function o ea)
      ∙ at_own cfg name (function_view o) none (external_func_name cfg.ea name, true) (ap view_of e)
          refl ea;
}

load_named_function-Exports :
    (k : ℕ) (libs : Libraries) (p : Platform) (cfg : CfgExternalFunction) (name : Option Bytes)
    (o : Objects)
    → IsLoaded o
    → Exports cfg name o (load_named_function k libs p [] cfg name o)
unfolding load_named_function
load_named_function-Exports k libs p cfg none o h = record {
  out = o;
  is_ok = refl;
  forwards = refl;
  seen = λ ea. sym (no_change (cfg.ea == ea));
}
  where
    no_change : {v : View} (b : Bool) → (if b then v else v) ≡ v
    no_change true = refl
    no_change false = refl
load_named_function-Exports k libs p cfg (some name) o h =
    load_external_function-Exports k libs p cfg name (try_get_function o cfg.ea) o h refl

-- The loop over the external functions always ends well, and forwards nothing, not even functions of
-- the same name. For each one that has a name, the function at its address is exported afterwards:
-- one that was there keeps its name in the bitcode, and else the external function is added.
pub load_external_functions_lem :
    (k : ℕ) (libs : Libraries) (p : Platform) (cfgs : List CfgExternalFunction) (o : Objects)
    → IsLoaded o
    → (out : Objects) × (load_external_functions k libs p cfgs o ≡ ok out)
      × (out.forwards ≡ o.forwards)
      × ((ea : ℕ) → function_view out ea ≡ external_views cfgs ea (function_view o ea))
unfolding load_external_functions load_each_external
load_external_functions_lem k libs p [] o h = (o, refl, refl, λ ea. refl)
load_external_functions_lem k libs p (cfg ∷ cfgs) o h =
    let one = load_named_function-Exports k libs p cfg cfg.name o h in
    let loaded =
      load_each_external-IsLoaded k libs p [] (cfg ∷ []) o one.out h
        (unfold load_each_external in rw one.is_ok) in
    let (out, e, f, seen) = load_external_functions_lem k libs p cfgs one.out loaded in
    (
      out,
      rw (one.is_ok) e,
      f ∙ one.forwards,
      λ ea. seen ea ∙ ap (external_views cfgs ea) (one.seen ea),
    )
