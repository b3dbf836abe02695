-- ===== src/Cfg/Loader/KeptVariables.antt =====
-- What the loop over the external variables keeps (mcsema/CFG/CFG.cpp, `ReadProtoBuf`).
use mcsema.Prelude.{ℕ, suc, ◌≡◌, refl, subst, Option, none, some, List, [], ◌∷◌}
use mcsema.Cfg.Types.{NativeSegment, ok, >>=-inverts, ok-eq}
use mcsema.Cfg.Names.{Bytes}
use mcsema.Cfg.Forward.{Forwards}
use mcsema.Cfg.Objects.{NativeFunction, NativeVariable, Objects, look_up, try_get_function}
use mcsema.Cfg.Objects.Indexed.{IsIndexed, skip-IsIndexed, update-IsIndexed, look_up-IsIndexed}
use mcsema.Cfg.Loader.Externals.{ByName, find_name, forward_older}
use mcsema.Cfg.Loader.Variables.{
  CfgExternalVariable, merge_variables, new_external_segment, new_external_variable,
  forward_segment, replace_segment, larger_size, variable_ea, older_variable,
  enter_external_variable, load_external_variable, load_named_variable, load_each_variable,
}
use mcsema.Cfg.Loader.Kept.{IsLoaded, added, export_found}

merge_variables_ea :
    (v : NativeVariable) (old : Option NativeVariable) → (merge_variables v old).ea ≡ v.ea
unfolding merge_variables
merge_variables_ea v none = refl
merge_variables_ea v (some old) = refl

replaced :
    (o : Objects) (ea var : ℕ) (old : Option (ℕ × NativeSegment))
    → IsLoaded o
    → look_up ea o.ea_to_seg o.segments ≡ old
    → IsIndexed
        (λ (s : NativeSegment). s.ea)
        o.next_id
        o.ea_to_seg
        (replace_segment old var o.segments)
unfolding replace_segment
replaced o ea var none h e = h.segs
replaced o ea var (some old) h e =
    let (at, there, is_at) =
      look_up-IsIndexed (λ (s : NativeSegment). s.ea) o.next_id ea o.ea_to_seg o.segments old.0
        old.1 h.segs e in
    update-IsIndexed (λ (s : NativeSegment). s.ea) o.next_id old.0 o.ea_to_seg o.segments old.1
      (record old.1 { as_extern_var = some var }) h.segs there refl

enter_external_variable-IsLoaded :
    (cfg : CfgExternalVariable) (name : Bytes) (older : Option ℕ) (old : Option (ℕ × NativeSegment))
    (f : Forwards) (o : Objects)
    → look_up cfg.ea o.ea_to_seg o.segments ≡ old
    → IsLoaded o
    → IsLoaded (enter_external_variable cfg name older old f o)
unfolding enter_external_variable new_external_segment new_external_variable
enter_external_variable-IsLoaded cfg name older old f o e h =
    let size : ℕ = larger_size old cfg.size in
    record {
      funcs =
          skip-IsIndexed _ (suc o.next_id) o.ea_to_func o.functions
            (skip-IsIndexed _ o.next_id o.ea_to_func o.functions h.funcs);
      vars =
          added _ (suc o.next_id) cfg.ea o.ea_to_var o.variables
            (merge_variables (new_external_variable o.next_id name size cfg)
              (older_variable o older))
            (skip-IsIndexed _ o.next_id o.ea_to_var o.variables h.vars)
            (merge_variables_ea (new_external_variable o.next_id name size cfg)
              (older_variable o older));
      segs = skip-IsIndexed _ (suc o.next_id) _ _ (
          added _ o.next_id cfg.ea o.ea_to_seg (replace_segment old (suc o.next_id) o.segments)
            (new_external_segment o.next_id (suc o.next_id) name size cfg)
            (replaced o cfg.ea (suc o.next_id) old h e) refl);
    }

load_external_variable-IsLoaded :
    (k : ℕ) (cfg : CfgExternalVariable) (name : Bytes) (r : Option (ℕ × NativeFunction))
    (by_name : ByName) (o : Objects) (out : Objects × ByName)
    → try_get_function o cfg.ea ≡ r
    → IsLoaded o
    → load_external_variable k cfg name r by_name o ≡ ok out
    → IsLoaded out.0
unfolding load_external_variable
load_external_variable-IsLoaded k cfg name (some found) by_name o out e h q =
    subst (λ x. IsLoaded x.0) (ok-eq q) (export_found o cfg.ea found name h e)
load_external_variable-IsLoaded k cfg name none by_name o out e h q =
    let (f, e1, rest1) =
      >>=-inverts
        (forward_segment k (look_up cfg.ea o.ea_to_seg o.segments) o.next_id (suc o.next_id)
          o.forwards)
        _ q in
    let (g, e2, rest2) =
      >>=-inverts
        (forward_older k (find_name name by_name) (suc o.next_id) cfg.ea (variable_ea o) f) _
        rest1 in
    subst (λ x. IsLoaded x.0) (ok-eq rest2)
      (enter_external_variable-IsLoaded cfg name (find_name name by_name) _ g o refl h)

load_named_variable-IsLoaded :
    (k : ℕ) (cfg : CfgExternalVariable) (name : Option Bytes) (by_name : ByName) (o : Objects)
    (out : Objects × ByName)
    → IsLoaded o
    → load_named_variable k cfg name by_name o ≡ ok out
    → IsLoaded out.0
unfolding load_named_variable
load_named_variable-IsLoaded k cfg none by_name o out h q = subst (λ x. IsLoaded x.0) (ok-eq q) h
load_named_variable-IsLoaded k cfg (some name) by_name o out h q =
    load_external_variable-IsLoaded k cfg name (try_get_function o cfg.ea) by_name o out refl h q

pub load_each_variable-IsLoaded :
    (k : ℕ) (cfgs : List CfgExternalVariable) (by_name : ByName) (o : Objects)
    (out : Objects × ByName)
    → IsLoaded o
    → load_each_variable k cfgs by_name o ≡ ok out
    → IsLoaded out.0
unfolding load_each_variable
load_each_variable-IsLoaded k [] by_name o out h q = subst (λ x. IsLoaded x.0) (ok-eq q) h
load_each_variable-IsLoaded k (cfg ∷ cfgs) by_name o out h q =
    let (next, e, rest) = >>=-inverts (load_named_variable k cfg cfg.name by_name o) _ q in
    load_each_variable-IsLoaded k cfgs next.1 next.0 out
      (load_named_variable-IsLoaded k cfg cfg.name by_name o next h e) rest
