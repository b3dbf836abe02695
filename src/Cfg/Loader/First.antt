-- ===== src/Cfg/Loader/First.antt =====
-- The functions of the binary as a map from addresses (mcsema/CFG/CFG.cpp, `ReadProtoBuf`).
use mcsema.Prelude.{
  ℕ, ◌≡◌, ◌≢◌, refl, sym, ◌∙◌, ap, subst, ◌⊎◌, inl, inr, Bool, true, false, ◌&&◌, ◌||◌, not, Option,
  none, some, List, [], ◌∷◌, ◌==◌, ==_iff, ==_ne, eq_cases, if◌then◌else◌, Bool-cases, fun_ext,
  none_not_some, true_not_false, arith,
}
use mcsema.Prelude.Maps.{find?, assign}
use mcsema.Cfg.Types.{Checked, ok, failed, exported_without_name}
use mcsema.Cfg.Names.{Bytes, lifted_function_name, is_empty}
use mcsema.Cfg.Objects.{NativeFunction, Objects, no_objects, look_up, try_get_function}
use mcsema.Cfg.Objects.Lookups.{look_up-add, look_up-update}
use mcsema.Cfg.Loader.Functions.{
  CfgFunction, LlFunction, Libraries, or_old, export_again, redeclare, heed_linkage, new_function,
  enter_function, load_function, load_functions,
}
use mcsema.Cfg.Loader.Kept.{IsLoaded, no_objects-IsLoaded, load_functions-IsLoaded}

-- The abstract view of a function: its name in the bitcode, and whether it is exported.
abbrev pub View : Type 0
View = Option (Bytes × Bool)

unfoldable pub view_of : Option (ℕ × NativeFunction) → View
view_of none = none
view_of (some (id, f)) = some (f.lifted_name, f.is_exported)

unfoldable pub function_view : Objects → ℕ → View
unfolding view_of
function_view o ea = view_of (try_get_function o ea)

-- What one declaration does to the view at its own address: the first gives the name in the bitcode,
-- and each can export. Where a function of the LLVM module has the name of the first and local
-- linkage, the first does not export.
abbrev pub is_local : Option LlFunction → Bool
is_local none = false
is_local (some ll) = ll.has_local_linkage

abbrev pub declared : Libraries → CfgFunction → View → View
declared libs cfg none = some (
  lifted_function_name cfg.ea cfg.name,
  cfg.is_entrypoint && not (is_local (libs.ll_function (or_old cfg.name []))),
)
declared libs cfg (some (name, exported)) = some (name, exported || cfg.is_entrypoint)

abbrev pub views : Libraries → List CfgFunction → ℕ → View → View
views libs [] ea v = v
views libs (cfg ∷ cfgs) ea v = views libs cfgs ea (if cfg.ea == ea then declared libs cfg v else v)

-- A declaration that the loop accepts: no entry point is without a name where it is first declared.
abbrev pub IsAccepted : CfgFunction → View → Type 0
IsAccepted cfg v = (v ≢ none) ⊎ ((cfg.is_entrypoint && is_empty (or_old cfg.name [])) ≡ false)

abbrev pub AllAccepted : Libraries → List CfgFunction → (ℕ → View) → Type 0
AllAccepted libs [] v = Unit
AllAccepted libs (cfg ∷ cfgs) v =
    IsAccepted cfg (v cfg.ea)
    × AllAccepted libs cfgs (λ ea. if cfg.ea == ea then declared libs cfg (v ea) else v ea)

redeclared :
    (libs : Libraries) (cfg : CfgFunction) (f : NativeFunction)
    → ((redeclare libs cfg f).lifted_name ≡ f.lifted_name)
      × ((redeclare libs cfg f).is_exported ≡ f.is_exported || cfg.is_entrypoint)
unfolding redeclare export_again
redeclared libs cfg f = elim (Bool-cases f.is_exported) [
  | inl e ↦ (rw e refl, rw e refl)
  | inr e ↦ elim (Bool-cases cfg.is_entrypoint) [
    | inl t ↦ (rw (e, t) refl, rw (e, t) refl)
    | inr t ↦ (rw (e, t) refl, rw (e, t) refl)
  ]
]

pub view_if :
    (b : Bool) (x y : Option (ℕ × NativeFunction))
    → view_of (if b then x else y) ≡ (if b then view_of x else view_of y)
view_if true x y = refl
view_if false x y = refl

found_view :
    (libs : Libraries) (cfg : CfgFunction) (found : ℕ × NativeFunction) (o : Objects)
    → IsLoaded o
    → try_get_function o cfg.ea ≡ some found
    → (ea : ℕ)
    → function_view
        (record o { functions = assign found.0 (redeclare libs cfg found.1) o.functions })
        ea
      ≡ (if cfg.ea == ea
          then some (found.1.lifted_name, found.1.is_exported || cfg.is_entrypoint)
          else function_view o ea)
unfolding try_get_function function_view view_of
found_view libs cfg found o h e ea =
    ap view_of (
      look_up-update (λ (f : NativeFunction). f.ea) cfg.ea ea o.next_id found.0 o.ea_to_func
        o.functions found.1 (redeclare libs cfg found.1) h.funcs e)
    ∙ view_if (cfg.ea == ea) (some (found.0, redeclare libs cfg found.1)) (try_get_function o ea)
    ∙ rw ((redeclared libs cfg found.1).0, (redeclared libs cfg found.1).1) refl

-- The linkage of a function that the LLVM module has.
heed_linkage_lem : (ll : Option LlFunction) (b : Bool) → heed_linkage ll b ≡ b && not (is_local ll)
unfolding heed_linkage
heed_linkage_lem none b = ground arith
heed_linkage_lem (some ll) b = ground arith

new_view :
    (libs : Libraries) (cfg : CfgFunction) (o : Objects)
    → IsLoaded o
    → (ea : ℕ)
    → function_view (enter_function (new_function libs cfg) o) ea
      ≡ (if cfg.ea == ea then declared libs cfg none else function_view o ea)
unfolding try_get_function function_view view_of enter_function new_function
new_view libs cfg o h ea =
    ap view_of (
      look_up-add (λ (f : NativeFunction). f.ea) cfg.ea ea o.next_id o.ea_to_func o.functions
        (new_function libs cfg) h.funcs)
    ∙ view_if (cfg.ea == ea) (some (o.next_id, new_function libs cfg)) (try_get_function o ea)
    ∙ ap
        (λ b.
          if cfg.ea == ea
          then some (lifted_function_name cfg.ea cfg.name, b)
          else function_view o ea)
        (heed_linkage_lem (libs.ll_function (or_old cfg.name [])) cfg.is_entrypoint)

-- The view after one declaration.
abbrev after : Libraries → CfgFunction → (ℕ → View) → ℕ → View
after libs cfg v ea = if cfg.ea == ea then declared libs cfg (v ea) else v ea

data Outcome (libs : Libraries) (cfg : CfgFunction) (o : Objects) (c : Checked Objects)
    : Type 0 where
  accepted :
      IsAccepted cfg (function_view o cfg.ea)
      → (out : Objects) → c ≡ ok out
      → ((ea : ℕ) → function_view out ea ≡ after libs cfg (function_view o) ea)
      → Outcome libs cfg o c
  refused :
      ¬ IsAccepted cfg (function_view o cfg.ea)
      → c ≡ failed exported_without_name
      → Outcome libs cfg o c

at_own :
    (libs : Libraries) (cfg : CfgFunction) (v : ℕ → View) (w : View) (x : Bytes × Bool)
    → v cfg.ea ≡ w
    → some x ≡ declared libs cfg w
    → (ea : ℕ) → (if cfg.ea == ea then some x else v ea) ≡ after libs cfg v ea
at_own libs cfg v w x e d ea = elim (eq_cases cfg.ea ea) [
  | inr ne ↦ rw (==_ne cfg.ea ea ne) refl
  | inl same ↦ rw ((==_iff cfg.ea ea).1 same) (d ∙ ap (declared libs cfg) (sym e ∙ ap v same))
]

check_name :
    (entry empty : Bool)
    → ((if entry then not empty else true) ≡ true) × ((entry && empty) ≡ false)
      ⊎ ((if entry then not empty else true) ≡ false) × ((entry && empty) ≡ true)
check_name true true = inr (refl, refl)
check_name true false = inl (refl, refl)
check_name false empty = inl (refl, refl)

load_function_cases :
    (libs : Libraries) (cfg : CfgFunction) (r : Option (ℕ × NativeFunction)) (o : Objects)
    → IsLoaded o
    → try_get_function o cfg.ea ≡ r
    → Outcome libs cfg o (load_function libs cfg r o)
unfolding load_function
load_function_cases libs cfg (some found) o h e =
    let seen : function_view o cfg.ea ≡ some (found.1.lifted_name, found.1.is_exported) =
      unfold function_view view_of in ap view_of e in
    accepted (inl (λ q. none_not_some (sym q ∙ seen))) _ refl (λ ea.
      found_view libs cfg found o h e ea ∙ at_own libs cfg (function_view o) _ _ seen refl ea)
load_function_cases libs cfg none o h e =
    let unseen : function_view o cfg.ea ≡ none = unfold function_view view_of in ap view_of e in
    elim (check_name cfg.is_entrypoint (is_empty (or_old cfg.name []))) [
      | inl (passed, named) ↦
          accepted (inr named) _ (rw passed) (λ ea.
            new_view libs cfg o h ea ∙ at_own libs cfg (function_view o) none _ unseen refl ea)
      | inr (stopped, unnamed) ↦
          refused
            (λ a. elim a [
              | inl there ↦ there unseen
              | inr named ↦ true_not_false (sym unnamed ∙ named)
            ])
            (rw stopped)
    ]

load_functions_from :
    (libs : Libraries) (cfgs : List CfgFunction) (o : Objects)
    → IsLoaded o
    → (AllAccepted libs cfgs (function_view o)
        × ((out : Objects) × (load_functions libs cfgs o ≡ ok out)
            × ((ea : ℕ) → function_view out ea ≡ views libs cfgs ea (function_view o ea))))
      ⊎ (¬ AllAccepted libs cfgs (function_view o)
          × (load_functions libs cfgs o ≡ failed exported_without_name))
unfolding load_functions
load_functions_from libs [] o h = inl (tt, (o, refl, λ ea. refl))
load_functions_from libs (cfg ∷ cfgs) o h =
    elim (load_function_cases libs cfg (try_get_function o cfg.ea) o h refl) [
      | refused bad e ↦ inr (λ a. bad a.0, rw e)
      | accepted good next e v ↦
          let same : function_view next ≡ after libs cfg (function_view o) = fun_ext v in
          let loaded =
            load_functions-IsLoaded libs (cfg ∷ []) o next h (unfold load_functions in rw e) in
          elim (load_functions_from libs cfgs next loaded) [
            | inr (bad, f) ↦
                inr (λ a. bad (subst (AllAccepted libs cfgs) (sym same) a.1), rw (e, f))
            | inl (all, (out, f, w)) ↦ inl (
              (good, subst (AllAccepted libs cfgs) same all),
              (out, rw (e, f), λ ea. w ea ∙ ap (views libs cfgs ea) (v ea)),
            )
          ]
    ]

-- The loop over the functions ends well exactly if no address is first declared by an unnamed entry
-- point. Then the map from addresses to functions is that of the declarations: a function for each
-- address that is declared, whose lifted name is made of the address and the first declaration, and
-- which is exported if a later declaration is an entry point, or the first is and the LLVM module
-- has no function of its name with local linkage.
pub load_functions_cases :
    (libs : Libraries) (cfgs : List CfgFunction)
    → (AllAccepted libs cfgs (λ ea. none)
        × ((out : Objects) × (load_functions libs cfgs no_objects ≡ ok out)
            × ((ea : ℕ) → function_view out ea ≡ views libs cfgs ea none)))
      ⊎ (¬ AllAccepted libs cfgs (λ ea. none)
          × (load_functions libs cfgs no_objects ≡ failed exported_without_name))
unfolding function_view view_of try_get_function look_up find? no_objects
load_functions_cases libs cfgs = load_functions_from libs cfgs no_objects no_objects-IsLoaded
