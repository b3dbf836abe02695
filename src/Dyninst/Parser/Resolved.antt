-- ===== src/Dyninst/Parser/Resolved.antt =====
-- What `ResolveCrossXrefs` leaves (tools/mcsema_disass/dyninst/SectionParser.cpp).
use mcsema.Prelude.{
  ℕ, ◌≡◌, refl, sym, ◌∙◌, ap, inl, inr, Bool, true, false, ◌&&◌, not, Option, none, some, List, [],
  ◌∷◌, ◌==◌, if◌then◌else◌, Bool-cases,
}
use mcsema.Prelude.Maps.{
  Map, find?, IsSorted, emplace-IsSorted, find?-emplace, or_else, or_else-none, or_else_assoc,
}
use mcsema.Dyninst.Sections.{Text, Section, is_in_region_named, text_name, is_in_regions}
use mcsema.Dyninst.Context.{CrossXref, DisassContext, handle_data_xref}
use mcsema.Dyninst.Context.Written.{write_and_account-WroteOne, handle_data_xref-WroteOne}
use mcsema.Dyninst.Parser.{
  Parser, write_known, keep_code, resolve_other, resolve_each, resolve_cross_xrefs, data_names,
}

-- Whether a reference leads into the code and to no global variable.
abbrev is_global : Option Text → Bool
is_global none = false
is_global (some name) = true

abbrev pub wants_code : List Section → (global_vars : Map Text) → CrossXref → Bool
wants_code sections global_vars xref =
    not (is_global (find? xref.target_ea global_vars))
    && is_in_region_named sections text_name xref.target_ea

-- The first of the references that does, for a target.
abbrev pub first_code :
    List Section → (global_vars : Map Text) → (ea : ℕ) → List CrossXref → Option CrossXref
first_code sections global_vars ea [] = none
first_code sections global_vars ea (xref ∷ xrefs) =
    or_else
      (if wants_code sections global_vars xref
        then (if xref.target_ea == ea then some xref else none)
        else none)
      (first_code sections global_vars ea xrefs)

unresolved_before :
    (sections : List Section) (xref : CrossXref) (ea : ℕ) (unresolved : Map CrossXref)
    → IsSorted unresolved
    → (find? ea (keep_code sections xref unresolved)
        ≡ or_else (find? ea unresolved) (
            if is_in_region_named sections text_name xref.target_ea
            then (if xref.target_ea == ea then some xref else none)
            else none))
      × IsSorted (keep_code sections xref unresolved)
unfolding keep_code
unresolved_before sections xref ea unresolved sorted =
    elim (Bool-cases (is_in_region_named sections text_name xref.target_ea)) [
      | inl e ↦ rw (e) (
        find?-emplace ea xref.target_ea xref unresolved sorted,
        emplace-IsSorted xref.target_ea xref unresolved sorted,
      )
      | inr e ↦ rw (e) (sym (or_else-none (find? ea unresolved)), sorted)
    ]

write_known_globals :
    (sections : List Section) (xref : CrossXref) (found : Option DisassContext)
    (ctx : DisassContext)
    → handle_data_xref xref ctx ≡ found
    → (write_known sections xref found ctx).global_vars ≡ ctx.global_vars
unfolding write_known
write_known_globals sections xref (some after) ctx e =
    (handle_data_xref-WroteOne xref ctx after e).globals
write_known_globals sections xref none ctx e =
    elim (Bool-cases (is_in_regions sections data_names xref.target_ea)) [
      | inl in_data ↦ rw (in_data) (write_and_account-WroteOne xref ctx).globals
      | inr not_data ↦ rw (not_data) refl
    ]

-- One reference.
record Resolves (sections : List Section) (xref : CrossXref) (p q : Parser) : Type 0 where
  globals : q.context.global_vars ≡ p.context.global_vars
  sorted : IsSorted q.unresolved
  found :
      (ea : ℕ)
      → find? ea q.unresolved
        ≡ or_else (find? ea p.unresolved) (
            if wants_code sections p.context.global_vars xref
            then (if xref.target_ea == ea then some xref else none)
            else none)

resolve_other-Resolves :
    (sections : List Section) (xref : CrossXref) (global : Option Text) (p : Parser)
    → find? xref.target_ea p.context.global_vars ≡ global
    → IsSorted p.unresolved
    → Resolves sections xref p (resolve_other sections xref global p)
unfolding resolve_other
resolve_other-Resolves sections xref (some name) p e sorted = record {
  globals = refl;
  sorted = sorted;
  found = λ ea. rw (e) (sym (or_else-none (find? ea p.unresolved)));
}
resolve_other-Resolves sections xref none p e sorted = record {
  globals = write_known_globals sections xref (handle_data_xref xref p.context) p.context refl;
  sorted = (unresolved_before sections xref 0 p.unresolved sorted).1;
  found = λ ea. rw (e) (unresolved_before sections xref ea p.unresolved sorted).0;
}

resolve_each_lem :
    (sections : List Section) (xrefs : List CrossXref) (p : Parser)
    → IsSorted p.unresolved
    → (ea : ℕ)
    → find? ea (resolve_each sections xrefs p).unresolved
      ≡ or_else (find? ea p.unresolved) (first_code sections p.context.global_vars ea xrefs)
unfolding resolve_each
resolve_each_lem sections [] p sorted ea = sym (or_else-none (find? ea p.unresolved))
resolve_each_lem sections (xref ∷ xrefs) p sorted ea =
    let next : Parser =
      resolve_other sections xref (find? xref.target_ea p.context.global_vars) p in
    let one =
      resolve_other-Resolves sections xref (find? xref.target_ea p.context.global_vars) p refl
        sorted in
    resolve_each_lem sections xrefs next one.sorted ea
    ∙ ap (λ v. or_else v (first_code sections next.context.global_vars ea xrefs)) (one.found ea)
    ∙ ap
        (λ g.
          or_else
            (or_else (find? ea p.unresolved) (
              if wants_code sections p.context.global_vars xref
              then (if xref.target_ea == ea then some xref else none)
              else none))
            (first_code sections g ea xrefs))
        one.globals
    ∙ or_else_assoc (find? ea p.unresolved) _ _

-- With a sorted map before: under each address the map of unresolved references has what it had, or
-- else the first of the references across sections that leads there, if the code has the address and
-- no global variable stands there; resolved or written references among them are in it too.
pub resolve_cross_xrefs_lem :
    (sections : List Section) (p : Parser)
    → IsSorted p.unresolved
    → (ea : ℕ)
    → find? ea (resolve_cross_xrefs sections p).unresolved
      ≡ or_else (find? ea p.unresolved) (first_code sections p.context.global_vars ea p.cross_xrefs)
unfolding resolve_cross_xrefs
resolve_cross_xrefs_lem sections p sorted ea = resolve_each_lem sections p.cross_xrefs p sorted ea
