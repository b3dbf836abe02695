-- ===== src/Dyninst/Sections/Names.antt =====
-- Sections by their names and by their regions
-- (tools/mcsema_disass/dyninst/SectionManager.cpp and SectionManager.h).
use mcsema.Prelude.{
  same_text, same_text_eq, ◌≡◌, refl, sym, ◌∙◌, ap, subst, inl, inr, true, false, Option, none,
  some, List, [], ◌∷◌, ◌++◌, if_cases, if◌then◌else◌, Bool-cases, true_not_false, All, arith,
}
use mcsema.Dyninst.Sections.{
  Text, Region, Section, get_section, region_of, get_region, has_name, add_region, add_regions,
}

-- The first region of a name.
abbrev pub first_region : Text → List Region → Option Region
first_region name [] = none
first_region name (r ∷ regions) =
    if same_text r.name name then some r else first_region name regions

or_region : Option Region → Option Region → Option Region
or_region none d = d
or_region (some r) d = some r

get_region_nil : (name : Text) → get_region [] name ≡ none
unfolding get_region get_section region_of
get_region_nil name = refl

or_region-some : (r : Region) (d : Option Region) → some r ≡ or_region (some r) d
unfolding or_region
or_region-some r d = refl

get_region_found :
    (s : Section) (sections : List Section) (name : Text)
    → same_text s.name name ≡ true
    → get_region (s ∷ sections) name ≡ some s.region
unfolding get_region get_section region_of
get_region_found s sections name e = rw e refl

get_region_next :
    (s : Section) (sections : List Section) (name : Text)
    → same_text s.name name ≡ false
    → get_region (s ∷ sections) name ≡ get_region sections name
unfolding get_region get_section region_of
get_region_next s sections name f = rw f refl

-- A name that is known has a region.
known :
    (sections : List Section) (name : Text)
    → has_name sections name ≡ true
    → (r : Region) × (get_region sections name ≡ some r)
unfolding has_name
known [] name h = absurd (true_not_false (sym h))
known (s ∷ sections) name h = elim (Bool-cases (same_text s.name name)) [
  | inl e ↦ (s.region, get_region_found s sections name e)
  | inr f ↦ elim (if_cases (same_text s.name name) _ _ h) [
    | inl (e, h1) ↦ absurd (true_not_false (sym e ∙ f))
    | inr (f1, h1) ↦
        let (r, q) = known sections name h1 in (r, get_region_next s sections name f ∙ q)
  ]
]

unknown :
    (sections : List Section) (name : Text)
    → has_name sections name ≡ false
    → get_region sections name ≡ none
unfolding has_name
unknown [] name h = unfold get_region get_section region_of in refl
unknown (s ∷ sections) name h = elim (if_cases (same_text s.name name) _ _ h) [
  | inl (e, h1) ↦ absurd (true_not_false h1)
  | inr (f, h1) ↦ get_region_next s sections name f ∙ unknown sections name h1
]

get_region_snoc :
    (sections : List Section) (s : Section) (name : Text)
    → get_region (sections ++ s ∷ []) name
      ≡ or_region (get_region sections name) (get_region (s ∷ []) name)
unfolding or_region
get_region_snoc [] s name =
    ap (λ o. or_region o (get_region (s ∷ []) name)) (sym (get_region_nil name))
get_region_snoc (t ∷ sections) s name = elim (Bool-cases (same_text t.name name)) [
  | inl e ↦
      get_region_found t (sections ++ s ∷ []) name e
      ∙ ap (λ o. or_region o (get_region (s ∷ []) name)) (sym (get_region_found t sections name e))
  | inr f ↦
      get_region_next t (sections ++ s ∷ []) name f
      ∙ get_region_snoc sections s name
      ∙ ap (λ o. or_region o (get_region (s ∷ []) name)) (sym (get_region_next t sections name f))
]

-- What one region adds under a name.
abbrev region_if : Region → Text → Option Region
region_if r name = if same_text r.name name then some r else none

or_region-nothing : (o : Option Region) → or_region o none ≡ o
unfolding or_region
or_region-nothing none = refl
or_region-nothing (some r) = refl

get_region-add_region :
    (r : Region) (sections : List Section) (name : Text)
    → get_region (add_region r sections) name
      ≡ or_region (get_region sections name) (region_if r name)
unfolding add_region
get_region-add_region r sections name = elim (Bool-cases (has_name sections r.name)) [
  | inl old ↦ rw old (elim (Bool-cases (same_text r.name name)) [
    | inr f ↦ rw f (sym (or_region-nothing (get_region sections name)))
    | inl e ↦
        let (q, there) = known sections r.name old in
        let at_name : get_region sections name ≡ some q =
          subst (λ z. get_region sections z ≡ some q) (same_text_eq r.name name e) there in
        at_name
        ∙ or_region-some q (region_if r name)
        ∙ ap (λ o. or_region o (region_if r name)) (sym at_name)
  ])
  | inr new ↦
      rw new
        (get_region_snoc sections _ name ∙ ap (or_region (get_region sections name)) (alone r name))
]
  where
    alone :
        (r : Region) (name : Text)
        → get_region (record { region = r; name = r.name; cfg_segment = none } ∷ []) name
          ≡ region_if r name
    alone r name = elim (Bool-cases (same_text r.name name)) [
      | inl e ↦ get_region_found _ [] name e ∙ rw e refl
      | inr f ↦ get_region_next _ [] name f ∙ get_region_nil name ∙ rw f refl
    ]

or_region_step :
    (o : Option Region) (r : Region) (name : Text) (d : Option Region)
    → or_region (or_region o (region_if r name)) d
      ≡ or_region o (if same_text r.name name then some r else d)
unfolding or_region
or_region_step (some q) r name d = refl
or_region_step none r name d = elim (Bool-cases (same_text r.name name)) [
  | inl e ↦ rw e refl
  | inr f ↦ rw f refl
]

add_regions_from :
    (regions : List Region) (sections : List Section) (name : Text)
    → get_region (add_regions regions sections) name
      ≡ or_region (get_region sections name) (first_region name regions)
unfolding add_regions
add_regions_from [] sections name = sym (or_region-nothing (get_region sections name))
add_regions_from (r ∷ regions) sections name =
    add_regions_from regions (add_region r sections) name
    ∙ ap (λ o. or_region o (first_region name regions)) (get_region-add_region r sections name)
    ∙ or_region_step (get_region sections name) r name (first_region name regions)

-- No two sections have the same name.
abbrev pub NamesApart : List Section → Type 0
NamesApart [] = Unit
NamesApart (s ∷ sections) =
    All (λ (t : Section). same_text s.name t.name ≡ false) sections × NamesApart sections

unnamed :
    (sections : List Section) (name : Text)
    → has_name sections name ≡ false
    → All (λ (s : Section). same_text s.name name ≡ false) sections
unfolding has_name
unnamed [] name h = tt
unnamed (s ∷ sections) name h = (ground arith, unnamed sections name (ground arith))

All-snoc :
    (P : Section → Type 0) (sections : List Section) (s : Section)
    → All P sections
    → P s
    → All P (sections ++ s ∷ [])
All-snoc P [] s h p = (p, tt)
All-snoc P (t ∷ sections) s h p = (h.0, All-snoc P sections s h.1 p)

NamesApart-snoc :
    (sections : List Section) (s : Section)
    → NamesApart sections
    → All (λ (t : Section). same_text t.name s.name ≡ false) sections
    → NamesApart (sections ++ s ∷ [])
NamesApart-snoc [] s h a = (tt, tt)
NamesApart-snoc (t ∷ sections) s h a = (
  All-snoc (λ (u : Section). same_text t.name u.name ≡ false) sections s h.0 a.0,
  NamesApart-snoc sections s h.1 a.1,
)

add_region-NamesApart :
    (r : Region) (sections : List Section)
    → NamesApart sections
    → NamesApart (add_region r sections)
unfolding add_region
add_region-NamesApart r sections h = elim (Bool-cases (has_name sections r.name)) [
  | inl old ↦ rw old h
  | inr new ↦ rw new (NamesApart-snoc sections _ h (unnamed sections r.name new))
]

add_regions-NamesApart :
    (regions : List Region) (sections : List Section)
    → NamesApart sections
    → NamesApart (add_regions regions sections)
unfolding add_regions
add_regions-NamesApart [] sections h = h
add_regions-NamesApart (r ∷ regions) sections h =
    add_regions-NamesApart regions (add_region r sections) (add_region-NamesApart r sections h)

-- After the regions of a binary are added in turn, no two sections have the same name, and GetRegion
-- finds under a name the first of the regions that has it, and nothing if none has.
pub get_region-add_regions :
    (regions : List Region) (name : Text)
    → NamesApart (add_regions regions [])
      × (get_region (add_regions regions []) name ≡ first_region name regions)
get_region-add_regions regions name = (
  add_regions-NamesApart regions [] tt,
  add_regions_from regions [] name ∙ (unfold get_region get_section region_of or_region in refl),
)
