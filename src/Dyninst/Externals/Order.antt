-- ===== src/Dyninst/Externals/Order.antt =====
-- The used names are a set in the order of `std::string`
-- (tools/mcsema_disass/dyninst/ExternalFunctionManager.cpp).
use mcsema.Prelude.{
  ◌≡◌, refl, sym, ◌∙◌, ap, subst, inl, inr, Bool, true, false, ◌||◌, List, [], ◌∷◌, same_text,
  same_text_eq, same_text_refl, Bool-cases, true_not_false, arith, All,
}
use mcsema.Dyninst.Externals.Definitions.{Text}
use mcsema.Dyninst.Externals.{text_less, insert_name}

-- A list has a name.
abbrev pub has : Text → List Text → Bool
has t [] = false
has t (name ∷ names) = same_text name t || has t names

-- Names in increasing order, each once.
abbrev pub IsIncreasing : List Text → Type 0
IsIncreasing [] = Unit
IsIncreasing (name ∷ names) = All (λ t. text_less name t ≡ true) names × IsIncreasing names

text_less_trans :
    (a b c : Text) → text_less a b ≡ true → text_less b c ≡ true → text_less a c ≡ true
unfolding text_less
text_less_trans a b [] h k = absurd (true_not_false (sym k))
text_less_trans a [] (z ∷ c) h k = absurd (true_not_false (sym h))
text_less_trans [] (y ∷ b) (z ∷ c) h k = refl
text_less_trans (x ∷ a) (y ∷ b) (z ∷ c) h k = ground (arith, text_less_trans a b c)

text_less_total :
    (a b : Text) → same_text a b ≡ false → text_less a b ≡ false → text_less b a ≡ true
unfolding text_less same_text
text_less_total [] [] d l = absurd (true_not_false d)
text_less_total (x ∷ a) [] d l = refl
text_less_total [] (y ∷ b) d l = absurd (true_not_false l)
text_less_total (x ∷ a) (y ∷ b) d l = ground (arith, text_less_total a b)

All-insert_name :
    (first name : Text) (names : List Text)
    → text_less first name ≡ true
    → All (λ t. text_less first t ≡ true) names
    → All (λ t. text_less first t ≡ true) (insert_name name names)
unfolding insert_name
All-insert_name first name [] l h = (l, tt)
All-insert_name first name (other ∷ names) l h = elim (Bool-cases (same_text other name)) [
  | inl same ↦ rw same h
  | inr differ ↦ elim (Bool-cases (text_less name other)) [
    | inl less ↦ rw (differ, less) (l, h)
    | inr more ↦ rw (differ, more) (h.0, All-insert_name first name names l h.1)
  ]
]

All-less :
    (a b : Text) (names : List Text)
    → text_less a b ≡ true
    → All (λ t. text_less b t ≡ true) names
    → All (λ t. text_less a t ≡ true) names
All-less a b [] l h = tt
All-less a b (t ∷ names) l h = (text_less_trans a b t l h.0, All-less a b names l h.1)

-- A name is put where it belongs, if it is not there yet.
pub insert_name-IsIncreasing :
    (name : Text) (names : List Text) → IsIncreasing names → IsIncreasing (insert_name name names)
unfolding insert_name
insert_name-IsIncreasing name [] h = (tt, tt)
insert_name-IsIncreasing name (other ∷ names) h = elim (Bool-cases (same_text other name)) [
  | inl same ↦ rw same h
  | inr differ ↦ elim (Bool-cases (text_less name other)) [
    | inl less ↦ rw (differ, less) ((less, All-less name other names less h.0), h)
    | inr more ↦
        rw (differ, more)
          (
            All-insert_name other name names (text_less_total name other (other_way differ) more)
                h.0,
            insert_name-IsIncreasing name names h.1,
          )
  ]
]
  where
    other_way : same_text other name ≡ false → same_text name other ≡ false
    other_way differ = elim (Bool-cases (same_text name other)) [
      | inr f ↦ f
      | inl e ↦ absurd (
          true_not_false (
            sym (
              subst (λ z. same_text z name ≡ true) (same_text_eq name other e)
                (same_text_refl name))
            ∙ differ))
    ]

has-insert_name :
    (t name : Text) (names : List Text)
    → has t (insert_name name names) ≡ same_text name t || has t names
unfolding insert_name
has-insert_name t name [] = refl
has-insert_name t name (other ∷ names) = elim (Bool-cases (same_text other name)) [
  | inl same ↦
      rw (same, sym (same_text_eq other name same)) (twice (same_text other t) (has t names))
  | inr differ ↦ elim (Bool-cases (text_less name other)) [
    | inl less ↦ rw (differ, less) refl
    | inr more ↦
        rw (differ, more, has-insert_name t name names)
          (swapped (same_text other t) (same_text name t) (has t names))
  ]
]
  where
    twice : (a b : Bool) → a || b ≡ a || (a || b)
    twice a b = ground arith

    swapped : (a b c : Bool) → a || (b || c) ≡ b || (a || c)
    swapped a b c = ground arith

-- The names that are put in one after the other.
abbrev pub insert_all : List Text → List Text → List Text
insert_all [] used = used
insert_all (name ∷ names) used = insert_all names (insert_name name used)

pub insert_all-IsIncreasing :
    (names used : List Text) → IsIncreasing used → IsIncreasing (insert_all names used)
insert_all-IsIncreasing [] used h = h
insert_all-IsIncreasing (name ∷ names) used h =
    insert_all-IsIncreasing names (insert_name name used) (insert_name-IsIncreasing name used h)

pub has-insert_all :
    (t : Text) (names used : List Text) → has t (insert_all names used) ≡ has t names || has t used
has-insert_all t [] used = refl
has-insert_all t (name ∷ names) used =
    has-insert_all t names (insert_name name used)
    ∙ ap (λ b. has t names || b) (has-insert_name t name used)
    ∙ moved (has t names) (same_text name t) (has t used)
  where
    moved : (a b c : Bool) → a || (b || c) ≡ (b || a) || c
    moved a b c = ground arith
