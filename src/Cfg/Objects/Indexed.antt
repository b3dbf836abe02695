-- ===== src/Cfg/Objects/Indexed.antt =====
-- Objects under their numbers and a map from addresses to numbers (mcsema/CFG/CFG.h, `NativeModule`).
use mcsema.Prelude.{
  ℕ, suc, ◌≤◌, ◌≡◌, sym, ◌∙◌, ap, subst, inl, inr, some, [], ◌∷◌, arith, eq_cases, and_then-inverts,
  none_not_some, some_eq,
}
use mcsema.Prelude.Maps.{
  Map, find?, assign, Below, find?-assign_self, find?-assign_ne, find?-Below, Below-find?,
  Below-assign,
}
use mcsema.Cfg.Objects.{look_up}

-- No object has a number that is still to come, and what the map has under an address is there, and
-- says that it is at that address.
pub record IsIndexed {ℓ} {A : Type ℓ} (ea_of : A → ℕ) (next : ℕ) (index : Map ℕ) (objects : Map A)
    : Type ℓ where
  pub below : Below next objects
  pub at :
      (ea id : ℕ)
      → find? ea index ≡ some id
      → (a : A) × (find? id objects ≡ some a) × (ea_of a ≡ ea)

module _ {ℓ} {A : Type ℓ} (ea_of : A → ℕ) where
  pub empty-IsIndexed : (next : ℕ) → IsIndexed ea_of next [] []
  unfolding find?
  empty-IsIndexed next = record { below = tt; at = λ ea id e. absurd (none_not_some e) }

  Below-mono : (n m : ℕ) (objects : Map A) → n ≤ m → Below n objects → Below m objects
  Below-mono n m [] l h = tt
  Below-mono n m ((k, v) ∷ objects) l h = (omega (arith, h.0), Below-mono n m objects l h.1)

  Below-suc : (next : ℕ) (m : Map A) → Below next m → Below (suc next) m
  Below-suc next m h = Below-mono next (suc next) m (omega arith) h

  pub later-IsIndexed :
      (n m : ℕ) (index : Map ℕ) (objects : Map A)
      → n ≤ m
      → IsIndexed ea_of n index objects
      → IsIndexed ea_of m index objects
  later-IsIndexed n m index objects l h = record {
    below = Below-mono n m objects l h.below;
    at = h.at;
  }

  -- Numbers that are given to objects of another kind.
  pub skip-IsIndexed :
      (next : ℕ) (index : Map ℕ) (objects : Map A)
      → IsIndexed ea_of next index objects
      → IsIndexed ea_of (suc next) index objects
  skip-IsIndexed next index objects h =
      later-IsIndexed next (suc next) index objects (omega arith) h

  -- A new object, not yet in the map.
  pub new-IsIndexed :
      (next : ℕ) (index : Map ℕ) (objects : Map A) (a : A)
      → IsIndexed ea_of next index objects
      → IsIndexed ea_of (suc next) index (assign next a objects)
  new-IsIndexed next index objects a h = record {
    below = Below-assign next (suc next) a objects (omega arith) (Below-suc next objects h.below);
    at = λ ea id e.
        let (b, q, r) = h.at ea id e in
        elim (eq_cases next id) [
          | inr ne ↦ (b, find?-assign_ne next id a objects ne ∙ q, r)
          | inl same ↦ absurd (
              none_not_some
                (sym (find?-Below next objects h.below) ∙ ap (λ i. find? i objects) same ∙ q))
        ];
  }

  -- An object that is there, put into the map under its address.
  pub enter-IsIndexed :
      (next ea id : ℕ) (index : Map ℕ) (objects : Map A) (a : A)
      → IsIndexed ea_of next index objects
      → find? id objects ≡ some a
      → ea_of a ≡ ea
      → IsIndexed ea_of next (assign ea id index) objects
  enter-IsIndexed next ea id index objects a h q r = record {
    below = h.below;
    at = λ ea' id' e. elim (eq_cases ea ea') [
      | inr ne ↦ h.at ea' id' (sym (find?-assign_ne ea ea' id index ne) ∙ e)
      | inl same ↦
          let ids : id ≡ id' = some_eq (
            sym (find?-assign_self ea id index)
            ∙ ap (λ z. find? z (assign ea id index)) same
            ∙ e) in
          (a, subst (λ i. find? i objects ≡ some a) ids q, r ∙ same)
    ];
  }

  -- An object that changes but stays at its address.
  pub update-IsIndexed :
      (next id : ℕ) (index : Map ℕ) (objects : Map A) (a b : A)
      → IsIndexed ea_of next index objects
      → find? id objects ≡ some a
      → ea_of b ≡ ea_of a
      → IsIndexed ea_of next index (assign id b objects)
  update-IsIndexed next id index objects a b h q same = record {
    below = Below-assign id next b objects (Below-find? next id objects a h.below q) h.below;
    at = λ ea' id' e.
        let (c, q', r) = h.at ea' id' e in
        elim (eq_cases id id') [
          | inr ne ↦ (c, find?-assign_ne id id' b objects ne ∙ q', r)
          | inl ids ↦ (
            b,
            ap (λ i. find? i (assign id b objects)) (sym ids) ∙ find?-assign_self id b objects,
            same ∙ ap ea_of (some_eq (sym q ∙ ap (λ i. find? i objects) ids ∙ q')) ∙ r,
          )
        ];
  }

  -- What is looked up is at the address that it is looked up under.
  pub look_up-IsIndexed :
      (next ea : ℕ) (index : Map ℕ) (objects : Map A) (id : ℕ) (a : A)
      → IsIndexed ea_of next index objects
      → look_up ea index objects ≡ some (id, a)
      → (find? ea index ≡ some id) × (find? id objects ≡ some a) × (ea_of a ≡ ea)
  unfolding look_up
  look_up-IsIndexed next ea index objects id a h e =
      let (i, e1, rest) = and_then-inverts (find? ea index) _ e in
      let (b, e2, last) = and_then-inverts (find? i objects) _ rest in
      let ids : i ≡ id = ap (λ x. x.0) (some_eq last) in
      let same : b ≡ a = ap (λ x. x.1) (some_eq last) in
      let (c, e3, r) = h.at ea i e1 in
      (
        subst (λ j. find? ea index ≡ some j) ids e1,
        subst (λ j. find? j objects ≡ some a) ids (e2 ∙ ap some same),
        ap ea_of (sym same ∙ some_eq (sym e2 ∙ e3)) ∙ r,
      )
