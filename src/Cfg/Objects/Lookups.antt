-- ===== src/Cfg/Objects/Lookups.antt =====
-- What is looked up after an object is added or changes (mcsema/CFG/CFG.h, `NativeModule`).
use mcsema.Prelude.{
  ℕ, ◌≡◌, ◌≢◌, refl, sym, ◌∙◌, ap, subst, inl, inr, none, some, ◌==◌, ==_refl, ==_ne, if◌then◌else◌,
  eq_cases, Option-cases, and_then, none_not_some, some_eq,
}
use mcsema.Prelude.Maps.{Map, find?, assign, find?-assign_self, find?-assign_ne, find?-Below}
use mcsema.Cfg.Objects.{look_up}
use mcsema.Cfg.Objects.Indexed.{IsIndexed, look_up-IsIndexed}

module _ {ℓ} {A : Type ℓ} where
  look_up_at :
      (ea id : ℕ) (index : Map ℕ) (objects : Map A) (a : A)
      → find? ea index ≡ some id
      → find? id objects ≡ some a
      → look_up ea index objects ≡ some (id, a)
  unfolding look_up
  look_up_at ea id index objects a e f = rw (e, f)

  look_up-none :
      (ea : ℕ) (index : Map ℕ) (objects : Map A)
      → find? ea index ≡ none
      → look_up ea index objects ≡ none
  unfolding look_up
  look_up-none ea index objects e = rw e

  look_up_same :
      (ea : ℕ) (index other : Map ℕ) (objects changed : Map A)
      → find? ea other ≡ find? ea index
      → ((id : ℕ) → find? ea index ≡ some id → find? id changed ≡ find? id objects)
      → look_up ea other changed ≡ look_up ea index objects
  look_up_same ea index other objects changed e same = elim (Option-cases (find? ea index)) [
    | inl q ↦ look_up-none ea other changed (e ∙ q) ∙ sym (look_up-none ea index objects q)
    | inr (id, q) ↦
        unfold look_up in
        ap (λ i. and_then i (λ id. and_then (find? id changed) (λ object. some (id, object))))
          (e ∙ q)
        ∙ ap (λ o. and_then o (λ object. some (id, object))) (same id q)
        ∙ sym (
            ap (λ i. and_then i (λ id. and_then (find? id objects) (λ object. some (id, object))))
              q)
  ]

  look_up-add_self :
      (ea next : ℕ) (index : Map ℕ) (objects : Map A) (a : A)
      → look_up ea (assign ea next index) (assign next a objects) ≡ some (next, a)
  look_up-add_self ea next index objects a =
      look_up_at ea next (assign ea next index) (assign next a objects) a
        (find?-assign_self ea next index) (find?-assign_self next a objects)

  look_up-add_ne :
      (ea_of : A → ℕ) (ea other next : ℕ) (index : Map ℕ) (objects : Map A) (a : A)
      → IsIndexed ea_of next index objects
      → ea ≢ other
      → look_up other (assign ea next index) (assign next a objects) ≡ look_up other index objects
  look_up-add_ne ea_of ea other next index objects a h ne =
      look_up_same other index (assign ea next index) objects (assign next a objects)
        (find?-assign_ne ea other next index ne)
        (λ id q. elim (eq_cases next id) [
          | inr different ↦ find?-assign_ne next id a objects different
          | inl same ↦
              let (b, there, r) = h.at other id q in
              absurd (
                none_not_some
                  (sym (find?-Below next objects h.below) ∙ ap (λ i. find? i objects) same ∙ there))
        ])

  look_up-update_self :
      (ea id : ℕ) (index : Map ℕ) (objects : Map A) (b : A)
      → find? ea index ≡ some id
      → look_up ea index (assign id b objects) ≡ some (id, b)
  look_up-update_self ea id index objects b e =
      look_up_at ea id index (assign id b objects) b e (find?-assign_self id b objects)

  look_up-update_ne :
      (ea_of : A → ℕ) (ea other next id : ℕ) (index : Map ℕ) (objects : Map A) (a b : A)
      → IsIndexed ea_of next index objects
      → look_up ea index objects ≡ some (id, a)
      → ea ≢ other
      → look_up other index (assign id b objects) ≡ look_up other index objects
  look_up-update_ne ea_of ea other next id index objects a b h e ne =
      let (at, there, is_at) = look_up-IsIndexed ea_of next ea index objects id a h e in
      look_up_same other index index objects (assign id b objects) refl (λ i q.
        elim (eq_cases id i) [
          | inr different ↦ find?-assign_ne id i b objects different
          | inl same ↦
              let (c, found, r) = h.at other i q in
              absurd (
                ne (
                  sym is_at
                  ∙ ap ea_of (some_eq (sym there ∙ ap (λ j. find? j objects) same ∙ found))
                  ∙ r))
        ])

  -- Both at once.
  pub look_up-update :
      (ea_of : A → ℕ) (ea other next id : ℕ) (index : Map ℕ) (objects : Map A) (a b : A)
      → IsIndexed ea_of next index objects
      → look_up ea index objects ≡ some (id, a)
      → look_up other index (assign id b objects)
        ≡ (if ea == other then some (id, b) else look_up other index objects)
  look_up-update ea_of ea other next id index objects a b h e = elim (eq_cases ea other) [
    | inr ne ↦
        look_up-update_ne ea_of ea other next id index objects a b h e ne
        ∙ rw (==_ne ea other ne) refl
    | inl same ↦
        let (at, there, is_at) = look_up-IsIndexed ea_of next ea index objects id a h e in
        look_up-update_self other id index objects b (subst (λ z. find? z index ≡ some id) same at)
        ∙ rw (same, ==_refl other) refl
  ]

  pub look_up-add :
      (ea_of : A → ℕ) (ea other next : ℕ) (index : Map ℕ) (objects : Map A) (a : A)
      → IsIndexed ea_of next index objects
      → look_up other (assign ea next index) (assign next a objects)
        ≡ (if ea == other then some (next, a) else look_up other index objects)
  look_up-add ea_of ea other next index objects a h = elim (eq_cases ea other) [
    | inr ne ↦ look_up-add_ne ea_of ea other next index objects a h ne ∙ rw (==_ne ea other ne) refl
    | inl same ↦
        subst (λ z. look_up z (assign ea next index) (assign next a objects) ≡ some (next, a)) same
          (look_up-add_self ea next index objects a)
        ∙ rw (same, ==_refl other) refl
  ]
