-- ===== src/Prelude/Maps.antt =====
-- `std::map` from addresses: an association list in increasing order of the keys.
use mcsema.Prelude.{
  ℕ, ◌≡◌, ◌≢◌, ◌<◌, ◌≤◌, refl, List, [], ◌∷◌, ◌++◌, Option, none, some, arith, ltb, ◌==◌,
  if◌then◌else◌, none_not_some, some_eq, eq_cases, inl, inr, sym, ap, subst, ◌∙◌,
}

abbrev pub Map {ℓ} : Type ℓ → Type ℓ
Map V = List (ℕ × V)

module _ {ℓ} {V : Type ℓ} where
  -- `m.find(k)`
  unfoldable pub find? : ℕ → Map V → Option V
  find? k [] = none
  find? k ((j, v) ∷ m) = if j == k then some v else find? k m

  -- `m[k] = v`
  unfoldable pub assign : ℕ → V → Map V → Map V
  assign k v [] = (k, v) ∷ []
  assign k v ((j, w) ∷ m) =
      let rest = assign k v m in
      if k == j then (k, v) ∷ m else if ltb k j then (k, v) ∷ (j, w) ∷ m else (j, w) ∷ rest

  -- `m.emplace(k, v)`, which leaves a key that is there alone.
  unfoldable pub emplace : ℕ → V → Map V → Map V
  emplace k v [] = (k, v) ∷ []
  emplace k v ((j, w) ∷ m) =
      let rest = emplace k v m in
      if k == j then (j, w) ∷ m else if ltb k j then (k, v) ∷ (j, w) ∷ m else (j, w) ∷ rest

  -- `m.erase(k)`
  unfoldable pub erase : ℕ → Map V → Map V
  erase k [] = []
  erase k ((j, w) ∷ m) = let rest = erase k m in if j == k then m else (j, w) ∷ rest

  pub find?-assign_self : (k : ℕ) (v : V) (m : Map V) → find? k (assign k v m) ≡ some v
  unfolding find? assign
  find?-assign_self k v [] = ground arith
  find?-assign_self k v ((j, w) ∷ m) = ground (arith, find?-assign_self k v m)

  pub find?-assign_ne : (k j : ℕ) (v : V) (m : Map V) → k ≢ j → find? j (assign k v m) ≡ find? j m
  unfolding find? assign
  find?-assign_ne k j v [] ne = ground arith
  find?-assign_ne k j v ((i, w) ∷ m) ne = ground (arith, find?-assign_ne k j v m)

  -- The keys all stand below a bound.
  abbrev pub Below : ℕ → Map V → Type 0
  Below b [] = Unit
  Below b ((j, w) ∷ m) = (j < b) × Below b m

  pub assign-Below : (k : ℕ) (v : V) (m : Map V) → Below k m → assign k v m ≡ m ++ (k, v) ∷ []
  unfolding assign
  assign-Below k v [] h = refl
  assign-Below k v ((j, w) ∷ m) h = ground (arith, assign-Below k v m h.1)

  pub emplace-Below : (k : ℕ) (v : V) (m : Map V) → Below k m → emplace k v m ≡ m ++ (k, v) ∷ []
  unfolding emplace
  emplace-Below k v [] h = refl
  emplace-Below k v ((j, w) ∷ m) h = ground (arith, emplace-Below k v m h.1)

  pub emplace-append :
      (k j : ℕ) (v w : V) (m : Map V)
      → k < j
      → emplace k v (m ++ (j, w) ∷ []) ≡ emplace k v m ++ (j, w) ∷ []
  unfolding emplace
  emplace-append k j v w [] h = ground arith
  emplace-append k j v w ((i, u) ∷ m) h = ground (arith, emplace-append k j v w m h)

  pub erase-append_self : (k : ℕ) (v : V) (m : Map V) → Below k m → erase k (m ++ (k, v) ∷ []) ≡ m
  unfolding erase
  erase-append_self k v [] h = ground arith
  erase-append_self k v ((i, u) ∷ m) h = ground (arith, erase-append_self k v m h.1)

  -- The keys all stand above a bound.
  abbrev pub Above : ℕ → Map V → Type 0
  Above b [] = Unit
  Above b ((j, w) ∷ m) = (b < j) × Above b m

  abbrev pub IsSorted : Map V → Type 0
  IsSorted [] = Unit
  IsSorted ((j, w) ∷ m) = Above j m × IsSorted m

  Above-trans : (a b : ℕ) (m : Map V) → a < b → Above b m → Above a m
  Above-trans a b [] h k = tt
  Above-trans a b ((j, w) ∷ m) h k = (omega arith, Above-trans a b m h k.1)

  emplace-Above : (b k : ℕ) (v : V) (m : Map V) → b < k → Above b m → Above b (emplace k v m)
  unfolding emplace
  emplace-Above b k v [] h a = (h, tt)
  emplace-Above b k v ((j, w) ∷ m) h a = ground (arith, emplace-Above b k v m h a.1)

  pub emplace-IsSorted : (k : ℕ) (v : V) (m : Map V) → IsSorted m → IsSorted (emplace k v m)
  unfolding emplace
  emplace-IsSorted k v [] h = (tt, tt)
  emplace-IsSorted k v ((j, w) ∷ m) h =
      ground (arith, emplace-IsSorted k v m h.1, emplace-Above j k v m, Above-trans k j m)

  pub Above-find? : (b k : ℕ) (v : V) (m : Map V) → Above b m → find? k m ≡ some v → b < k
  unfolding find?
  Above-find? b k v [] a h = absurd (none_not_some h)
  Above-find? b k v ((j, w) ∷ m) a h = ground (arith, Above-find? b k v m a.1)

  -- `emplace` keeps what a key already holds.
  pub find?-emplace_old :
      (k j : ℕ) (v w : V) (m : Map V)
      → IsSorted m
      → find? k m ≡ some v
      → find? k (emplace j w m) ≡ some v
  unfolding find? emplace
  find?-emplace_old k j v w [] o h = ground arith
  find?-emplace_old k j v w ((i, u) ∷ m) o h =
      ground (arith, find?-emplace_old k j v w m o.1, Above-find? i k v m o.0)

  -- A value, or else another.
  unfoldable pub or_else : Option V → Option V → Option V
  or_else none d = d
  or_else (some a) d = some a

  pub or_else-none : (found : Option V) → or_else found none ≡ found
  unfolding or_else
  or_else-none none = refl
  or_else-none (some a) = refl

  pub or_else_assoc : (a b c : Option V) → or_else (or_else a b) c ≡ or_else a (or_else b c)
  unfolding or_else
  or_else_assoc none b c = refl
  or_else_assoc (some a) b c = refl

  find?-Above : (ea b : ℕ) (m : Map V) → Above b m → ea ≤ b → find? ea m ≡ none
  unfolding find?
  find?-Above ea b [] a l = refl
  find?-Above ea b ((j, w) ∷ m) a l = ground (arith, find?-Above ea b m a.1)

  -- What a key holds after `emplace`.
  pub find?-emplace :
      (ea k : ℕ) (v : V) (m : Map V)
      → IsSorted m
      → find? ea (emplace k v m) ≡ or_else (find? ea m) (if k == ea then some v else none)
  unfolding find? emplace or_else
  find?-emplace ea k v [] o = ground arith
  find?-emplace ea k v ((j, w) ∷ m) o =
      ground (arith, find?-emplace ea k v m o.1, find?-Above ea j m o.0)

  pub find?-Below : (b : ℕ) (m : Map V) → Below b m → find? b m ≡ none
  unfolding find?
  find?-Below b [] h = refl
  find?-Below b ((j, w) ∷ m) h = ground (arith, find?-Below b m h.1)

  pub Below-find? : (b k : ℕ) (m : Map V) (v : V) → Below b m → find? k m ≡ some v → k < b
  unfolding find?
  Below-find? b k [] v h e = absurd (none_not_some e)
  Below-find? b k ((j, w) ∷ m) v h e = ground (arith, Below-find? b k m v h.1)

  pub Below-assign : (k b : ℕ) (v : V) (m : Map V) → k < b → Below b m → Below b (assign k v m)
  unfolding assign
  Below-assign k b v [] l h = (l, tt)
  Below-assign k b v ((j, w) ∷ m) l h = ground (arith, Below-assign k b v m l h.1)

  -- What a map holds under each key is as the predicate says.
  abbrev pub Each : (ℕ → V → Type 0) → Map V → Type ℓ
  Each Good m = (k : ℕ) (v : V) → find? k m ≡ some v → Good k v

  pub Each-assign :
      (Good : ℕ → V → Type 0) (k : ℕ) (v : V) (m : Map V)
      → Good k v
      → Each Good m
      → Each Good (assign k v m)
  Each-assign Good k v m one each j w e = elim (eq_cases k j) [
    | inl same ↦
        let found : some v ≡ some w =
          sym (find?-assign_self k v m) ∙ ap (λ i. find? i (assign k v m)) same ∙ e in
        subst (λ i. Good i w) same (subst (Good k) (some_eq found) one)
    | inr ne ↦ each j w (sym (find?-assign_ne k j v m ne) ∙ e)
  ]
