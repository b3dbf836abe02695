-- ===== src/Cfg/Blocks/Successors.antt =====
-- The successors of a block that several declarations describe (mcsema/CFG/CFG.cpp, "Merge in
-- successors").
use mcsema.Prelude.{
  ℕ, ◌≤◌, ◌<◌, ◌≡◌, ◌⊎◌, ◌↔◌, inl, inr, true, List, [], ◌∷◌, ◌++◌, arith, leb, ◌==◌, Bool-cases,
  eq_cases, ==_ne,
}
use mcsema.Cfg.Blocks.{CfgBlock, NativeBlock, insert_sorted, sort, unique_from, unique, merge_block}

-- `x` is one of the addresses.
abbrev pub Has : ℕ → List ℕ → Type 0
Has x [] = ⊥
Has x (y ∷ ys) = (x ≡ y) ⊎ Has x ys

-- Every address is below the next.
abbrev pub AllAbove : ℕ → List ℕ → Type 0
AllAbove x [] = Unit
AllAbove x (y ∷ ys) = (x < y) × AllAbove x ys

abbrev pub IsIncreasing : List ℕ → Type 0
IsIncreasing [] = Unit
IsIncreasing (x ∷ xs) = AllAbove x xs × IsIncreasing xs

AllFrom : ℕ → List ℕ → Type 0
AllFrom x [] = Unit
AllFrom x (y ∷ ys) = (x ≤ y) × AllFrom x ys

IsSorted : List ℕ → Type 0
unfolding AllFrom
IsSorted [] = Unit
IsSorted (x ∷ xs) = AllFrom x xs × IsSorted xs

Has-append : (x : ℕ) (xs ys : List ℕ) → Has x (xs ++ ys) ↔ (Has x xs ⊎ Has x ys)
Has-append x [] ys = (λ h. inr h, λ h. elim h [ inl e ↦ absurd e | inr e ↦ e ])
Has-append x (z ∷ xs) ys = (
  λ h. elim h [
    | inl e ↦ inl (inl e)
    | inr r ↦ elim ((Has-append x xs ys).0 r) [ inl a ↦ inl (inr a) | inr b ↦ inr b ]
  ],
  λ h. elim h [
    | inl a ↦ elim a [ inl e ↦ inl e | inr r ↦ inr ((Has-append x xs ys).1 (inl r)) ]
    | inr b ↦ inr ((Has-append x xs ys).1 (inr b))
  ],
)

Has-insert_sorted : (x a : ℕ) (xs : List ℕ) → Has x (insert_sorted a xs) ↔ ((x ≡ a) ⊎ Has x xs)
unfolding insert_sorted
Has-insert_sorted x a [] = (λ h. h, λ h. h)
Has-insert_sorted x a (y ∷ ys) = elim (Bool-cases (leb a y)) [
  | inl e ↦ rw e (λ h. h, λ h. h)
  | inr e ↦ rw e (
    λ h. elim h [
      | inl q ↦ inr (inl q)
      | inr r ↦ elim ((Has-insert_sorted x a ys).0 r) [ inl p ↦ inl p | inr p ↦ inr (inr p) ]
    ],
    λ h. elim h [
      | inl p ↦ inr ((Has-insert_sorted x a ys).1 (inl p))
      | inr r ↦ elim r [ inl q ↦ inl q | inr p ↦ inr ((Has-insert_sorted x a ys).1 (inr p)) ]
    ],
  )
]

Has-sort : (x : ℕ) (xs : List ℕ) → Has x (sort xs) ↔ Has x xs
unfolding sort
Has-sort x [] = (λ h. h, λ h. h)
Has-sort x (a ∷ xs) = (
  λ h. elim ((Has-insert_sorted x a (sort xs)).0 h) [
    | inl e ↦ inl e
    | inr r ↦ inr ((Has-sort x xs).0 r)
  ],
  λ h. elim h [
    | inl e ↦ (Has-insert_sorted x a (sort xs)).1 (inl e)
    | inr r ↦ (Has-insert_sorted x a (sort xs)).1 (inr ((Has-sort x xs).1 r))
  ],
)

AllFrom-le : (a b : ℕ) (xs : List ℕ) → a ≤ b → AllFrom b xs → AllFrom a xs
unfolding AllFrom
AllFrom-le a b [] h f = tt
AllFrom-le a b (x ∷ xs) h f = (omega arith, AllFrom-le a b xs h f.1)

AllFrom-insert_sorted :
    (b a : ℕ) (xs : List ℕ) → b ≤ a → AllFrom b xs → AllFrom b (insert_sorted a xs)
unfolding AllFrom insert_sorted
AllFrom-insert_sorted b a [] h f = (h, tt)
AllFrom-insert_sorted b a (x ∷ xs) h f = ground (arith, AllFrom-insert_sorted b a xs h f.1)

insert_sorted-IsSorted : (a : ℕ) (xs : List ℕ) → IsSorted xs → IsSorted (insert_sorted a xs)
unfolding IsSorted insert_sorted
insert_sorted-IsSorted a [] s = (tt, tt)
insert_sorted-IsSorted a (x ∷ xs) s =
    ground (arith, insert_sorted-IsSorted a xs s.1, AllFrom-insert_sorted x a xs, AllFrom-le a x xs)

sort-IsSorted : (xs : List ℕ) → IsSorted (sort xs)
unfolding IsSorted sort
sort-IsSorted [] = tt
sort-IsSorted (x ∷ xs) = insert_sorted-IsSorted x (sort xs) (sort-IsSorted xs)

-- What `unique` leaves behind the element `x`, of a sorted run that starts no lower.
Has-unique_from :
    (x a : ℕ) (xs : List ℕ)
    → (Has x xs → (x ≡ a) ⊎ Has x (unique_from a xs)) × (Has x (unique_from a xs) → Has x xs)
unfolding unique_from
Has-unique_from x a [] = (λ h. inr h, λ h. h)
Has-unique_from x a (y ∷ ys) = elim (eq_cases a y) [
  | inl e ↦
      let same : (a == y) ≡ true = ground arith in
      rw same (
        λ h. elim h [ inl q ↦ inl (omega arith) | inr r ↦ (Has-unique_from x a ys).0 r ],
        λ h. inr ((Has-unique_from x a ys).1 h),
      )
  | inr ne ↦ rw (==_ne a y ne) (
    λ h. elim h [
      | inl q ↦ inr (inl q)
      | inr r ↦ elim ((Has-unique_from x y ys).0 r) [ inl q ↦ inr (inl q) | inr p ↦ inr (inr p) ]
    ],
    λ h. elim h [ inl q ↦ inl q | inr p ↦ inr ((Has-unique_from x y ys).1 p) ],
  )
]

unique_from_above :
    (a b : ℕ) (xs : List ℕ)
    → b ≤ a
    → AllFrom a xs
    → IsSorted xs
    → AllAbove a (unique_from a xs) × IsIncreasing (unique_from a xs)
unfolding unique_from AllFrom IsSorted
unique_from_above a b [] h f s = (tt, tt)
unique_from_above a b (y ∷ ys) h f s = elim (eq_cases a y) [
  | inl e ↦
      let same : (a == y) ≡ true = ground arith in
      rw same (unique_from_above a a ys (omega arith) f.1 s.1)
  | inr ne ↦
      let rest = unique_from_above y y ys (omega arith) s.0 s.1 in
      rw (==_ne a y ne) ((omega arith, above_trans a y _ (omega arith) rest.0), rest)
]
  where
    above_trans : (a b : ℕ) (xs : List ℕ) → a < b → AllAbove b xs → AllAbove a xs
    above_trans a b [] h f = tt
    above_trans a b (x ∷ xs) h f = (omega arith, above_trans a b xs h f.1)

unique_lem :
    (xs : List ℕ)
    → IsSorted xs
    → IsIncreasing (unique xs) × ((x : ℕ) → Has x (unique xs) ↔ Has x xs)
unfolding unique IsSorted
unique_lem [] s = (tt, λ x. (λ h. h, λ h. h))
unique_lem (a ∷ xs) s = (
  unique_from_above a a xs (omega arith) s.0 s.1,
  λ x. (
    λ h. elim h [ inl e ↦ inl e | inr r ↦ inr ((Has-unique_from x a xs).1 r) ],
    λ h. elim h [ inl e ↦ inl e | inr r ↦ (Has-unique_from x a xs).0 r ],
  ),
)

-- After a declaration of the block is merged in, its successors are those it had and the
-- declaration's, each once, in increasing order; the block is referenced by data if either says so.
pub merge_block_successors :
    (cfg_block : CfgBlock) (block : NativeBlock)
    → IsIncreasing (merge_block cfg_block block).successor_eas
      × ((x : ℕ)
          → Has x (merge_block cfg_block block).successor_eas
            ↔ (Has x block.successor_eas ⊎ Has x cfg_block.successor_eas))
      × (((merge_block cfg_block block).is_referenced_by_data ≡ true)
          ↔ ((block.is_referenced_by_data ≡ true) ⊎ (cfg_block.is_referenced_by_data ≡ true)))
unfolding merge_block
merge_block_successors c b =
    let all : List ℕ = b.successor_eas ++ c.successor_eas in
    let u = unique_lem (sort all) (sort-IsSorted all) in
    (
      u.0,
      λ x. (
        λ h. (Has-append x b.successor_eas c.successor_eas).0 ((Has-sort x all).0 ((u.1 x).0 h)),
        λ h. (u.1 x).1 ((Has-sort x all).1 ((Has-append x b.successor_eas c.successor_eas).1 h)),
      ),
      (λ h. ground arith, λ h. ground arith),
    )
