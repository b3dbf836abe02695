-- ===== src/Dyninst/OffsetTables/Agree.antt =====
-- The two containers of an offset table (tools/mcsema_disass/dyninst/OffsetTable.cpp).
use mcsema.Prelude.{
  ℕ, ◌≤◌, ◌<◌, ◌≡◌, refl, sym, ◌∙◌, ap, subst, inl, inr, Bool, true, false, ◌||◌, List, [], ◌∷◌,
  ◌++◌, arith, ◌==◌, ==_refl, ==_ne, eq_cases, Bool-cases, All,
}
use mcsema.Prelude.Maps.{Map, Below, IsSorted, emplace-Below, emplace-IsSorted}
use mcsema.Dyninst.OffsetTables.{OffsetTable, member, insert_target, insert_entry}

-- Some entry leads to `x`.
abbrev pub leads_to : ℕ → Map ℕ → Bool
leads_to x [] = false
leads_to x ((key, target) ∷ entries) = (target == x) || leads_to x entries

pub member-insert_target :
    (x y : ℕ) (ys : List ℕ) → member x (insert_target y ys) ≡ (y == x) || member x ys
unfolding member insert_target
member-insert_target x y ys = elim (Bool-cases (member y ys)) [
  | inl there ↦ rw there (known there)
  | inr new ↦ rw new (ground arith)
]
  where
    known : member y ys ≡ true → member x ys ≡ (y == x) || member x ys
    known h = elim (eq_cases y x) [
      | inl e ↦ rw (e, ==_refl x) (subst (λ z. member z ys ≡ true) e h)
      | inr ne ↦ rw (==_ne y x ne) refl
    ]

pub leads_to_snoc :
    (x k v : ℕ) (m : Map ℕ) → leads_to x (m ++ (k, v) ∷ []) ≡ (v == x) || leads_to x m
leads_to_snoc x k v [] = refl
leads_to_snoc x k v ((j, w) ∷ m) = ground (arith, leads_to_snoc x k v m)

-- What a table that is built up to `ea` is like: `Good` holds of its entries.
pub record Built {κ} (Good : ℕ × ℕ → Type κ) (ea : ℕ) (t : OffsetTable) : Type κ where
  pub below : Below ea t.entries
  pub sorted : IsSorted t.entries
  pub good : All Good t.entries
  pub agree : (x : ℕ) → member x t.targets ≡ leads_to x t.entries

pub Below-mono : (a b : ℕ) (m : Map ℕ) → a ≤ b → Below a m → Below b m
Below-mono a b [] l h = tt
Below-mono a b ((k, v) ∷ m) l h = (omega (arith, h.0), Below-mono a b m l h.1)

pub Below-snoc : (a b v : ℕ) (m : Map ℕ) → a < b → Below a m → Below b (m ++ (a, v) ∷ [])
Below-snoc a b v [] l h = (l, tt)
Below-snoc a b v ((k, w) ∷ m) l h = (omega (arith, h.0), Below-snoc a b v m l h.1)

All-snoc {κ} :
    (Good : ℕ × ℕ → Type κ) (x : ℕ × ℕ) (m : Map ℕ) → All Good m → Good x → All Good (m ++ x ∷ [])
All-snoc Good x [] h g = (g, tt)
All-snoc Good x (y ∷ m) h g = (h.0, All-snoc Good x m h.1 g)

pub insert_entry_agree :
    (ea target : ℕ) (t : OffsetTable)
    → Below ea t.entries
    → ((x : ℕ) → member x t.targets ≡ leads_to x t.entries)
    → (x : ℕ)
    → member x (insert_entry ea target t).targets ≡ leads_to x (insert_entry ea target t).entries
unfolding insert_entry
insert_entry_agree ea target t b h x =
    member-insert_target x target t.targets
    ∙ ap (λ z. (target == x) || z) (h x)
    ∙ sym (leads_to_snoc x ea target t.entries)
    ∙ ap (leads_to x) (sym (emplace-Below ea target t.entries b))

-- Putting an entry behind the others.
pub insert_entry-Built {κ} :
    (Good : ℕ × ℕ → Type κ) (ea next target : ℕ) (t : OffsetTable)
    → ea < next
    → Good (ea, target)
    → Built Good ea t
    → Built Good next (insert_entry ea target t)
unfolding insert_entry
insert_entry-Built Good ea next target t l g b =
    let behind = emplace-Below ea target t.entries b.below in
    record {
      below = subst (Below next) (sym behind) (Below-snoc ea next target t.entries l b.below);
      sorted = emplace-IsSorted ea target t.entries b.sorted;
      good = subst (All Good) (sym behind) (All-snoc Good (ea, target) t.entries b.good g);
      agree = insert_entry_agree ea target t b.below b.agree;
    }
