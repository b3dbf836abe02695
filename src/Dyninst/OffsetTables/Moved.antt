-- ===== src/Dyninst/OffsetTables/Moved.antt =====
-- A table that starts later, and what it means to match (tools/mcsema_disass/dyninst/OffsetTable.cpp,
-- `Recompute` and `Match`).
use mcsema.Prelude.{
  append-nil, append_assoc, ℕ, ◌≡◌, ◌≢◌, refl, sym, ◌∙◌, ap, subst, inl, inr, true, false, List, [],
  ◌∷◌, ◌++◌, ◌↔◌, arith, ◌==◌, if_cases, Bool-cases, All, true_not_false, add64, sub64, ◌≤◌, ◌<◌,
  none, some, ltb, eq_cases, ==_iff, if◌then◌else◌,
}
use mcsema.Prelude.Maps.{Map, Below, Above, IsSorted, emplace-Below, find?, Above-find?}
use mcsema.Dyninst.OffsetTables.{
  OffsetTable, member, insert_entry, from_key, move_entries, empty_table, moved, all_in, any_entry,
  is_empty, match_succs,
}
use mcsema.Dyninst.OffsetTables.Agree.{leads_to, insert_entry_agree, Below-snoc}

-- The entries with each target moved by `diff`.
abbrev pub shifted : ℕ → Map ℕ → Map ℕ
shifted diff [] = []
shifted diff ((key, target) ∷ m) = (key, add64 target diff) ∷ shifted diff m

-- The entries stand before those that are still to come.
abbrev Ahead : Map ℕ → Map ℕ → Type 0
Ahead [] m = Unit
Ahead ((key, target) ∷ rest) m = Below key m

Ahead-insert :
    (key v : ℕ) (rest m : Map ℕ) → Above key rest → Below key m → Ahead rest (m ++ (key, v) ∷ [])
Ahead-insert key v [] m a b = tt
Ahead-insert key v ((j, w) ∷ rest) m a b = Below-snoc key j v m a.0 b

-- Both containers of a table that is filled from a sorted map.
record Filled (entries : Map ℕ) (t : OffsetTable) : Type 0 where
  is_filled : t.entries ≡ entries
  agree : (x : ℕ) → member x t.targets ≡ leads_to x t.entries

move_entries-Filled :
    (diff : ℕ) (m : Map ℕ) (t : OffsetTable)
    → IsSorted m
    → Ahead m t.entries
    → ((x : ℕ) → member x t.targets ≡ leads_to x t.entries)
    → Filled (t.entries ++ shifted diff m) (move_entries diff m t)
unfolding move_entries
move_entries-Filled diff [] t o a h = record { is_filled = sym (append-nil t.entries); agree = h }
move_entries-Filled diff ((key, target) ∷ m) t o a h =
    let u : OffsetTable = insert_entry key (add64 target diff) t in
    let behind : u.entries ≡ t.entries ++ (key, add64 target diff) ∷ [] =
      unfold insert_entry in emplace-Below key (add64 target diff) t.entries a in
    let rest =
      move_entries-Filled diff m u o.1
        (subst (Ahead m) (sym behind) (Ahead-insert key (add64 target diff) m t.entries o.0 a))
        (insert_entry_agree key (add64 target diff) t a h) in
    record {
      is_filled =
          rest.is_filled
          ∙ ap (λ e. e ++ shifted diff m) behind
          ∙ append_assoc t.entries ((key, add64 target diff) ∷ []) (shifted diff m);
      agree = rest.agree;
    }

from_key-IsSorted : (k : ℕ) (m : Map ℕ) → IsSorted m → IsSorted (from_key k m)
unfolding from_key
from_key-IsSorted k [] o = tt
from_key-IsSorted k ((j, v) ∷ m) o = elim (Bool-cases (j == k)) [
  | inl e ↦ rw e o
  | inr f ↦ rw f (from_key-IsSorted k m o.1)
]

Ahead-nothing : (m : Map ℕ) → Ahead m []
Ahead-nothing [] = tt
Ahead-nothing ((k, v) ∷ m) = tt

-- The entries at a key and behind it.
abbrev pub entries_from : ℕ → Map ℕ → Map ℕ
entries_from k [] = []
entries_from k ((j, v) ∷ m) = if ltb j k then entries_from k m else (j, v) ∷ entries_from k m

entries_from-Above : (k b : ℕ) (m : Map ℕ) → k ≤ b → Above b m → entries_from k m ≡ m
entries_from-Above k b [] l a = refl
entries_from-Above k b ((j, v) ∷ m) l a = ground (arith, entries_from-Above k b m l a.1)

from_key_found :
    (k v : ℕ) (m : Map ℕ) → IsSorted m → find? k m ≡ some v → from_key k m ≡ entries_from k m
unfolding from_key find?
from_key_found k v [] o e = refl
from_key_found k v ((j, w) ∷ m) o e = elim (eq_cases j k) [
  | inl same ↦
      rw ((==_iff j k).1 same) (sym (ground (arith, entries_from-Above k j m (omega arith) o.0)))
  | inr ne ↦
      let found : find? k m ≡ some v = unfold find? in ground arith in
      let below : j < k = Above-find? j k v m o.0 found in
      ground (arith, from_key_found k v m o.1 found)
]

from_key_missing : (k : ℕ) (m : Map ℕ) → find? k m ≡ none → from_key k m ≡ []
unfolding from_key find?
from_key_missing k [] e = refl
from_key_missing k ((j, w) ∷ m) e = ground (arith, from_key_missing k m)

-- For a table whose entries are in order: where the new start has an entry, the table that Recompute
-- makes has the entries at it and behind it, their targets moved by as much as the start; where it
-- has none, the table is empty. The set of targets is that of the entries.
pub moved_lem :
    (new_start_ea : ℕ) (t : OffsetTable)
    → IsSorted t.entries
    → ((v : ℕ)
        → find? new_start_ea t.entries ≡ some v
        → (moved new_start_ea t).entries
          ≡ shifted (sub64 new_start_ea t.start_ea) (entries_from new_start_ea t.entries))
      × (find? new_start_ea t.entries ≡ none → (moved new_start_ea t).entries ≡ [])
      × ((x : ℕ)
          → member x (moved new_start_ea t).targets ≡ leads_to x (moved new_start_ea t).entries)
unfolding moved
moved_lem new_start_ea t o =
    let diff : ℕ = sub64 new_start_ea t.start_ea in
    let filled =
      move_entries-Filled diff (from_key new_start_ea t.entries)
        (empty_table new_start_ea (sub64 t.size diff)) (from_key-IsSorted new_start_ea t.entries o)
        (unfold empty_table in Ahead-nothing (from_key new_start_ea t.entries))
        (unfold empty_table member in λ x. refl) in
    let kept = filled.is_filled ∙ (unfold empty_table in refl) in
    (
      λ v e. kept ∙ ap (shifted diff) (from_key_found new_start_ea v t.entries o e),
      λ e. kept ∙ ap (shifted diff) (from_key_missing new_start_ea t.entries e),
      filled.agree,
    )

-- Matching.
all_in-All :
    (succs targets : List ℕ)
    → all_in succs targets ≡ true
    → All (λ s. member s targets ≡ true) succs
unfolding all_in
all_in-All [] targets h = tt
all_in-All (s ∷ succs) targets h = (ground arith, all_in-All succs targets (ground arith))

All-all_in :
    (succs targets : List ℕ)
    → All (λ s. member s targets ≡ true) succs
    → all_in succs targets ≡ true
unfolding all_in
All-all_in [] targets h = refl
All-all_in (s ∷ succs) targets h = rw (h.0, All-all_in succs targets h.1)

any_entry_none : (m : Map ℕ) → any_entry [] m ≡ false
unfolding any_entry member
any_entry_none [] = refl
any_entry_none ((k, v) ∷ m) = any_entry_none m

any_entry_first :
    (s : ℕ) (succs : List ℕ) (m : Map ℕ) → leads_to s m ≡ true → any_entry (s ∷ succs) m ≡ true
unfolding any_entry
any_entry_first s succs [] h = absurd (true_not_false (sym h))
any_entry_first s succs ((k, v) ∷ m) h = ground (arith, any_entry_first s succs m)

All-agree :
    (t : OffsetTable)
    → ((x : ℕ) → member x t.targets ≡ leads_to x t.entries)
    → (succs : List ℕ) → All (λ s. member s t.targets ≡ true) succs
    → All (λ s. leads_to s t.entries ≡ true) succs
All-agree t agree [] h = tt
All-agree t agree (s ∷ succs) h = (sym (agree s) ∙ h.0, All-agree t agree succs h.1)

All-agree_back :
    (t : OffsetTable)
    → ((x : ℕ) → member x t.targets ≡ leads_to x t.entries)
    → (succs : List ℕ) → All (λ s. leads_to s t.entries ≡ true) succs
    → All (λ s. member s t.targets ≡ true) succs
All-agree_back t agree [] h = tt
All-agree_back t agree (s ∷ succs) h = (agree s ∙ h.0, All-agree_back t agree succs h.1)

not_empty : (s : ℕ) (targets : List ℕ) → member s targets ≡ true → is_empty targets ≡ false
unfolding member is_empty
not_empty s [] h = sym h
not_empty s (x ∷ targets) h = refl

matched :
    (t : OffsetTable) (succs : List ℕ)
    → match_succs t succs ≡ true
    → (all_in succs t.targets ≡ true) × (any_entry succs t.entries ≡ true)
unfolding match_succs
matched t succs h = elim (if_cases (is_empty t.targets) _ _ h) [
  | inl (none_there, h1) ↦ absurd (true_not_false (sym h1))
  | inr (there, h1) ↦ elim (if_cases (all_in succs t.targets) _ _ h1) [
    | inl (all, h2) ↦ (all, h2)
    | inr (missing, h2) ↦ absurd (true_not_false (sym h2))
  ]
]

cons_ne-nil : {s : ℕ} {succs : List ℕ} → s ∷ succs ≢ []
cons_ne-nil e = cc

-- Successors match a table whose containers agree exactly if there is one, and an entry leads to
-- each of them.
pub match_succs_iff :
    (t : OffsetTable) (succs : List ℕ)
    → ((x : ℕ) → member x t.targets ≡ leads_to x t.entries)
    → (match_succs t succs ≡ true) ↔ ((succs ≢ []) × All (λ s. leads_to s t.entries ≡ true) succs)
match_succs_iff t [] agree = (
  λ h. absurd (true_not_false (sym (matched t [] h).1 ∙ any_entry_none t.entries)),
  λ h. absurd (h.0 refl),
)
match_succs_iff t (s ∷ succs) agree = (
  λ h. (
    cons_ne-nil,
    All-agree t agree (s ∷ succs) (all_in-All (s ∷ succs) t.targets (matched t (s ∷ succs) h).0),
  ),
  λ h.
      unfold match_succs in
      rw
        (
          not_empty s t.targets (agree s ∙ h.1.0),
          All-all_in (s ∷ succs) t.targets (All-agree_back t agree (s ∷ succs) h.1),
        )
        (any_entry_first s succs t.entries h.1.0),
)
