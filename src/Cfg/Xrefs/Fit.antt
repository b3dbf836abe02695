-- ===== src/Cfg/Xrefs/Fit.antt =====
-- The cross-reference stage of `ReadProtoBuf` (mcsema/CFG/CFG.cpp): when it succeeds, and what its
-- entries are.
use mcsema.Prelude.{
  ℕ, ◌+◌, ◌≤◌, ◌<◌, ◌≡◌, refl, sym, subst, ◌∙◌, ◌≢◌, ◌⊎◌, inl, inr, true, false, Option, none, some,
  List, [], ◌∷◌, arith, leb, ltb, ◌==◌, Bool-cases, Option-cases, All, add64, ==_ne, lt→ltb, le→ltb,
}
use mcsema.Prelude.Maps.{find?, assign}
use mcsema.Cfg.Types.{
  NativeXref, Entry, Entries, ok, failed, check, xref_too_wide, >>=-inverts, ok-eq,
}
use mcsema.Cfg.Xrefs.{
  DataReference, Lookups, pick_target, xref_entry, old_blob, resolve_reference, new_xref, put_xref,
  add_reference, fill_xrefs,
}
use mcsema.Cfg.Partition.Total.{Fits}

leb_cases : (a b : ℕ) → (leb a b ≡ true) × (a ≤ b) ⊎ (leb a b ≡ false) × (b < a)
leb_cases a b = ground arith

-- The stage stops exactly at a reference that is wider than a pointer.
pub fill_xrefs_cases :
    (ptr : ℕ) (l : Lookups) (seg : ℕ) (refs : List DataReference) (es : Entries)
    → (All (λ (r : DataReference). r.width ≤ ptr) refs
        × ((out : Entries) × (fill_xrefs ptr l seg refs es ≡ ok out)))
      ⊎ (¬ (All (λ (r : DataReference). r.width ≤ ptr) refs)
          × (fill_xrefs ptr l seg refs es ≡ failed xref_too_wide))
unfolding fill_xrefs
fill_xrefs_cases ptr l seg [] es = inl (tt, (es, refl))
fill_xrefs_cases ptr l seg (r ∷ refs) es = elim (leb_cases r.width ptr) [
  | inr (t, wide) ↦ inr (λ h. omega (arith, h.0), rw t)
  | inl (t, fits) ↦ elim (fill_xrefs_cases ptr l seg refs (add_reference l seg r es)) [
    | inl (h, (out, e)) ↦ inl ((fits, h), (out, rw t e))
    | inr (h, e) ↦ inr (λ all. h all.1, rw t e)
  ]
]

-- An entry that the stage makes: it spans its cross-reference, which has a target.
pub record IsXrefEntry (key : ℕ) (e : Entry) : Type 0 where
  pub xref : NativeXref
  pub holds : e.xref ≡ some xref
  pub no_blob : e.blob ≡ none
  pub at_key : e.ea ≡ key
  pub starts : xref.ea ≡ key
  pub ends : e.next_ea ≡ add64 key xref.width
  pub has_target : (xref.var ≢ none) ⊎ (xref.func ≢ none) ⊎ (xref.target_segment ≢ none)

some_not_none {ℓ} : {A : Type ℓ} {a : A} → some a ≢ none
some_not_none e = cc

pub pick_target_lem :
    (v f : Option ℕ) (x : NativeXref)
    → ((pick_target v f x).0.ea ≡ x.ea)
      × ((pick_target v f x).0.width ≡ x.width)
      × ((pick_target v f x).1 ≡ true
          → ((pick_target v f x).0.var ≢ none)
            ⊎ ((pick_target v f x).0.func ≢ none)
            ⊎ ((pick_target v f x).0.target_segment ≢ none))
unfolding pick_target
pick_target_lem (some v) f x = (refl, refl, λ h. inl some_not_none)
pick_target_lem none (some f) x = (refl, refl, λ h. inr (inl some_not_none))
pick_target_lem none none x = (
  refl,
  refl,
  λ h. elim (Option-cases x.target_segment) [
    | inl e ↦ absurd (no_target e h)
    | inr (s, e) ↦ inr (inr (λ e'. some_not_none (sym e ∙ e')))
  ],
)
  where
    no_target :
        x.target_segment ≡ none
        → (elim x.target_segment [ some seg ↦ true | none ↦ false ]) ≡ true
        → ⊥
    no_target e h = ground arith

pub All-assign {κ} :
    (P : ℕ × Entry → Type κ) (k : ℕ) (v : Entry) (m : Entries)
    → All P m
    → P (k, v)
    → All P (assign k v m)
unfolding assign
All-assign P k v [] h p = (p, tt)
All-assign P k v ((j, w) ∷ m) h p = elim (Bool-cases (k == j)) [
  | inl e ↦ rw e (p, h.1)
  | inr ne ↦ elim (Bool-cases (ltb k j)) [
    | inl l ↦ rw (ne, l) (p, (h.0, h.1))
    | inr g ↦ rw (ne, g) (h.0, All-assign P k v m h.1 p)
  ]
]

abbrev pub AllXrefs : Entries → Type 0
AllXrefs = All (λ (x : ℕ × Entry). IsXrefEntry x.0 x.1)

old_blob-find? : (k : ℕ) (es : Entries) → AllXrefs es → old_blob (find? k es) ≡ none
unfolding find? old_blob
old_blob-find? k [] h = refl
old_blob-find? k ((j, e) ∷ es) h = elim (Bool-cases (j == k)) [
  | inl t ↦ rw t h.0.no_blob
  | inr f ↦ rw f (old_blob-find? k es h.1)
]

add_reference-AllXrefs :
    (l : Lookups) (seg : ℕ) (r : DataReference) (es : Entries)
    → AllXrefs es
    → AllXrefs (add_reference l seg r es)
unfolding add_reference xref_entry put_xref
add_reference-AllXrefs l seg r es h = elim (Bool-cases (resolve_reference l (new_xref l seg r)).1) [
  | inr skip ↦ rw skip h
  | inl found ↦ rw found (All-assign _ _ _ es h (entry_lem found))
]
  where
    x : NativeXref
    x = new_xref l seg r

    entry_lem :
        (resolve_reference l x).1 ≡ true
        → IsXrefEntry (resolve_reference l x).0.ea (
            xref_entry (resolve_reference l x).0 (old_blob (find? (resolve_reference l x).0.ea es)))
    entry_lem found = record {
      xref = (resolve_reference l x).0;
      holds = refl;
      no_blob = old_blob-find? (resolve_reference l x).0.ea es h;
      at_key = refl;
      starts = refl;
      ends = refl;
      has_target =
          unfold resolve_reference in
          (pick_target_lem (l.variable_at x.target_ea) (l.function_at x.target_ea) x).2 found;
    }

-- Every entry of the stage spans the cross-reference it holds, which has a target.
pub fill_xrefs-AllXrefs :
    (ptr : ℕ) (l : Lookups) (seg : ℕ) (refs : List DataReference) (es out : Entries)
    → AllXrefs es
    → fill_xrefs ptr l seg refs es ≡ ok out
    → AllXrefs out
unfolding fill_xrefs
fill_xrefs-AllXrefs ptr l seg [] es out h e = subst AllXrefs (ok-eq e) h
fill_xrefs-AllXrefs ptr l seg (r ∷ refs) es out h e =
    let (u, fits, rest) = >>=-inverts (check (leb r.width ptr) xref_too_wide) _ e in
    fill_xrefs-AllXrefs ptr l seg refs (add_reference l seg r es) out
      (add_reference-AllXrefs l seg r es h) rest

-- A reference of `width` bytes at `key` lies inside [lo, hi) and apart from what has an entry.
abbrev pub Inside : ℕ → ℕ → DataReference → Type 0
Inside lo hi r = (lo ≤ r.ea) × (0 < r.width) × (r.ea + r.width ≤ hi)

abbrev pub ApartFrom : DataReference → ℕ × Entry → Type 0
ApartFrom r x = (r.ea + r.width ≤ x.0) ⊎ (x.1.next_ea ≤ r.ea)

abbrev pub Disjoint : DataReference → DataReference → Type 0
Disjoint r s = (r.ea + r.width ≤ s.ea) ⊎ (s.ea + s.width ≤ r.ea)

abbrev pub AllDisjoint : List DataReference → Type 0
AllDisjoint [] = Unit
AllDisjoint (r ∷ rs) = All (Disjoint r) rs × AllDisjoint rs

-- Putting in an entry that is apart from the rest.
pub Fits-assign :
    (lo hi : ℕ) (e : Entry) (es : Entries)
    → Fits lo hi es
    → lo ≤ e.ea
    → e.ea < e.next_ea
    → e.next_ea ≤ hi
    → All (λ (x : ℕ × Entry). (e.next_ea ≤ x.0) ⊎ (x.1.next_ea ≤ e.ea)) es
    → Fits lo hi (assign e.ea e es)
unfolding assign
Fits-assign lo hi e [] f l w b a = (l, refl, w, b)
Fits-assign lo hi e ((k, x) ∷ es) f l w b a = elim a.0 [
  | inl before ↦
      rw (==_ne e.ea k (omega arith), lt→ltb e.ea k (omega arith))
        (l, refl, w, (before, f.1, f.2, f.3))
  | inr behind ↦
      rw (==_ne e.ea k (omega arith), le→ltb e.ea k (omega arith))
        (f.0, f.1, f.2, Fits-assign x.next_ea hi e es f.3 behind w b a.1)
]
