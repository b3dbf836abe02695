-- ===== src/Cfg/Xrefs/Placement.antt =====
-- References that lie inside a segment and apart from one another, in any order, give entries that
-- the blob stage can fill up (mcsema/CFG/CFG.cpp, `ReadProtoBuf`).
use mcsema.Prelude.{
  ℕ, ◌+◌, ◌≤◌, ◌<◌, ◌^◌, ◌≡◌, refl, sym, subst, ◌⊎◌, inl, inr, List, [], ◌∷◌, arith, leb,
  Bool-cases, All, add64-eq,
}
use mcsema.Prelude.Maps.{find?, assign}
use mcsema.Cfg.Types.{NativeXref, Entry, Entries, ok, check, xref_too_wide, >>=-inverts, ok-eq}
use mcsema.Cfg.Xrefs.{
  DataReference, Lookups, xref_entry, old_blob, resolve_reference, new_xref, put_xref,
  add_reference, fill_xrefs,
}
use mcsema.Cfg.Xrefs.Fit.{
  pick_target_lem, All-assign, Inside, ApartFrom, Disjoint, AllDisjoint, Fits-assign,
}
use mcsema.Cfg.Partition.Total.{Fits}

-- What a round of the loop does to the entries: nothing, or one entry for the reference.
pub data Added (r : DataReference) (es out : Entries) : Type 0 where
  skipped : out ≡ es → Added r es out
  added :
      (e : Entry)
      → e.ea ≡ r.ea
      → e.next_ea ≡ r.ea + r.width
      → out ≡ assign e.ea e es
      → Added r es out

pub add_reference-Added :
    (l : Lookups) (seg : ℕ) (r : DataReference) (es : Entries)
    → r.ea + r.width < 2 ^ 64
    → Added r es (add_reference l seg r es)
unfolding add_reference xref_entry
add_reference-Added l seg r es w = elim (Bool-cases (resolve_reference l (new_xref l seg r)).1) [
  | inr skip ↦ skipped (rw skip)
  | inl found ↦
      added (xref_entry x' (old_blob (find? x'.ea es))) at
        (unfold xref_entry in rw (at, wide) (add64-eq r.ea r.width w))
        (rw found (unfold put_xref in refl))
]
  where
    x : NativeXref
    x = new_xref l seg r

    x' : NativeXref
    x' = (resolve_reference l x).0

    at : x'.ea ≡ r.ea
    at =
        unfold resolve_reference new_xref in
        (pick_target_lem (l.variable_at x.target_ea) (l.function_at x.target_ea) x).0

    wide : x'.width ≡ r.width
    wide =
        unfold resolve_reference new_xref in
        (pick_target_lem (l.variable_at x.target_ea) (l.function_at x.target_ea) x).1

-- The references still to come lie apart from the entries.
abbrev pub Apart : List DataReference → Entries → Type 0
Apart refs es = All (λ (s : DataReference). All (ApartFrom s) es) refs

Apart-added :
    (r : DataReference) (es : Entries) (e : Entry) (refs : List DataReference)
    → e.ea ≡ r.ea
    → e.next_ea ≡ r.ea + r.width
    → All (Disjoint r) refs
    → Apart refs es
    → Apart refs (assign e.ea e es)
Apart-added r es e [] a n d h = tt
Apart-added r es e (s ∷ refs) a n d h = (
  All-assign (ApartFrom s) e.ea e es h.0
      (elim d.0 [ inl before ↦ inr (omega arith) | inr behind ↦ inl (omega arith) ]),
  Apart-added r es e refs a n d.1 h.1,
)

apart_entries :
    (r : DataReference) (e : Entry) (es : Entries)
    → e.ea ≡ r.ea
    → e.next_ea ≡ r.ea + r.width
    → All (ApartFrom r) es
    → All (λ (x : ℕ × Entry). (e.next_ea ≤ x.0) ⊎ (x.1.next_ea ≤ e.ea)) es
apart_entries r e [] a n h = tt
apart_entries r e (x ∷ es) a n h = (
  (elim h.0 [ inl p ↦ inl (omega arith) | inr p ↦ inr (omega arith) ]),
  apart_entries r e es a n h.1,
)

abbrev pub Placed : ℕ → ℕ → List DataReference → Entries → Type 0
Placed lo hi refs es = Fits lo hi es × Apart refs es

Placed-Added :
    (lo hi : ℕ) (r : DataReference) (refs : List DataReference) (es out : Entries)
    → Inside lo hi r
    → All (Disjoint r) refs
    → Placed lo hi (r ∷ refs) es
    → Added r es out
    → Placed lo hi refs out
Placed-Added lo hi r refs es out i d p (skipped e) = subst (Placed lo hi refs) (sym e) (p.0, p.1.1)
Placed-Added lo hi r refs es out i d p (added e a n q) = subst (Placed lo hi refs) (sym q) (
  Fits-assign lo hi e es p.0 (omega arith) (omega arith) (omega arith)
      (apart_entries r e es a n p.1.0),
  Apart-added r es e refs a n d p.1.1,
)

fill_xrefs-Placed :
    (ptr : ℕ) (l : Lookups) (seg lo hi : ℕ) (refs : List DataReference) (es out : Entries)
    → hi < 2 ^ 64
    → All (Inside lo hi) refs
    → AllDisjoint refs
    → Placed lo hi refs es
    → fill_xrefs ptr l seg refs es ≡ ok out
    → Fits lo hi out
unfolding fill_xrefs
fill_xrefs-Placed ptr l seg lo hi [] es out w i d p e = subst (Fits lo hi) (ok-eq e) p.0
fill_xrefs-Placed ptr l seg lo hi (r ∷ refs) es out w i d p e =
    let (u, fits, rest) = >>=-inverts (check (leb r.width ptr) xref_too_wide) _ e in
    fill_xrefs-Placed ptr l seg lo hi refs (add_reference l seg r es) out w i.1 d.1
      (Placed-Added lo hi r refs es (add_reference l seg r es) i.0 d.0 p
        (add_reference-Added l seg r es (omega arith)))
      rest

Apart-nil : (refs : List DataReference) → Apart refs []
Apart-nil [] = tt
Apart-nil (r ∷ refs) = (tt, Apart-nil refs)

-- References inside [lo, hi) and apart from one another give entries that fit it.
pub fill_xrefs-Fits :
    (ptr : ℕ) (l : Lookups) (seg lo hi : ℕ) (refs : List DataReference) (out : Entries)
    → lo ≤ hi
    → hi < 2 ^ 64
    → All (Inside lo hi) refs
    → AllDisjoint refs
    → fill_xrefs ptr l seg refs [] ≡ ok out
    → Fits lo hi out
fill_xrefs-Fits ptr l seg lo hi refs out h w i d e =
    fill_xrefs-Placed ptr l seg lo hi refs [] out w i d (h, Apart-nil refs) e
