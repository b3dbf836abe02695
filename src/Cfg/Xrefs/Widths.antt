-- ===== src/Cfg/Xrefs/Widths.antt =====
-- The widths of the cross-references that a segment gets (mcsema/CFG/CFG.cpp, `ReadProtoBuf`).
use mcsema.Prelude.{ℕ, ◌≡◌, refl, sym, subst, inl, inr, some, List, [], ◌∷◌, leb, Bool-cases, All}
use mcsema.Cfg.Types.{NativeXref, Entry, Entries, ok, check, xref_too_wide, >>=-inverts, ok-eq}
use mcsema.Cfg.Xrefs.{
  DataReference, Lookups, resolve_reference, new_xref, xref_entry, put_xref, add_reference,
  fill_xrefs,
}
use mcsema.Cfg.Xrefs.Fit.{All-assign, pick_target_lem}

-- The entry holds a cross-reference of a good width.
abbrev pub HasWidth : (ℕ → Type 0) → ℕ × Entry → Type 0
HasWidth Good x = (xref : NativeXref) × (x.1.xref ≡ some xref) × Good xref.width

add_reference-HasWidth :
    (Good : ℕ → Type 0) (l : Lookups) (seg : ℕ) (r : DataReference) (es : Entries)
    → Good r.width
    → All (HasWidth Good) es
    → All (HasWidth Good) (add_reference l seg r es)
unfolding add_reference put_xref
add_reference-HasWidth Good l seg r es good h =
    elim (Bool-cases (resolve_reference l (new_xref l seg r)).1) [
      | inr skip ↦ rw skip h
      | inl found ↦ rw found (All-assign _ _ _ es h (x, unfold xref_entry in refl, wide))
    ]
  where
    x : NativeXref
    x = (resolve_reference l (new_xref l seg r)).0

    wide : Good x.width
    wide =
        unfold resolve_reference new_xref in
        subst Good
          (sym
            (pick_target_lem (l.variable_at r.target_ea) (l.function_at r.target_ea)
              (new_xref l seg r)).1)
          good

-- References of good widths make cross-references of good widths.
pub fill_xrefs-HasWidth :
    (Good : ℕ → Type 0) (ptr : ℕ) (l : Lookups) (seg : ℕ) (refs : List DataReference)
    (es out : Entries)
    → All (λ (r : DataReference). Good r.width) refs
    → All (HasWidth Good) es
    → fill_xrefs ptr l seg refs es ≡ ok out
    → All (HasWidth Good) out
unfolding fill_xrefs
fill_xrefs-HasWidth Good ptr l seg [] es out g h e = subst (All (HasWidth Good)) (ok-eq e) h
fill_xrefs-HasWidth Good ptr l seg (r ∷ refs) es out g h e =
    let (u, fits, rest) = >>=-inverts (check (leb r.width ptr) xref_too_wide) _ e in
    fill_xrefs-HasWidth Good ptr l seg refs (add_reference l seg r es) out g.1
      (add_reference-HasWidth Good l seg r es g.0 h) rest
