-- ===== src/Cfg/Xrefs/Entered.antt =====
-- Which references have an entry after the cross-reference stage (mcsema/CFG/CFG.cpp, `ReadProtoBuf`).
use mcsema.Prelude.{
  ℕ, ◌+◌, ◌<◌, ◌^◌, ◌≡◌, ◌≢◌, refl, sym, subst, ap, ◌∙◌, inl, inr, true, some, List, [], ◌∷◌, arith,
  leb, All,
}
use mcsema.Prelude.Maps.{find?, assign, find?-assign_self, find?-assign_ne}
use mcsema.Cfg.Types.{NativeXref, Entry, Entries, ok, check, xref_too_wide, >>=-inverts, ok-eq}
use mcsema.Cfg.Xrefs.{
  DataReference, Lookups, xref_entry, old_blob, resolve_reference, new_xref, put_xref,
  add_reference, fill_xrefs,
}
use mcsema.Cfg.Xrefs.Fit.{pick_target_lem, Inside, Disjoint, AllDisjoint}
use mcsema.Cfg.Xrefs.Placement.{skipped, added, add_reference-Added}

-- A reference that resolves has an entry, which holds what it resolves to.
unfoldable pub HasEntry : Lookups → (segment : ℕ) → Entries → DataReference → Type 0
HasEntry l seg es r =
    (resolve_reference l (new_xref l seg r)).1 ≡ true
    → (e : Entry) × (find? r.ea es ≡ some e)
      × (e.xref ≡ some (resolve_reference l (new_xref l seg r)).0)

add_reference_other :
    (l : Lookups) (seg k : ℕ) (r : DataReference) (es : Entries)
    → r.ea + r.width < 2 ^ 64
    → r.ea ≢ k
    → find? k (add_reference l seg r es) ≡ find? k es
add_reference_other l seg k r es w ne = elim (add_reference-Added l seg r es w) [
  | skipped q ↦ ap (find? k) q
  | added e at ends q ↦ ap (find? k) q ∙ find?-assign_ne e.ea k e es (λ s. ne (sym at ∙ s))
]

fill_xrefs_other :
    (ptr : ℕ) (l : Lookups) (seg lo hi k : ℕ) (refs : List DataReference) (es out : Entries)
    → hi < 2 ^ 64
    → All (Inside lo hi) refs
    → All (λ (r : DataReference). r.ea ≢ k) refs
    → fill_xrefs ptr l seg refs es ≡ ok out
    → find? k out ≡ find? k es
unfolding fill_xrefs
fill_xrefs_other ptr l seg lo hi k [] es out w i d e = ap (find? k) (sym (ok-eq e))
fill_xrefs_other ptr l seg lo hi k (r ∷ refs) es out w i d e =
    let (u, fits, rest) = >>=-inverts (check (leb r.width ptr) xref_too_wide) _ e in
    fill_xrefs_other ptr l seg lo hi k refs (add_reference l seg r es) out w i.1 d.1 rest
    ∙ add_reference_other l seg k r es (omega arith) d.0

add_reference-HasEntry :
    (l : Lookups) (seg : ℕ) (r : DataReference) (es : Entries)
    → HasEntry l seg (add_reference l seg r es) r
unfolding HasEntry add_reference put_xref
add_reference-HasEntry l seg r es found = (
  xref_entry (resolve_reference l x).0 (old_blob (find? (resolve_reference l x).0.ea es)),
  rw found (
      subst
        (λ k.
          find? k (
            assign (resolve_reference l x).0.ea
              (xref_entry (resolve_reference l x).0
                (old_blob (find? (resolve_reference l x).0.ea es)))
              es)
          ≡ some (
              xref_entry (resolve_reference l x).0
                (old_blob (find? (resolve_reference l x).0.ea es))))
        at (find?-assign_self (resolve_reference l x).0.ea _ es)),
  unfold xref_entry in refl,
)
  where
    x : NativeXref
    x = new_xref l seg r

    at : (resolve_reference l x).0.ea ≡ r.ea
    at =
        unfold resolve_reference new_xref in
        (pick_target_lem (l.variable_at x.target_ea) (l.function_at x.target_ea) x).0

HasEntry-same :
    (l : Lookups) (seg : ℕ) (es out : Entries) (r : DataReference)
    → find? r.ea out ≡ find? r.ea es
    → HasEntry l seg es r
    → HasEntry l seg out r
unfolding HasEntry
HasEntry-same l seg es out r same h found =
    let (e, there, holds) = h found in (e, same ∙ there, holds)

elsewhere :
    (lo hi : ℕ) (r : DataReference) (refs : List DataReference)
    → Inside lo hi r
    → All (Inside lo hi) refs
    → All (Disjoint r) refs
    → All (λ (s : DataReference). s.ea ≢ r.ea) refs
elsewhere lo hi r [] i is d = tt
elsewhere lo hi r (s ∷ refs) i is d = (
  λ e. (elim d.0 [ inl before ↦ omega arith | inr behind ↦ omega arith ]),
  elsewhere lo hi r refs i is.1 d.1,
)

-- Every reference of the list that resolves has its entry after the stage.
pub fill_xrefs-HasEntry :
    (ptr : ℕ) (l : Lookups) (seg lo hi : ℕ) (refs : List DataReference) (es out : Entries)
    → hi < 2 ^ 64
    → All (Inside lo hi) refs
    → AllDisjoint refs
    → fill_xrefs ptr l seg refs es ≡ ok out
    → All (HasEntry l seg out) refs
unfolding fill_xrefs
fill_xrefs-HasEntry ptr l seg lo hi [] es out w i d e = tt
fill_xrefs-HasEntry ptr l seg lo hi (r ∷ refs) es out w i d e =
    let (u, fits, rest) = >>=-inverts (check (leb r.width ptr) xref_too_wide) _ e in
    (
      HasEntry-same l seg (add_reference l seg r es) out r
          (fill_xrefs_other ptr l seg lo hi r.ea refs (add_reference l seg r es) out w i.1
            (elsewhere lo hi r refs i.0 i.1 d.0) rest)
          (add_reference-HasEntry l seg r es),
      fill_xrefs-HasEntry ptr l seg lo hi refs (add_reference l seg r es) out w i.1 d.1 rest,
    )
