-- ===== src/Cfg/Entries/Total.antt =====
-- Both stages over the references of a segment (mcsema/CFG/CFG.cpp, `ReadProtoBuf`).
use mcsema.Prelude.{
  refl, false, ◌∷◌, some, ℕ, ◌+◌, ◌≤◌, ◌<◌, ◌^◌, ◌≡◌, inl, inr, Bool, true, List, [], arith, All,
}
use mcsema.Prelude.Maps.{find?}
use mcsema.Cfg.Types.{Entry, Entries, ok, failed, unmapped_segment}
use mcsema.Cfg.Partition.{ByteRange, fill_blobs}
use mcsema.Cfg.Partition.Total.{Filled, fill_blobs-Filled}
use mcsema.Cfg.Xrefs.{DataReference, Lookups, fill_xrefs}
use mcsema.Cfg.Xrefs.Fit.{AllXrefs, Inside, AllDisjoint, fill_xrefs-AllXrefs, fill_xrefs_cases}
use mcsema.Cfg.Xrefs.Entered.{HasEntry, fill_xrefs-HasEntry}
use mcsema.Cfg.Xrefs.Placement.{fill_xrefs-Fits}
use mcsema.Cfg.Entries.{segment_entries}

segment_entries_steps :
    (ptr : ℕ) (l : Lookups) (seg : ℕ) (refs : List DataReference) (is_var : ℕ → Bool)
    (range : ByteRange) (ea size : ℕ) (es filled : Entries)
    → fill_xrefs ptr l seg refs [] ≡ ok es
    → fill_blobs true is_var range ea size es ≡ ok filled
    → segment_entries ptr l seg refs true is_var range ea size ≡ ok filled
unfolding segment_entries
segment_entries_steps ptr l seg refs is_var range ea size es filled x b = rw (x, b)

segment_entries_unmapped :
    (ptr : ℕ) (l : Lookups) (seg : ℕ) (refs : List DataReference) (is_var : ℕ → Bool)
    (range : ByteRange) (ea size : ℕ) (es : Entries)
    → fill_xrefs ptr l seg refs [] ≡ ok es
    → segment_entries ptr l seg refs false is_var range ea size ≡ failed unmapped_segment
unfolding segment_entries fill_blobs
segment_entries_unmapped ptr l seg refs is_var range ea size es x = rw x refl

HasEntry-kept :
    (l : Lookups) (seg : ℕ) (es filled : Entries) (refs : List DataReference)
    → ((k : ℕ) (e : Entry) → find? k es ≡ some e → find? k filled ≡ some e)
    → All (HasEntry l seg es) refs
    → All (HasEntry l seg filled) refs
unfolding HasEntry
HasEntry-kept l seg es filled [] kept h = tt
HasEntry-kept l seg es filled (r ∷ refs) kept h = (
  λ found. (let (e, there, holds) = h.0 found in (e, kept r.ea e there, holds)),
  HasEntry-kept l seg es filled refs kept h.1,
)

-- For a segment of less than 4 GB that ends more than four bytes below 2^64: if its references are no
-- wider than a pointer, lie inside it and apart from one another, in whatever order they come, then
-- both stages succeed if the range of the segment is mapped. The entries partition the segment; every
-- reference that resolves has an entry at its address, which holds what it resolves to; the
-- cross-references among the entries each have a target, span their width and keep their place; the
-- rest are blobs that describe their bytes. If the range is not mapped, the program ends with that
-- error.
pub segment_entries_total :
    (ptr : ℕ) (l : Lookups) (seg : ℕ) (refs : List DataReference) (is_var : ℕ → Bool)
    (range : ByteRange) (ea size : ℕ)
    → ea + size + 4 < 2 ^ 64
    → size < 2 ^ 32
    → All (λ (r : DataReference). r.width ≤ ptr) refs
    → All (Inside ea (ea + size)) refs
    → AllDisjoint refs
    → (xrefs filled : Entries) × (fill_xrefs ptr l seg refs [] ≡ ok xrefs)
      × (segment_entries ptr l seg refs true is_var range ea size ≡ ok filled)
      × AllXrefs xrefs
      × Filled range ea size xrefs filled
      × All (HasEntry l seg filled) refs
      × (segment_entries ptr l seg refs false is_var range ea size ≡ failed unmapped_segment)
segment_entries_total ptr l seg refs is_var range ea size w z narrow inside apart =
    elim (fill_xrefs_cases ptr l seg refs []) [
      | inr (wide, e) ↦ absurd (wide narrow)
      | inl (h, (es, e)) ↦
          let fits =
            fill_xrefs-Fits ptr l seg ea (ea + size) refs es (omega arith) (omega arith) inside
              apart e in
          let (filled, b, good) = fill_blobs-Filled is_var range ea size es w z fits in
          (
            es,
            filled,
            e,
            segment_entries_steps ptr l seg refs is_var range ea size es filled e b,
            fill_xrefs-AllXrefs ptr l seg refs [] es tt e,
            good,
            HasEntry-kept l seg es filled refs good.kept (
                fill_xrefs-HasEntry ptr l seg ea (ea + size) refs [] es (omega arith) inside apart
                  e),
            segment_entries_unmapped ptr l seg refs is_var range ea size es e,
          )
    ]
