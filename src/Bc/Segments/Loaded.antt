-- ===== src/Bc/Segments/Loaded.antt =====
-- From the references in the file to the type of the lifted segment: `ReadProtoBuf` of
-- mcsema/CFG/CFG.cpp, then `GetSegmentType` of mcsema/BC/Segment.cpp.
use mcsema.Prelude.{
  none, ℕ, ◌+◌, ◌≤◌, ◌<◌, ◌^◌, ◌≡◌, sym, subst, inl, inr, Bool, true, List, [], ◌∷◌, ltb, ◌==◌,
  Bool-cases, All,
}
use mcsema.Prelude.Maps.{emplace}
use mcsema.Cfg.Types.{NativeSegment, Entry, Entries, ok}
use mcsema.Cfg.Partition.{ByteRange, emplace_blobs}
use mcsema.Cfg.Partition.Bytes.{IsBlob}
use mcsema.Cfg.Xrefs.{DataReference, Lookups}
use mcsema.Cfg.Xrefs.Fit.{AllXrefs, Inside, AllDisjoint}
use mcsema.Cfg.Xrefs.Widths.{HasWidth, fill_xrefs-HasWidth}
use mcsema.Cfg.Entries.{segment_entries}
use mcsema.Cfg.Entries.Total.{segment_entries_total}
use mcsema.Bc.Segments.{EntryType, done, struct_size, get_segment_type}
use mcsema.Bc.Segments.Size.{IsWordWidth, IsDataLayout, Cell, get_segment_type_total}

All-emplace {κ} :
    (P : ℕ × Entry → Type κ) (k : ℕ) (v : Entry) (m : Entries)
    → All P m
    → P (k, v)
    → All P (emplace k v m)
unfolding emplace
All-emplace P k v [] h p = (p, tt)
All-emplace P k v ((j, w) ∷ m) h p = elim (Bool-cases (k == j)) [
  | inl e ↦ rw e h
  | inr ne ↦ elim (Bool-cases (ltb k j)) [
    | inl l ↦ rw (ne, l) (p, h)
    | inr g ↦ rw (ne, g) (h.0, All-emplace P k v m h.1 p)
  ]
]

All-emplace_blobs :
    (range : ByteRange) (blobs : List Entry) (es : Entries)
    → All (IsBlob range) blobs
    → All (Cell range) es
    → All (Cell range) (emplace_blobs blobs es)
unfolding emplace_blobs Cell
All-emplace_blobs range [] es b h = h
All-emplace_blobs range (x ∷ blobs) es b h =
    All-emplace (Cell range) x.ea x (emplace_blobs blobs es)
      (All-emplace_blobs range blobs es b.1 h) (inl b.0)

xref_cells :
    (range : ByteRange) (es : Entries)
    → AllXrefs es
    → All (HasWidth IsWordWidth) es
    → All (Cell range) es
unfolding Cell
xref_cells range [] a w = tt
xref_cells range (x ∷ es) a w = (inr (a.0, w.0), xref_cells range es a.1 w.1)

-- For a segment of less than 4 GB whose range is mapped, which ends more than four bytes below 2^64
-- and with its padding has less than 2^64 bytes: if its references are words no wider than a pointer
-- that lie inside it and apart from one another, then the loader fills the segment, and GetSegmentType
-- makes a type of the size of the segment and its padding, where none of that name exists yet: neither
-- the loader's CHECKs nor the one in GetSegmentType fail.
pub loaded_segment_type :
    (alloc_size : EntryType → ℕ) (address_size ptr : ℕ) (l : Lookups) (seg : NativeSegment)
    (refs : List DataReference) (is_var : ℕ → Bool) (range : ByteRange)
    → IsDataLayout address_size alloc_size
    → seg.ea + seg.size + 4 < 2 ^ 64
    → seg.size < 2 ^ 32
    → seg.size + seg.padding < 2 ^ 64
    → All (λ (r : DataReference). r.width ≤ ptr) refs
    → All (λ (r : DataReference). IsWordWidth r.width) refs
    → All (Inside seg.ea (seg.ea + seg.size)) refs
    → AllDisjoint refs
    → (filled : Entries) × (members : List EntryType) × (segment_entries ptr l seg.id refs true
          is_var range seg.ea seg.size
        ≡ ok filled)
      × (get_segment_type alloc_size none address_size (record seg { entries = filled })
          ≡ done members)
      × (struct_size alloc_size members ≡ seg.size + seg.padding)
loaded_segment_type alloc_size address_size ptr l seg refs is_var range d w z p narrow words inside
      apart =
    let (xrefs, filled, x, e, a, good, entered, unmapped) =
      segment_entries_total ptr l seg.id refs is_var range seg.ea seg.size w z narrow inside
        apart in
    let cells : All (Cell range) filled = subst (All (Cell range)) (sym good.made_of) (
      All-emplace_blobs range good.blobs xrefs good.described (
        xref_cells range xrefs a
          (fill_xrefs-HasWidth IsWordWidth ptr l seg.id refs [] xrefs words tt x))) in
    let (members, h, total) =
      get_segment_type_total alloc_size address_size range (record seg { entries = filled }) d z p
        good.partition cells in
    (filled, members, e, h, total)
