-- ===== src/Cfg/Entries/Tests.antt =====
-- A data segment of sixteen bytes at 0x1000: four zeros, a pointer at 0x1004, and text behind it
-- (mcsema/CFG/CFG.cpp, `ReadProtoBuf`).
use mcsema.Prelude.{
  ℕ, ◌≡◌, refl, ◌≤◌, ◌⊎◌, Bool, true, false, none, some, [], ◌∷◌, arith, ltb, ◌==◌, if◌then◌else◌,
  All, add64, sub64, to_u32,
}
use mcsema.Prelude.Maps.{find?, assign, emplace, erase}
use mcsema.Cfg.Types.{
  absolute_fixup, NativeXref, Entry, Entries, ok, failed, xref_too_wide, unmapped_segment,
}
use mcsema.Cfg.Partition.{
  ByteRange, find_size, push_blob, make_blob, fill_entries, add_sentinel, emplace_blobs, verify,
  fill_with_sentinel, fill_blobs,
}
use mcsema.Cfg.Partition.Cover.{IsPartition}
use mcsema.Cfg.Partition.Gaps.{FoundSize, find_size-FoundSize}
use mcsema.Cfg.Partition.Total.{Filled, Fits, fill_blobs-Filled, fill_blobs-IsPartition}
use mcsema.Cfg.Xrefs.{DataReference, Lookups, fill_xrefs}
use mcsema.Cfg.Xrefs.Fit.{AllXrefs, fill_xrefs_cases, fill_xrefs-AllXrefs}
use mcsema.Cfg.Xrefs.Entered.{HasEntry}
use mcsema.Cfg.Xrefs.Placement.{fill_xrefs-Fits}
use mcsema.Cfg.Entries.{segment_entries}
use mcsema.Cfg.Entries.Total.{segment_entries_total}

-- A function, number 7, at 0x2000, and a variable, number 9, at 0x100e.
abbrev lookups : Lookups
lookups = record {
  segment_at = λ ea. none;
  variable_at = λ ea. if ea == 0x100e then some 9 else none;
  function_at = λ ea. if ea == 0x2000 then some 7 else none;
}

abbrev is_var : ℕ → Bool
is_var ea = ea == 0x100e

abbrev data_range : ByteRange
data_range = record { address = 0x1000; begin = λ i. if ltb i 12 then 0 else i }

abbrev pointer : DataReference
pointer = record { ea = 0x1004; width = 8; target_ea = 0x2000; target_fixup_kind = absolute_fixup }

abbrev pointer_xref : NativeXref
pointer_xref = record {
  width = 8;
  fixup_kind = absolute_fixup;
  ea = 0x1004;
  target_ea = 0x2000;
  mask = 0;
  segment = 3;
  target_segment = none;
  var = none;
  func = some 7;
}

abbrev pointer_entry : Entry
pointer_entry = record { ea = 0x1004; next_ea = 0x100c; xref = some pointer_xref; blob = none }

abbrev blob_entry : ℕ → ℕ → ℕ → Bool → Entry
blob_entry ea next_ea size is_zero = record {
  ea = ea;
  next_ea = next_ea;
  xref = none;
  blob = some (record { ea = ea; size = size; is_zero = is_zero });
}

abbrev filled_entries : Entries
filled_entries =
    (0x1000, blob_entry 0x1000 0x1004 4 true)
    ∷ (0x1004, pointer_entry)
    ∷ (0x100c, blob_entry 0x100c 0x1010 4 false)
    ∷ []

-- The variable at 0x100e does not divide the last blob.
segment_entries_run :
    segment_entries 8 lookups 3 (pointer ∷ []) true is_var data_range 0x1000 16 ≡ ok filled_entries
unfolding segment_entries fill_xrefs fill_blobs fill_with_sentinel fill_entries push_blob make_blob
    add_sentinel emplace_blobs verify find? assign emplace erase add64 sub64 to_u32
segment_entries_run = refl

segment_entries_total_example :
    (xrefs filled : Entries) × (fill_xrefs 8 lookups 3 (pointer ∷ []) [] ≡ ok xrefs)
    × (segment_entries 8 lookups 3 (pointer ∷ []) true is_var data_range 0x1000 16 ≡ ok filled)
    × AllXrefs xrefs
    × Filled data_range 0x1000 16 xrefs filled
    × All (HasEntry lookups 3 filled) (pointer ∷ [])
    × (segment_entries 8 lookups 3 (pointer ∷ []) false is_var data_range 0x1000 16
        ≡ failed unmapped_segment)
segment_entries_total_example =
    segment_entries_total 8 lookups 3 (pointer ∷ []) is_var data_range 0x1000 16 (omega arith)
      (omega arith) (omega arith, tt) ((omega arith, omega arith, omega arith), tt) (tt, tt)

abbrev xref_entries : Entries
xref_entries = (0x1004, pointer_entry) ∷ []

fill_blobs-Filled_example :
    (filled : Entries) × (fill_blobs true is_var data_range 0x1000 16 xref_entries ≡ ok filled)
    × Filled data_range 0x1000 16 xref_entries filled
fill_blobs-Filled_example =
    fill_blobs-Filled is_var data_range 0x1000 16 xref_entries (omega arith) (omega arith)
      (omega arith, refl, omega arith, omega arith)

fill_blobs-IsPartition_example : (true ≡ true) × IsPartition 0x1000 (add64 0x1000 16) filled_entries
fill_blobs-IsPartition_example =
    fill_blobs-IsPartition true is_var data_range 0x1000 16 xref_entries filled_entries (
      unfold fill_blobs fill_with_sentinel fill_entries push_blob make_blob add_sentinel
        emplace_blobs verify find? assign emplace erase add64 sub64 to_u32 in
      refl)

fill_xrefs_run : fill_xrefs 8 lookups 3 (pointer ∷ []) [] ≡ ok xref_entries
unfolding fill_xrefs find? assign add64
fill_xrefs_run = refl

fill_xrefs-Fits_example : Fits 0x1000 0x1010 xref_entries
fill_xrefs-Fits_example =
    fill_xrefs-Fits 8 lookups 3 0x1000 0x1010 (pointer ∷ []) xref_entries (omega arith)
      (omega arith) ((omega arith, omega arith, omega arith), tt) (tt, tt) fill_xrefs_run

fill_xrefs_cases_example :
    (All (λ (r : DataReference). r.width ≤ 4) (pointer ∷ [])
      × ((out : Entries) × (fill_xrefs 4 lookups 3 (pointer ∷ []) [] ≡ ok out)))
    ⊎ (¬ (All (λ (r : DataReference). r.width ≤ 4) (pointer ∷ []))
        × (fill_xrefs 4 lookups 3 (pointer ∷ []) [] ≡ failed xref_too_wide))
fill_xrefs_cases_example = fill_xrefs_cases 4 lookups 3 (pointer ∷ []) []

fill_xrefs-AllXrefs_example : AllXrefs xref_entries
fill_xrefs-AllXrefs_example =
    fill_xrefs-AllXrefs 8 lookups 3 (pointer ∷ []) [] xref_entries tt fill_xrefs_run

find_size-FoundSize_example : FoundSize is_var 0x100c 0x1010 1 (find_size 4 is_var 0x100c 0x1010 1)
find_size-FoundSize_example =
    find_size-FoundSize 4 is_var 0x100c 0x1010 1 (omega arith) (omega arith) (omega arith)
