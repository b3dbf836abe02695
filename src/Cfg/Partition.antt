-- ===== src/Cfg/Partition.antt =====
-- `ReadProtoBuf` of mcsema/CFG/CFG.cpp, "Fill in the blob data entries for each segment": the bytes
-- between the cross-references of a segment become blobs, and the result is checked to be a
-- partition of the segment. A vector is a list whose head is its back.
pub mod Cover
pub mod Bytes
pub mod Gaps
pub mod Order
pub mod Total
use mcsema.Prelude.{
  sub64, ℕ, zero, suc, ◌+◌, ◌-◌, ◌≡◌, Bool, true, false, ◌&&◌, not, Option, none, some, List, [],
  ◌∷◌, min, max, ltb, leb, ◌==◌, if◌then◌else◌, add64, sub64, to_u32,
}
use mcsema.Prelude.Maps.{Map, find?, assign, emplace, erase}
use mcsema.Cfg.Types.{
  NativeXref, NativeBlob, Entry, Entries, Failure, Checked, ok, failed, ◌>>=◌, ◌>>◌, check,
  partition_before_entry, partition_of_segment, unmapped_segment, out_of_fuel,
}

-- `anvill::ByteRange`, as far as the loader reads it: `begin i` is the byte `range.begin[i]`.
pub record ByteRange : Type 0 where
  pub address : ℕ
  pub begin : ℕ → ℕ

-- `kMaxBlobSize`
abbrev pub max_blob_size : ℕ
max_blob_size = 4

-- The search for the next variable or entry: `is_var` is `module->ea_to_var.count`.
pub find_size : ℕ → (ℕ → Bool) → ℕ → ℕ → ℕ → ℕ
find_size zero is_var ea entry_ea size = size
find_size (suc k) is_var ea entry_ea size =
    let rest = find_size k is_var ea entry_ea (add64 size 1) in
    if ltb (add64 ea size) entry_ea then (if is_var (add64 ea size) then size else rest) else size

-- The inner loop from `i` to `blob_end_ea` that clears `is_zero` at a byte that is set.
pub is_zero_range : ℕ → ByteRange → ℕ → ℕ → Bool
is_zero_range zero range i blob_end_ea = true
is_zero_range (suc k) range i blob_end_ea =
    let rest = is_zero_range k range (add64 i 1) blob_end_ea in
    if ltb i blob_end_ea
    then (if range.begin (sub64 i range.address) == 0 then rest else false)
    else true

pub new_entry : NativeBlob → ℕ → ℕ → Entry
new_entry blob ea next_ea = record { ea = ea; next_ea = next_ea; xref = none; blob = some blob }

-- `blobs.back().blob->size += blob->size; blobs.back().next_ea = blob_end_ea`
pub grow : Entry → NativeBlob → NativeBlob → ℕ → Entry
grow back old blob blob_end_ea = record back {
  next_ea = blob_end_ea;
  blob = some (record old { size = to_u32 (old.size + blob.size) });
}

pub same_zero : Bool → Bool → Bool
same_zero true b = b
same_zero false b = not b

-- Merge a chunk into the last blob, or append it: `last` is `blobs.back().blob`.
pub merge_blob : Option NativeBlob → NativeBlob → ℕ → ℕ → Entry → List Entry → List Entry
unfolding new_entry grow same_zero
merge_blob none blob blob_ea blob_end_ea back blobs =
    new_entry blob blob_ea blob_end_ea ∷ back ∷ blobs
merge_blob (some last) blob blob_ea blob_end_ea back blobs =
    if back.next_ea == blob_ea && same_zero blob.is_zero last.is_zero
    then grow back last blob blob_end_ea ∷ blobs
    else new_entry blob blob_ea blob_end_ea ∷ back ∷ blobs

unfoldable pub push_blob : NativeBlob → ℕ → ℕ → List Entry → List Entry
unfolding merge_blob
push_blob blob blob_ea blob_end_ea [] = new_entry blob blob_ea blob_end_ea ∷ []
push_blob blob blob_ea blob_end_ea (back ∷ blobs) =
    merge_blob back.blob blob blob_ea blob_end_ea back blobs

unfoldable pub make_blob : ByteRange → ℕ → ℕ → NativeBlob
unfolding is_zero_range
make_blob range blob_ea blob_end_ea = record {
  ea = blob_ea;
  size = to_u32 (sub64 blob_end_ea blob_ea);
  is_zero = is_zero_range (blob_end_ea - blob_ea) range blob_ea blob_end_ea;
}

-- The loop that cuts [blob_ea, end_ea) into chunks of at most `max_blob_size` bytes.
pub cut_blobs : ℕ → ByteRange → ℕ → ℕ → List Entry → Checked (List Entry)
cut_blobs zero range blob_ea end_ea blobs = failed out_of_fuel
cut_blobs (suc k) range blob_ea end_ea blobs =
    let blob_end_ea : ℕ = min (add64 blob_ea max_blob_size) end_ea in
    let rest : Checked (List Entry) =
      cut_blobs k range (add64 blob_ea max_blob_size) end_ea
        (push_blob (make_blob range blob_ea blob_end_ea) blob_ea blob_end_ea blobs) in
    if ltb blob_ea end_ea then rest else ok blobs

-- `while (ea < entry.ea)`: the address reached, and the blobs.
pub fill_gap :
    ℕ
    → (ℕ → Bool)
    → ByteRange
    → (seg_end_ea entry_ea ea : ℕ) → List Entry
    → Checked (ℕ × List Entry)
unfolding find_size cut_blobs
fill_gap zero is_var range seg_end_ea entry_ea ea blobs = failed out_of_fuel
fill_gap (suc k) is_var range seg_end_ea entry_ea ea blobs =
    let size : ℕ = find_size (entry_ea - ea) is_var ea entry_ea 1 in
    let rest : Checked (ℕ × List Entry) =
      cut_blobs (suc size) range ea (add64 ea (to_u32 size)) blobs >>= λ blobs'.
      fill_gap k is_var range seg_end_ea entry_ea (add64 ea size) blobs' in
    if ltb ea entry_ea then (if ea == seg_end_ea then ok (ea, blobs) else rest) else ok (ea, blobs)

-- `for (const auto &xref_entry : segment->entries)`. The loop over the bytes of a cross-reference
-- only reports, and leaves `ea` at the larger of `ea + 1` and `entry.next_ea`.
unfoldable pub fill_entries :
    (ℕ → Bool) → ByteRange → (seg_end_ea ea : ℕ) → List Entry → Entries → Checked (List Entry)
unfolding fill_gap
fill_entries is_var range seg_end_ea ea blobs [] = ok blobs
fill_entries is_var range seg_end_ea ea blobs ((key, entry) ∷ entries) =
    fill_gap (suc (entry.ea - ea)) is_var range seg_end_ea entry.ea ea blobs >>= λ filled.
    check (filled.0 == entry.ea) partition_before_entry
    >> (let rest : Checked (List Entry) =
          fill_entries is_var range seg_end_ea (max (add64 filled.0 1) entry.next_ea) filled.1
            entries in
        if filled.0 == seg_end_ea then ok filled.1 else rest)

-- `entries[seg_end_ea]` with its `ea` and `next_ea` set.
unfoldable pub add_sentinel : ℕ → Entries → Entries
add_sentinel seg_end_ea entries =
    assign seg_end_ea
      (elim (find? seg_end_ea entries) [
        | none ↦ record { ea = seg_end_ea; next_ea = seg_end_ea; xref = none; blob = none }
        | some entry ↦ record entry { ea = seg_end_ea; next_ea = seg_end_ea }
      ])
      entries

-- `for (auto &entry : blobs) segment->entries.emplace(entry.ea, std::move(entry))`
unfoldable pub emplace_blobs : List Entry → Entries → Entries
emplace_blobs [] entries = entries
emplace_blobs (blob ∷ blobs) entries = emplace blob.ea blob (emplace_blobs blobs entries)

-- "Verify the partitioning of this segment's data."
unfoldable pub verify : (ea end_ea : ℕ) → Entries → Checked (Unit {0})
verify ea end_ea [] = check (ea == end_ea) partition_of_segment
verify ea end_ea ((key, entry) ∷ entries) =
    check (key == ea) partition_of_segment
    >> check (entry.ea == ea) partition_of_segment
    >> check (ltb entry.ea entry.next_ea) partition_of_segment
    >> verify entry.next_ea end_ea entries

-- The stage on `entries`, which hold the sentinel.
unfoldable pub fill_with_sentinel :
    (ℕ → Bool) → ByteRange → (segment_ea size seg_end_ea : ℕ) → Entries → Checked Entries
fill_with_sentinel is_var range segment_ea size seg_end_ea entries = do
  blobs ← fill_entries is_var range seg_end_ea segment_ea [] entries
  let filled = emplace_blobs blobs (erase seg_end_ea entries)
  verify segment_ea (add64 segment_ea size) filled
  ok filled

-- The body of the loop over the segments, for a segment of `size` bytes at `segment_ea`.
-- `mapped` is the answer of `module->MapRange`.
unfoldable pub fill_blobs :
    (mapped : Bool) → (ℕ → Bool) → ByteRange → (segment_ea size : ℕ) → Entries → Checked Entries
fill_blobs mapped is_var range segment_ea size entries = do
  let seg_end_ea = add64 segment_ea size
  let with_end = add_sentinel seg_end_ea entries
  check mapped unmapped_segment
  fill_with_sentinel is_var range segment_ea size seg_end_ea with_end
