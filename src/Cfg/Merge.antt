-- ===== src/Cfg/Merge.antt =====
-- Merging of adjacent segments, and the order of the segments, at the end of `ReadProtoBuf`
-- (mcsema/CFG/CFG.cpp). `std::sort` is an insertion sort: where its order is free, this is one of
-- the orders that it may leave.
pub mod Whole
mod Tests
use mcsema.Prelude.{
  ℕ, ◌%◌, Bool, true, false, ◌&&◌, not, Option, none, some, List, [], ◌∷◌, ltb, ◌==◌, if◌then◌else◌,
  add64,
}
use mcsema.Prelude.Maps.{emplace}
use mcsema.Cfg.Types.{Entries, NativeSegment}
use mcsema.Cfg.Forward.{Forwards, get, forward_to}

pub insert_by :
    (NativeSegment → NativeSegment → Bool) → NativeSegment → List NativeSegment → List NativeSegment
insert_by less x [] = x ∷ []
insert_by less x (y ∷ ys) =
    let rest : List NativeSegment = insert_by less x ys in if less x y then x ∷ y ∷ ys else y ∷ rest

pub sort_by : (NativeSegment → NativeSegment → Bool) → List NativeSegment → List NativeSegment
unfolding insert_by
sort_by less [] = []
sort_by less (x ∷ xs) = insert_by less x (sort_by less xs)

-- Internal segments first, each kind by its address.
pub external_less : (a_external b_external by_address : Bool) → Bool
external_less true true by_address = by_address
external_less false false by_address = by_address
external_less true false by_address = false
external_less false true by_address = true

pub address_less : NativeSegment → NativeSegment → Bool
unfolding external_less
address_less a b = external_less a.is_external b.is_external (ltb a.ea b.ea)

pub size_less : NativeSegment → NativeSegment → Bool
size_less a b = ltb a.size b.size

-- `prev_seg->entries.insert(begin, end)`
pub insert_entries : Entries → Entries → Entries
insert_entries [] entries = entries
insert_entries ((key, entry) ∷ more) entries = insert_entries more (emplace key entry entries)

pub can_merge : NativeSegment → NativeSegment → Bool
can_merge prev seg =
    (add64 prev.ea prev.size == seg.ea) && (not prev.is_external && not seg.is_external)

-- The segment before takes over the size and the entries.
pub grow_segment : NativeSegment → NativeSegment → NativeSegment
unfolding insert_entries
grow_segment prev seg = record prev {
  size = add64 prev.size seg.size;
  is_read_only = if seg.is_read_only then prev.is_read_only else false;
  entries = insert_entries seg.entries prev.entries;
}

pub empty_segment : NativeSegment → NativeSegment
empty_segment seg = record seg { size = 0; entries = [] }

-- The variables of the loop: the vector from some place on, the forwarding pointers, `merged`.
pub record Merging : Type 0 where
  pub segs : List NativeSegment
  pub forwards : Forwards
  pub merged : Bool

-- One round of the loop, for a segment and those behind it, which the loop has been through.
pub merge_into : ℕ → NativeSegment → List NativeSegment → Forwards → Bool → Option Merging
unfolding grow_segment empty_segment can_merge
merge_into k prev [] f merged = some (record { segs = prev ∷ []; forwards = f; merged = merged })
merge_into k prev (seg ∷ segs) f merged =
    if can_merge prev seg
    then elim (forward_to k f seg.id prev.id) [
      | none ↦ none
      | some g ↦ some (record {
        segs = grow_segment prev seg ∷ empty_segment seg ∷ segs;
        forwards = g;
        merged = true;
      })
    ]
    else some (record { segs = prev ∷ seg ∷ segs; forwards = f; merged = merged })

-- `for (auto i = module->segments.size(); i > 1u; )`: from the back of the vector to its front.
pub merge_segments : ℕ → List NativeSegment → Forwards → Option Merging
merge_segments k [] f = some (record { segs = []; forwards = f; merged = false })
merge_segments k (prev ∷ segs) f = elim (merge_segments k segs f) [
  | none ↦ none
  | some m ↦ merge_into k prev m.segs m.forwards m.merged
]

-- `prune_segments`: what forwards elsewhere goes. (Its sort by pointer only brings the gaps to the
-- back; every use sorts again.)
pub prune_segments : ℕ → List NativeSegment → Forwards → Option (List NativeSegment × Forwards)
prune_segments k [] f = some ([], f)
prune_segments k (seg ∷ segs) f = elim (get k f seg.id) [
  | none ↦ none
  | some (g, r) ↦ elim (prune_segments k segs g) [
    | none ↦ none
    | some (kept, h) ↦ some (if r == seg.id then seg ∷ kept else kept, h)
  ]
]

-- The end of the loop over `module->segments`: page padding of the internal ones.
pub pad_segment : NativeSegment → NativeSegment
pad_segment seg = if seg.is_external then seg else record seg { padding = seg.ea % 4096 }

pub pad_segments : List NativeSegment → List NativeSegment
unfolding pad_segment
pad_segments [] = []
pad_segments (seg ∷ segs) = pad_segment seg ∷ pad_segments segs

-- The branch under the flag `disable_adjacent_segment_merging`.
pub merge_adjacent : ℕ → List NativeSegment → Forwards → Option (List NativeSegment × Forwards)
unfolding sort_by address_less merge_segments
merge_adjacent k segs f = elim (merge_segments k (sort_by address_less segs) f) [
  | none ↦ none
  | some m ↦ if m.merged then prune_segments k m.segs m.forwards else some (m.segs, m.forwards)
]

-- From the first `prune_segments` to the padding.
pub finish_segments :
    (disabled : Bool) → ℕ → List NativeSegment → Forwards → Option (List NativeSegment × Forwards)
unfolding prune_segments merge_adjacent pad_segments sort_by size_less
finish_segments disabled k segs f = elim (prune_segments k segs f) [
  | none ↦ none
  | some (kept, g) ↦ elim (if disabled then some (kept, g) else merge_adjacent k kept g) [
    | none ↦ none
    | some (last, h) ↦ some (pad_segments (sort_by size_less last), h)
  ]
]
