-- ===== src/Dyninst/OffsetTables.antt =====
-- Tables of 32-bit offsets that may be jump tables: `OffsetTable` of
-- tools/mcsema_disass/dyninst/OffsetTable.cpp and OffsetTable.h. The region, which is only passed
-- on, is left out; a `std::set` that is only asked for members is the list of them.
pub mod Agree
pub mod Parsed
pub mod Moved
pub mod Blind
mod Tests
use mcsema.Prelude.{
  ℕ, zero, suc, ◌+◌, ◌-◌, ◌^◌, ◌%◌, Bool, true, false, ◌&&◌, not, Option, none, some, List, [], ◌∷◌,
  ltb, ◌==◌, if◌then◌else◌, length, add64, sub64,
}
use mcsema.Dyninst.Sections.{Section, is_code}
use mcsema.Prelude.Maps.{Map, find?, emplace}

pub record OffsetTable : Type 0 where
  pub start_ea : ℕ
  pub size : ℕ
  pub entries : Map ℕ
  pub targets : List ℕ

-- `set.count`, `set.insert`
pub member : ℕ → List ℕ → Bool
member x [] = false
member x (y ∷ ys) = if y == x then true else member x ys

pub insert_target : ℕ → List ℕ → List ℕ
unfolding member
insert_target x xs = if member x xs then xs else x ∷ xs

-- `contains`, the end included.
pub contains : OffsetTable → ℕ → Bool
contains t addr = if ltb addr t.start_ea then false else not (ltb (add64 t.start_ea t.size) addr)

-- One entry put into both containers.
pub insert_entry : (ea target : ℕ) → OffsetTable → OffsetTable
unfolding insert_target
insert_entry ea target t = record t {
  entries = emplace ea target t.entries;
  targets = insert_target target t.targets;
}

-- `entries.find(ea)` as an iterator: what stands from there to the end.
pub from_key : ℕ → Map ℕ → Map ℕ
from_key ea [] = []
from_key ea ((key, target) ∷ entries) =
    if key == ea then (key, target) ∷ entries else from_key ea entries

pub move_entries : (diff : ℕ) → Map ℕ → OffsetTable → OffsetTable
unfolding insert_entry
move_entries diff [] t = t
move_entries diff ((key, target) ∷ entries) t =
    move_entries diff entries (insert_entry key (add64 target diff) t)

pub empty_table : (start_ea size : ℕ) → OffsetTable
empty_table start_ea size = record { start_ea = start_ea; size = size; entries = []; targets = [] }

-- `Recompute`, for a start that passes the CHECK.
pub moved : ℕ → OffsetTable → OffsetTable
unfolding move_entries from_key empty_table
moved new_start_ea t =
    let diff : ℕ = sub64 new_start_ea t.start_ea in
    move_entries diff (from_key new_start_ea t.entries)
      (empty_table new_start_ea (sub64 t.size diff))

pub recompute : ℕ → OffsetTable → Option OffsetTable
unfolding moved
recompute new_start_ea t = if new_start_ea % 4 == 0 then some (moved new_start_ea t) else none

-- `Match` with the successors only: each of them is a target, and some entry leads to one.
pub all_in : List ℕ → List ℕ → Bool
unfolding member
all_in [] targets = true
all_in (s ∷ succs) targets = member s targets && all_in succs targets

pub any_entry : List ℕ → Map ℕ → Bool
unfolding member
any_entry succs [] = false
any_entry succs ((key, target) ∷ entries) =
    if member target succs then true else any_entry succs entries

pub is_empty : List ℕ → Bool
is_empty [] = true
is_empty (x ∷ xs) = false

pub match_succs : OffsetTable → List ℕ → Bool
unfolding all_in any_entry is_empty
match_succs t succs =
    if is_empty t.targets
    then false
    else (if all_in succs t.targets then any_entry succs t.entries else false)

-- How a search ends: `aborted` is the CHECK of `Recompute`, `out_of_fuel` the model's own.
pub data Search : Type 0 where
  found : ℕ → Search
  not_found aborted out_of_fuel : Search

-- One round of a search: the table from `ea` on, and what comes behind if it does not match.
pub try_table : Option OffsetTable → List ℕ → (ea : ℕ) → (rest : Search) → Search
unfolding match_succs
try_table none succs ea rest = aborted
try_table (some t) succs ea rest = if match_succs t succs then found ea else rest

pub try_start : OffsetTable → List ℕ → (ea : ℕ) → (rest : Search) → Search
unfolding recompute try_table
try_start t succs ea rest = try_table (recompute ea t) succs ea rest

-- `BlindMatch`: every start until the one behind the table, and that one by equality.
pub blind_loop : ℕ → OffsetTable → List ℕ → (it : ℕ) → Search
unfolding try_start
blind_loop zero t succs it = out_of_fuel
blind_loop (suc k) t succs it =
    let rest : Search = blind_loop k t succs (add64 it 4) in
    if it == add64 t.start_ea t.size then not_found else try_start t succs it rest

pub blind_match : ℕ → OffsetTable → List ℕ → Search
unfolding blind_loop
blind_match k t succs = blind_loop k t succs t.start_ea

-- The loop over the targets of cross-references, in their order.
pub try_xrefs : OffsetTable → (succs xrefs : List ℕ) → Search
unfolding contains try_start
try_xrefs t succs [] = not_found
try_xrefs t succs (xref ∷ xrefs) =
    let rest : Search = try_xrefs t succs xrefs in
    if contains t xref then try_start t succs xref rest else rest

-- `Match` with the successors and the cross-references.
pub match_table : ℕ → OffsetTable → (succs xrefs : List ℕ) → Search
unfolding blind_match match_succs try_xrefs is_empty
match_table k t succs xrefs =
    if is_empty xrefs
    then blind_match k t succs
    else (if match_succs t succs then found t.start_ea else try_xrefs t succs xrefs)

-- `~` on an `int32_t`, and its value in 64 bits.
pub not32 : ℕ → ℕ
not32 w = 2 ^ 32 - 1 - w

unfoldable pub sign_extend : ℕ → ℕ
sign_extend w = if ltb w (2 ^ 31) then w else w + (2 ^ 64 - 2 ^ 32)

-- `table.start_ea - ~(*reader) - 1`
pub target_of : (start_ea word : ℕ) → ℕ
unfolding not32 sign_extend
target_of start_ea word = sub64 (sub64 start_ea (sign_extend (not32 word))) 1

-- The loop of `Parse`, up to `end_ea`, over the words at `reader`. Where it would read beyond the
-- words that there are, it has no result.
pub parse_words :
    (in_code : ℕ → Bool)
    → (start_ea end_ea it_ea : ℕ) → (words : List ℕ) → OffsetTable
    → Option OffsetTable
unfolding target_of insert_entry
parse_words in_code start_ea end_ea it_ea [] t = if ltb it_ea end_ea then none else some t
parse_words in_code start_ea end_ea it_ea (word ∷ words) t =
    let target : ℕ = target_of t.start_ea word in
    let kept : Option OffsetTable =
      parse_words in_code start_ea end_ea (add64 it_ea 4) words (insert_entry it_ea target t) in
    let skipped : Option OffsetTable =
      parse_words in_code start_ea end_ea (add64 it_ea 4) words
        (record t { start_ea = add64 t.start_ea 4 }) in
    if ltb it_ea end_ea
    then (if in_code target then kept else (if target == start_ea then skipped else none))
    else some t

pub keep_large : OffsetTable → Option OffsetTable
keep_large t = if ltb (length t.entries) 3 then none else some t

-- `Parse`
pub parse :
    (in_code : ℕ → Bool) → (start_ea : ℕ) → (words : List ℕ) → (size : ℕ) → Option OffsetTable
unfolding parse_words empty_table keep_large
parse in_code start_ea words size =
    if start_ea % 4 == 0
    then elim (parse_words in_code start_ea (add64 start_ea size) start_ea words
        (empty_table start_ea size)) [ none ↦ none | some t ↦ keep_large t ]
    else none

-- `Parse` with the sections of the binary.
pub parse_table : List Section → (start_ea : ℕ) → (words : List ℕ) → (size : ℕ) → Option OffsetTable
unfolding parse
parse_table sections start_ea words size = parse (is_code sections) start_ea words size
