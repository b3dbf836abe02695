-- ===== src/Dyninst/Parser.antt =====
-- The search of a section for cross-references and tables: `SectionParser` of
-- tools/mcsema_disass/dyninst/SectionParser.cpp. What stands in the memory of a region is given by
-- its words at an offset.
pub mod Rounds
pub mod Ends
pub mod Offsets
pub mod Resolved
mod Tests
use mcsema.Prelude.{
  ℕ, zero, suc, ◌+◌, ◌-◌, ◌^◌, ◌%◌, ◌/◌, Bool, true, false, ◌&&◌, not, Option, none, some, List, [],
  ◌∷◌, ◌++◌, ltb, ◌==◌, if◌then◌else◌, add64, sub64,
}
use mcsema.Prelude.Maps.{Map, find?, emplace}
use mcsema.Dyninst.Sections.{
  Text, Region, Section, is_code, is_in_region, is_in_region_named, is_in_regions, is_in_binary,
  text_name,
}
use mcsema.Dyninst.OffsetTables.{OffsetTable, parse_table}
use mcsema.Dyninst.Externals.Numbers.{decimal}
use mcsema.Dyninst.Context.{CrossXref, DisassContext, write_and_account, handle_data_xref}

-- The memory of a region: `getDiskOffset`, `getDiskSize`, and what `getPtrToRawData` points to.
pub record Memory : Type 0 where
  pub disk_offset : ℕ
  pub disk_size : ℕ
  pub word64 : ℕ → ℕ
  pub word32 : ℕ → ℕ

pub record Parser : Type 0 where
  pub context : DisassContext
  pub unnamed : ℕ
  pub cross_xrefs : List CrossXref
  pub unresolved : Map CrossXref
  pub offset_tables : List OffsetTable

pub cross_xref : (ea target_ea segment : ℕ) → Text → CrossXref
cross_xref ea target_ea segment name = record {
  ea = ea;
  target_ea = target_ea;
  segment = segment;
  target_name = name;
}

-- "_unnamed_"
pub unnamed_name : Text → ℕ → Text
unnamed_name region unnamed =
    region ++ b'_' ∷ b'u' ∷ b'n' ∷ b'n' ∷ b'a' ∷ b'm' ∷ b'e' ∷ b'd' ∷ b'_' ∷ decimal unnamed

-- `TryXref`: the next state, if it returns true.
unfoldable pub write_unnamed : Region → (ea target_ea segment : ℕ) → Parser → Parser
unfolding unnamed_name cross_xref
write_unnamed r ea target_ea segment p = record p {
  unnamed = suc p.unnamed;
  context =
      write_and_account (cross_xref ea target_ea segment (unnamed_name r.name (suc p.unnamed))) 8
        p.context;
}

unfoldable pub other_xref :
    List Section → Region → (ea target_ea segment : ℕ) → Parser → Option Parser
unfolding write_unnamed cross_xref
other_xref sections r ea target_ea segment p =
    if is_in_region (some r) target_ea
    then some (write_unnamed r ea target_ea segment p)
    else (if not (target_ea == 0) && is_in_binary sections target_ea
        then some
            (record p { cross_xrefs = p.cross_xrefs ++ cross_xref ea target_ea segment [] ∷ [] })
        else none)

unfoldable pub handled : Option DisassContext → Parser → Option Parser → Option Parser
handled none p rest = rest
handled (some context) p rest = some (record p { context = context })

unfoldable pub try_xref :
    List Section → Region → Memory → (segment : ℕ) → (offset : ℕ) → Parser → Option Parser
unfolding handled other_xref cross_xref
try_xref sections r memory segment offset p =
    let ea : ℕ = add64 r.mem_offset offset in
    let target_ea : ℕ = memory.word64 offset in
    if offset % 8 == 0
    then handled (handle_data_xref (cross_xref ea target_ea segment []) p.context) p
        (other_xref sections r ea target_ea segment p)
    else none

-- `TryOffsetTable`: how far the words look like offsets into the code. `~` is on a `uint32_t` here.
unfoldable pub scanned_ea : (ea word : ℕ) → ℕ
scanned_ea ea word = sub64 ea (2 ^ 32 - 1 - word)

unfoldable pub scan_table :
    (fuel : ℕ) → List Section → Region → Memory → (ea offset size : ℕ) → Option ℕ
unfolding scanned_ea
scan_table zero sections r memory ea offset size = none
scan_table (suc k) sections r memory ea offset size =
    let rest = scan_table k sections r memory ea offset ((size + 4) % 2 ^ 32) in
    if is_code sections (scanned_ea ea (memory.word32 (offset + size)))
      && ltb (add64 size offset) r.mem_size
    then rest
    else some size

-- The words of a table.
pub words_at : (count : ℕ) → Memory → (offset : ℕ) → List ℕ
words_at zero memory offset = []
words_at (suc count) memory offset = memory.word32 offset ∷ words_at count memory (offset + 4)

pub table_at : List Section → Region → Memory → (offset size : ℕ) → Option OffsetTable
unfolding words_at
table_at sections r memory offset size =
    parse_table sections (add64 r.mem_offset offset) (words_at (size / 4) memory offset) size

-- How the parser goes on: no table, or the state and the offset behind the table.
pub data Scanned : Type 0 where
  no_table out_of_fuel : Scanned
  table : Parser → (offset : ℕ) → Scanned

unfoldable pub push_table : Option OffsetTable → (offset size : ℕ) → Parser → Scanned
push_table none offset size p = no_table
push_table (some t) offset size p =
    table (record p { offset_tables = p.offset_tables ++ t ∷ [] }) (add64 offset size)

unfoldable pub scanned_table :
    List Section → Region → Memory → (offset : ℕ) → Parser → Option ℕ → Scanned
unfolding table_at push_table
scanned_table sections r memory offset p none = out_of_fuel
scanned_table sections r memory offset p (some size) =
    push_table (table_at sections r memory offset size) offset size p

unfoldable pub try_offset_table :
    (fuel : ℕ) → List Section → Region → Memory → (offset : ℕ) → Parser → Scanned
unfolding scan_table scanned_table
try_offset_table k sections r memory offset p =
    if offset % 4 == 0
    then scanned_table sections r memory offset p
        (scan_table k sections r memory (add64 r.mem_offset offset) offset 0)
    else no_table

-- How a loop over a region ends; `stopped` is the CHECK.
pub data Parsed : Type 0 where
  done : Parser → Parsed
  stopped not_enough : Parsed

-- `while (offset % 4) ++offset`, which has at most three rounds.
unfoldable pub next_word : (rounds : ℕ) → ℕ → ℕ
next_word zero offset = offset
next_word (suc rounds) offset =
    let rest = next_word rounds (add64 offset 1) in if offset % 4 == 0 then offset else rest

-- `ParseVariables`; what comes behind a round is bound first.
abbrev pub after_scan : Scanned → (next : Parser → ℕ → Parsed) → Parser → (offset : ℕ) → Parsed
after_scan out_of_fuel next p offset = not_enough
after_scan no_table next p offset = next p (next_word 3 (add64 offset 1))
after_scan (table q behind) next p offset = next q behind

abbrev pub after_xref :
    Option Parser → (next : Parser → ℕ → Parsed) → (offset : ℕ) → (otherwise : Parsed) → Parsed
after_xref (some q) next offset otherwise = next q (add64 offset 8)
after_xref none next offset otherwise = otherwise

unfoldable pub parse_variables :
    (fuel : ℕ) → List Section → Region → Memory → (segment : ℕ) → Parser → (offset : ℕ) → Parsed
unfolding try_xref try_offset_table next_word
parse_variables zero sections r memory segment p offset = not_enough
parse_variables (suc k) sections r memory segment p offset =
    let next : Parser → ℕ → Parsed =
      λ q behind. parse_variables k sections r memory segment q behind in
    let round : Parsed =
      after_xref (try_xref sections r memory segment offset p) next offset
        (after_scan (try_offset_table (suc k) sections r memory offset p) next p offset) in
    if ltb offset r.mem_size
    then (if add64 r.mem_offset offset == add64 memory.disk_offset offset then round else stopped)
    else done p

-- `ResolveCrossXrefs`
abbrev pub data_names : List Text
data_names =
    (b'.' ∷ b'd' ∷ b'a' ∷ b't' ∷ b'a' ∷ [])
    ∷ (b'.' ∷ b'r' ∷ b'o' ∷ b'd' ∷ b'a' ∷ b't' ∷ b'a' ∷ [])
    ∷ (b'.' ∷ b'b' ∷ b's' ∷ b's' ∷ [])
    ∷ []

pub write_known : List Section → CrossXref → Option DisassContext → DisassContext → DisassContext
write_known sections xref (some handled) context = handled
write_known sections xref none context =
    if is_in_regions sections data_names xref.target_ea
    then write_and_account xref 8 context
    else context

pub keep_code : List Section → CrossXref → Map CrossXref → Map CrossXref
keep_code sections xref unresolved =
    if is_in_region_named sections text_name xref.target_ea
    then emplace xref.target_ea xref unresolved
    else unresolved

pub resolve_other : List Section → CrossXref → Option Text → Parser → Parser
unfolding write_known keep_code
resolve_other sections xref (some global) p = p
resolve_other sections xref none p = record p {
  context = write_known sections xref (handle_data_xref xref p.context) p.context;
  unresolved = keep_code sections xref p.unresolved;
}

pub resolve_each : List Section → List CrossXref → Parser → Parser
unfolding resolve_other
resolve_each sections [] p = p
resolve_each sections (xref ∷ xrefs) p =
    resolve_each sections xrefs
      (resolve_other sections xref (find? xref.target_ea p.context.global_vars) p)

pub resolve_cross_xrefs : List Section → Parser → Parser
unfolding resolve_each
resolve_cross_xrefs sections p = resolve_each sections p.cross_xrefs p

-- `XrefsInSegment`, whose index is an `unsigned`.
pub code_or_data : List Section → CrossXref → Option DisassContext → Parser → Parser
unfolding keep_code
code_or_data sections xref (some handled) p = record p { context = handled }
code_or_data sections xref none p = record p { unresolved = keep_code sections xref p.unresolved }

pub xrefs_in_segment :
    (fuel : ℕ) → List Section → Region → Memory → (segment : ℕ) → (offset : ℕ) → Parser → Parsed
unfolding code_or_data cross_xref
xrefs_in_segment zero sections r memory segment offset p = not_enough
xrefs_in_segment (suc k) sections r memory segment offset p =
    let xref : CrossXref =
      cross_xref (add64 r.mem_offset offset) (memory.word64 offset) segment [] in
    let rest : Parsed =
      xrefs_in_segment k sections r memory segment ((offset + 8) % 2 ^ 32)
        (code_or_data sections xref (handle_data_xref xref p.context) p) in
    if ltb offset memory.disk_size then rest else done p
