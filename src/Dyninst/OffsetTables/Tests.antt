-- ===== src/Dyninst/OffsetTables/Tests.antt =====
-- A table of three offsets at 0x1000 into code at 0x2000
-- (tools/mcsema_disass/dyninst/OffsetTable.cpp).
use mcsema.Prelude.{
  ℕ, ◌≡◌, ◌↔◌, ◌≢◌, refl, true, none, some, List, [], ◌∷◌, arith, add64, sub64, All,
}
use mcsema.Prelude.Maps.{emplace, find?}
use mcsema.Dyninst.Sections.{Region, Section, text_name, is_code}
use mcsema.Dyninst.OffsetTables.{
  OffsetTable, member, moved, match_succs, parse_table, target_of, sign_extend, blind_match,
}
use mcsema.Dyninst.OffsetTables.Agree.{leads_to}
use mcsema.Dyninst.OffsetTables.Parsed.{target_of_lem, IsParsed, parse_table-IsParsed}
use mcsema.Dyninst.OffsetTables.Moved.{shifted, entries_from, moved_lem, match_succs_iff}
use mcsema.Dyninst.OffsetTables.Blind.{FirstMatch, blind_match-FirstMatch}

abbrev text : Region
text = record { id = 0; name = text_name; mem_offset = 0x2000; mem_size = 0x100 }

abbrev sections : List Section
sections = record { region = text; name = text_name; cfg_segment = none } ∷ []

abbrev table : OffsetTable
table = record {
  start_ea = 0x1000;
  size = 12;
  entries = (0x1000, 0x2000) ∷ (0x1004, 0x2010) ∷ (0x1008, 0x2020) ∷ [];
  targets = 0x2020 ∷ 0x2010 ∷ 0x2000 ∷ [];
}

table_run : parse_table sections 0x1000 (0x1000 ∷ 0x1010 ∷ 0x1020 ∷ []) 12 ≡ some table
unfolding parse_table is_code emplace add64 sub64
table_run = refl

parse_table-IsParsed_example : IsParsed (is_code sections) 0x1000 12 table
parse_table-IsParsed_example =
    parse_table-IsParsed sections 0x1000 12 (0x1000 ∷ 0x1010 ∷ 0x1020 ∷ []) table (omega arith)
      table_run

-- An offset of minus one.
target_of_lem_example : target_of 0x1000 0xffffffff ≡ add64 0x1000 (sign_extend 0xffffffff)
target_of_lem_example = target_of_lem 0x1000 0xffffffff (omega arith) (omega arith)

moved_lem_example :
    ((v : ℕ)
      → find? 0x1004 table.entries ≡ some v
      → (moved 0x1004 table).entries
        ≡ shifted (sub64 0x1004 0x1000) (entries_from 0x1004 table.entries))
    × (find? 0x1004 table.entries ≡ none → (moved 0x1004 table).entries ≡ [])
    × ((x : ℕ) → member x (moved 0x1004 table).targets ≡ leads_to x (moved 0x1004 table).entries)
moved_lem_example =
    moved_lem 0x1004 table ((omega arith, (omega arith, tt)), ((omega arith, tt), (tt, tt)))

table_agrees : (x : ℕ) → member x table.targets ≡ leads_to x table.entries
unfolding member
table_agrees x = ground arith

abbrev one_target : List ℕ
one_target = 0x2010 ∷ []

match_succs_iff_example :
    (match_succs table one_target ≡ true)
    ↔ ((one_target ≢ []) × All (λ s. leads_to s table.entries ≡ true) one_target)
match_succs_iff_example = match_succs_iff table one_target table_agrees

blind_match-FirstMatch_example :
    FirstMatch table (0x2014 ∷ []) 0x1000 0x100c (blind_match 4 table (0x2014 ∷ []))
blind_match-FirstMatch_example =
    blind_match-FirstMatch 4 table (0x2014 ∷ []) refl refl (omega arith) (omega arith)
