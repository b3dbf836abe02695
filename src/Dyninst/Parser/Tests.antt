-- ===== src/Dyninst/Parser/Tests.antt =====
-- A region of two words in a binary of two sections
-- (tools/mcsema_disass/dyninst/SectionParser.cpp).
use mcsema.Prelude.{
  ◌+◌, ◌^◌, ◌≤◌, ◌<◌, ◌≡◌, refl, none, List, [], ◌∷◌, ◌==◌, if◌then◌else◌, add64, sub64, arith,
}
use mcsema.Prelude.Maps.{find?, or_else}
use mcsema.Dyninst.Sections.{Region, Section, text_name}
use mcsema.Dyninst.OffsetTables.{target_of}
use mcsema.Dyninst.Context.{CrossXref, DisassContext}
use mcsema.Dyninst.Context.Written.{Wrote}
use mcsema.Dyninst.Parser.{Memory, Parser, scanned_ea, done, parse_variables, resolve_cross_xrefs}
use mcsema.Dyninst.Parser.Ends.{parse_variables_lem}
use mcsema.Dyninst.Parser.Offsets.{scanned_ea_lem}
use mcsema.Dyninst.Parser.Resolved.{first_code, resolve_cross_xrefs_lem}

abbrev data_region : Region
data_region = record {
  id = 0;
  name = b'.' ∷ b'd' ∷ b'a' ∷ b't' ∷ b'a' ∷ [];
  mem_offset = 0x2000;
  mem_size = 16;
}

abbrev text_region : Region
text_region = record { id = 1; name = text_name; mem_offset = 0x1000; mem_size = 0x100 }

abbrev sections : List Section
sections =
    record { region = text_region; name = text_name; cfg_segment = none }
    ∷ record { region = data_region; name = data_region.name; cfg_segment = none }
    ∷ []

-- The first word leads into the region, the second to a function.
abbrev memory : Memory
memory = record {
  disk_offset = 0x2000;
  disk_size = 16;
  word64 = λ offset. if offset == 0 then 0x2008 else 0x1010;
  word32 = λ offset. 0;
}

abbrev context : DisassContext
context = record {
  func_map = (0x1010, b'f' ∷ []) ∷ [];
  global_vars = [];
  external_vars = [];
  segment_vars = [];
  external_funcs = [];
  data_xrefs = [];
  written = [];
}

abbrev crossing : CrossXref
crossing = record { ea = 0x2000; target_ea = 0x1020; segment = 5; target_name = [] }

abbrev parser : Parser
parser = record {
  context = context;
  unnamed = 0;
  cross_xrefs = crossing ∷ [];
  unresolved = [];
  offset_tables = [];
}

parse_variables_lem_example :
    (q : Parser) × (parse_variables 17 sections data_region memory 5 parser 0 ≡ done q)
    × Wrote context q.context 0x2000 (0x2000 + 16)
parse_variables_lem_example =
    parse_variables_lem sections data_region memory 5 parser
      (record { size = omega arith; end = omega arith }) refl

scanned_ea_lem_example :
    (2 ^ 31 ≤ 0xFFFFFF00 → scanned_ea 0x2000 0xFFFFFF00 ≡ add64 (target_of 0x2000 0xFFFFFF00) 1)
    × (0xFFFFFF00 < 2 ^ 31
        → scanned_ea 0x2000 0xFFFFFF00 ≡ sub64 (add64 (target_of 0x2000 0xFFFFFF00) 1) (2 ^ 32))
scanned_ea_lem_example = scanned_ea_lem 0x2000 0xFFFFFF00 (omega arith) (omega arith)

resolve_cross_xrefs_lem_example :
    find? 0x1020 (resolve_cross_xrefs sections parser).unresolved
    ≡ or_else
        (find? 0x1020 (parser.unresolved))
        (first_code sections context.global_vars 0x1020 parser.cross_xrefs)
resolve_cross_xrefs_lem_example = resolve_cross_xrefs_lem sections parser tt 0x1020
