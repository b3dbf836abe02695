-- ===== src/Dyninst/Parser/Offsets.antt =====
-- The words that the search for tables takes for offsets into the code
-- (tools/mcsema_disass/dyninst/SectionParser.cpp, `TryOffsetTable`).
use mcsema.Prelude.{ℕ, ◌^◌, ◌<◌, ◌≤◌, ◌≡◌, add64, sub64, arith, lt→ltb, le→ltb}
use mcsema.Dyninst.OffsetTables.{target_of, sign_extend}
use mcsema.Dyninst.OffsetTables.Parsed.{target_of_lem}
use mcsema.Dyninst.Parser.{scanned_ea}

-- For a word that is a negative offset the search tests the address behind the target that `Parse`
-- computes from the word; for any other word, the address that lies 4 GB below that one.
pub scanned_ea_lem :
    (ea word : ℕ)
    → ea < 2 ^ 64
    → word < 2 ^ 32
    → (2 ^ 31 ≤ word → scanned_ea ea word ≡ add64 (target_of ea word) 1)
      × (word < 2 ^ 31 → scanned_ea ea word ≡ sub64 (add64 (target_of ea word) 1) (2 ^ 32))
unfolding scanned_ea sub64 add64 sign_extend
scanned_ea_lem ea word e w = (
  λ high. rw (target_of_lem ea word e w, le→ltb word (2 ^ 31) high) (omega (arith, e, w, high)),
  λ low. rw (target_of_lem ea word e w, lt→ltb word (2 ^ 31) low) (omega (arith, e, w, low)),
)
