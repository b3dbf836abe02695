-- ===== src/Cfg/Registers.antt =====
-- The sets of preserved and killed registers that `ReadProtoBuf` of mcsema/CFG/CFG.cpp reads, and
-- the `ForEach…Register` visits of mcsema/CFG/CFG.h. A set is named by its place in
-- `preserved_regs`; a visit is the list of what its callback is given.
pub mod Adds
pub mod Visits
mod Tests
use mcsema.Prelude.{
  ℕ, zero, suc, ◌+◌, Bool, true, false, Option, none, some, List, [], ◌∷◌, ◌++◌, ◌==◌,
  if◌then◌else◌, length, get_elem?,
}
use mcsema.Prelude.Maps.{Map, find?, emplace}
use mcsema.Cfg.Names.{Bytes}
use mcsema.Cfg.Types.{Checked, ok, failed, ◌>>=◌, ◌>>◌, check, killed_range}

-- `PreservationRange` and `PreservedRegisters` of mcsema/CFG/CFG.proto.
pub record PreservationRange : Type 0 where
  pub begin_ea : ℕ
  pub end_ea : Option ℕ

pub record PreservedRegisters : Type 0 where
  pub registers : List Bytes
  pub ranges : List PreservationRange

-- The part of the module that is read: an `unordered_multimap` is the list of its entries.
pub record RegisterSets : Type 0 where
  pub preserved_regs : List (List Bytes)
  pub inst_preserved : Map ℕ
  pub inst_killed : Map ℕ
  pub range_preserved : List (ℕ × ℕ × ℕ)

-- One range of a preserved set: with an end it covers addresses, without one a single instruction.
pub add_preserved_range : ℕ → PreservationRange → RegisterSets → RegisterSets
add_preserved_range i range s = elim range.end_ea [
  | some end_ea ↦ record s {
    range_preserved = s.range_preserved ++ (range.begin_ea, end_ea, i) ∷ [];
  }
  | none ↦ record s { inst_preserved = emplace range.begin_ea i s.inst_preserved }
]

pub add_preserved_ranges : ℕ → List PreservationRange → RegisterSets → RegisterSets
unfolding add_preserved_range
add_preserved_ranges i [] s = s
add_preserved_ranges i (range ∷ ranges) s =
    add_preserved_ranges i ranges (add_preserved_range i range s)

pub push_names : List Bytes → RegisterSets → RegisterSets
push_names names s = record s { preserved_regs = s.preserved_regs ++ names ∷ [] }

pub add_preserved : ℕ → List PreservedRegisters → RegisterSets → RegisterSets
unfolding add_preserved_ranges push_names
add_preserved i [] s = s
add_preserved i (set ∷ sets) s =
    add_preserved (suc i) sets (add_preserved_ranges i set.ranges (push_names set.registers s))

pub is_none {ℓ} : {A : Type ℓ} → Option A → Bool
is_none none = true
is_none (some a) = false

-- The ranges of a dead set, each of which must be a single instruction.
pub add_killed_ranges : ℕ → List PreservationRange → RegisterSets → Checked RegisterSets
unfolding is_none
add_killed_ranges i [] s = ok s
add_killed_ranges i (range ∷ ranges) s =
    check (is_none range.end_ea) killed_range
    >> add_killed_ranges i ranges
        (record s { inst_killed = emplace range.begin_ea i s.inst_killed })

pub add_killed : ℕ → List PreservedRegisters → RegisterSets → Checked RegisterSets
unfolding add_killed_ranges push_names
add_killed i [] s = ok s
add_killed i (set ∷ sets) s =
    add_killed_ranges i set.ranges (push_names set.registers s) >>= λ added.
    add_killed (suc i) sets added

pub no_registers : RegisterSets
no_registers = record {
  preserved_regs = [];
  inst_preserved = [];
  inst_killed = [];
  range_preserved = [];
}

-- Both loops: `i` runs on from the first to the second.
pub load_registers : (preserved dead : List PreservedRegisters) → Checked RegisterSets
unfolding no_registers add_preserved add_killed
load_registers preserved dead =
    add_killed (length preserved) dead (add_preserved 0 preserved no_registers)

-- `ForEachInstructionPreservedRegister` and `ForEachInstructionKilledRegister`.
pub names_of : Option ℕ → List (List Bytes) → List Bytes
names_of none sets = []
names_of (some i) sets = elim (get_elem? sets i) [ none ↦ [] | some names ↦ names ]

pub inst_preserved_registers : RegisterSets → ℕ → List Bytes
unfolding names_of
inst_preserved_registers s ea = names_of (find? ea s.inst_preserved) s.preserved_regs

pub inst_killed_registers : RegisterSets → ℕ → List Bytes
unfolding names_of
inst_killed_registers s ea = names_of (find? ea s.inst_killed) s.preserved_regs
