-- ===== src/Cfg/Registers/Tests.antt =====
-- Two saved sets and a dead one (mcsema/CFG/CFG.cpp).
use mcsema.Prelude.{◌≡◌, ◌⊎◌, none, some, List, [], ◌∷◌, All}
use mcsema.Cfg.Types.{ok, failed, killed_range}
use mcsema.Cfg.Registers.{PreservedRegisters, RegisterSets, load_registers}
use mcsema.Cfg.Registers.Visits.{IsSingle, Visited, load_registers_cases}

-- The first set names 0x10 and the second names it again.
abbrev saved_sets : List PreservedRegisters
saved_sets =
    record { registers = (1 ∷ []) ∷ []; ranges = record { begin_ea = 0x10; end_ea = none } ∷ [] }
    ∷ record {
      registers = (2 ∷ []) ∷ [];
      ranges =
          record { begin_ea = 0x10; end_ea = none }
          ∷ record { begin_ea = 0x20; end_ea = some 0x30 }
          ∷ [];
    }
    ∷ []

abbrev dead_sets : List PreservedRegisters
dead_sets =
    record { registers = (3 ∷ []) ∷ []; ranges = record { begin_ea = 0x10; end_ea = none } ∷ [] }
    ∷ []

load_registers_cases_example :
    (All (λ (set : PreservedRegisters). All IsSingle set.ranges) dead_sets
      × ((s : RegisterSets) × (load_registers saved_sets dead_sets ≡ ok s)
          × Visited saved_sets dead_sets s))
    ⊎ (¬ (All (λ (set : PreservedRegisters). All IsSingle set.ranges) dead_sets)
        × (load_registers saved_sets dead_sets ≡ failed killed_range))
load_registers_cases_example = load_registers_cases saved_sets dead_sets
