-- ===== src/Cfg/Blocks/Tests.antt =====
-- A block of two instructions, declared twice (mcsema/CFG/CFG.cpp).
use mcsema.Prelude.{ℕ, ◌+◌, ◌≡◌, refl, ◌≤◌, ◌⊎◌, ◌↔◌, true, false, none, some, [], ◌∷◌, arith}
use mcsema.Prelude.Maps.{Map, find?}
use mcsema.Cfg.Types.{ok}
use mcsema.Cfg.Blocks.{
  OperandType, CodeReference, CfgInstruction, CfgBlock, NativeInstruction, NativeBlock, new_inst,
  is_plain, add_insts, merge_block, holds, try_get_block,
}
use mcsema.Cfg.Blocks.Successors.{Has, IsIncreasing, merge_block_successors}
use mcsema.Cfg.Blocks.Instructions.{last_of, slot-new_inst, AllAdded, add_insts-AllAdded}
use mcsema.Cfg.Blocks.Search.{try_get_block_sound, try_get_block_complete, plain_block_unfound}

abbrev call_ref : ℕ → CodeReference
call_ref ea = record { operand_type = OperandType.control_flow_operand; ea = ea; mask = none }

abbrev call_inst : CfgInstruction
call_inst = record { ea = 0x104; xrefs = call_ref 0x200 ∷ call_ref 0x300 ∷ []; lp_ea = 0 }

abbrev plain_inst : CfgInstruction
plain_inst = record { ea = 0x100; xrefs = []; lp_ea = 0 }

abbrev declared : CfgBlock
declared = record {
  ea = 0x100;
  instructions = plain_inst ∷ call_inst ∷ [];
  successor_eas = 0x300 ∷ 0x180 ∷ 0x300 ∷ [];
  is_referenced_by_data = true;
}

abbrev known_block : NativeBlock
known_block = record {
  ea = 0x100;
  last_inst_ea = 0x104;
  successor_eas = 0x180 ∷ [];
  is_referenced_by_data = false;
}

abbrev blocks : Map NativeBlock
blocks = (0x100, known_block) ∷ []

merge_run : (merge_block declared known_block).successor_eas ≡ 0x180 ∷ 0x300 ∷ []
unfolding merge_block
merge_run = refl

merge_block_successors_example :
    IsIncreasing (merge_block declared known_block).successor_eas
    × ((x : ℕ)
        → Has x (merge_block declared known_block).successor_eas
          ↔ (Has x known_block.successor_eas ⊎ Has x declared.successor_eas))
    × (((merge_block declared known_block).is_referenced_by_data ≡ true)
        ↔ ((known_block.is_referenced_by_data ≡ true) ⊎ (declared.is_referenced_by_data ≡ true)))
merge_block_successors_example = merge_block_successors declared known_block

slot-new_inst_example :
    (new_inst call_inst).flow ≡ last_of OperandType.control_flow_operand call_inst.xrefs none
slot-new_inst_example = slot-new_inst OperandType.control_flow_operand call_inst

add_insts-AllAdded_example :
    (last' : ℕ) × (m' : Map NativeInstruction) × (add_insts declared.instructions 0 []
      ≡ ok (last', m'))
    × AllAdded declared.instructions 0 last' [] m'
add_insts-AllAdded_example =
    add_insts-AllAdded declared.instructions 0 [] (omega arith, (omega arith, tt))

try_get_block_run : try_get_block blocks 0x102 none ≡ some known_block
unfolding try_get_block find?
try_get_block_run = refl

try_get_block_sound_example : (known_block.ea ≤ 0x102) × (0x102 ≤ known_block.last_inst_ea)
try_get_block_sound_example = try_get_block_sound blocks 0x102 none known_block try_get_block_run

try_get_block_complete_example : try_get_block blocks (0x100 + 2) none ≡ some known_block
unfolding find? holds
try_get_block_complete_example =
    try_get_block_complete blocks 0x100 2 none known_block (omega arith) (omega arith) refl
      (omega arith) (omega arith) (refl, (refl, tt)) refl

plain_block_unfound_example :
    (last' : ℕ) × (m' : Map NativeInstruction) × (add_insts (plain_inst ∷ []) 0 [] ≡ ok (last', m'))
    × (holds 0x100 (some (record known_block { last_inst_ea = last' })) ≡ false)
unfolding is_plain
plain_block_unfound_example =
    plain_block_unfound (plain_inst ∷ []) [] known_block 0x100 (refl, tt) (omega arith)
