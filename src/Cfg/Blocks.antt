-- ===== src/Cfg/Blocks.antt =====
-- The blocks and instructions of a function, as `ReadProtoBuf` of mcsema/CFG/CFG.cpp adds them
-- ("Add in each of the function's blocks"), with `FillXref` and `NativeModule::TryGetBlock`.
pub mod Successors
pub mod Instructions
pub mod Search
mod Tests
use mcsema.Prelude.{
  ℕ, zero, suc, ◌+◌, ◌-◌, ◌≡◌, Bool, true, false, ◌&&◌, ◌||◌, not, Option, none, some, List, [],
  ◌∷◌, ◌++◌, max, ltb, leb, ◌==◌, if◌then◌else◌, length,
}
use mcsema.Prelude.Maps.{Map, find?, assign}
use mcsema.Cfg.Types.{Checked, ok, failed, ◌>>=◌, unsupported_xref_count}

-- `CodeReference::OperandType`
pub data OperandType : Type 0 where
  immediate_operand memory_operand memory_displacement_operand control_flow_operand offset_table :
      OperandType

-- `CodeReference`, `Instruction` and `Block` of mcsema/CFG/CFG.proto.
pub record CodeReference : Type 0 where
  pub operand_type : OperandType
  pub ea : ℕ
  pub mask : Option ℕ

pub record CfgInstruction : Type 0 where
  pub ea : ℕ
  pub xrefs : List CodeReference
  pub lp_ea : ℕ

pub record CfgBlock : Type 0 where
  pub ea : ℕ
  pub instructions : List CfgInstruction
  pub successor_eas : List ℕ
  pub is_referenced_by_data : Bool

pub record NativeInstructionXref : Type 0 where
  pub target_ea : ℕ
  pub mask : ℕ

pub record NativeInstruction : Type 0 where
  pub ea : ℕ
  pub lp_ea : ℕ
  pub flow : Option NativeInstructionXref
  pub mem : Option NativeInstructionXref
  pub imm : Option NativeInstructionXref
  pub disp : Option NativeInstructionXref
  pub offset_table : Option NativeInstructionXref

pub record NativeBlock : Type 0 where
  pub ea : ℕ
  pub last_inst_ea : ℕ
  pub successor_eas : List ℕ
  pub is_referenced_by_data : Bool

-- `FillXref`: the reference goes into the slot of its operand, whatever the slot held.
pub new_inst_xref : CodeReference → NativeInstructionXref
new_inst_xref ref = record {
  target_ea = ref.ea;
  mask = elim ref.mask [ some mask ↦ mask | none ↦ 0 ];
}

pub set_slot : OperandType → NativeInstructionXref → NativeInstruction → NativeInstruction
set_slot OperandType.immediate_operand xref inst = record inst { imm = some xref }
set_slot OperandType.memory_operand xref inst = record inst { mem = some xref }
set_slot OperandType.memory_displacement_operand xref inst = record inst { disp = some xref }
set_slot OperandType.control_flow_operand xref inst = record inst { flow = some xref }
set_slot OperandType.offset_table xref inst = record inst { offset_table = some xref }

pub fill_xref : CodeReference → NativeInstruction → NativeInstruction
unfolding new_inst_xref set_slot
fill_xref ref inst = set_slot ref.operand_type (new_inst_xref ref) inst

pub fill_all : List CodeReference → NativeInstruction → NativeInstruction
unfolding fill_xref
fill_all [] inst = inst
fill_all (ref ∷ refs) inst = fill_all refs (fill_xref ref inst)

-- `!cfg_inst.lp_ea() && !cfg_inst.xrefs_size()`
pub is_plain : CfgInstruction → Bool
is_plain cfg_inst = cfg_inst.lp_ea == 0 && length cfg_inst.xrefs == 0

pub new_inst : CfgInstruction → NativeInstruction
unfolding fill_all
new_inst cfg_inst = fill_all cfg_inst.xrefs (record {
  ea = cfg_inst.ea;
  lp_ea = cfg_inst.lp_ea;
  flow = none;
  mem = none;
  imm = none;
  disp = none;
  offset_table = none;
})

-- `auto &inst = module->ea_to_inst[inst_ea]; if (!inst) …`: at most five references.
pub add_inst : CfgInstruction → Map NativeInstruction → Checked (Map NativeInstruction)
unfolding new_inst
add_inst cfg_inst ea_to_inst = elim (find? cfg_inst.ea ea_to_inst) [
  | some inst ↦ ok ea_to_inst
  | none ↦
      if leb (length cfg_inst.xrefs) 5
      then ok (assign cfg_inst.ea (new_inst cfg_inst) ea_to_inst)
      else failed unsupported_xref_count
]

-- The loop over the instructions of a block: `last_inst_ea` and the instructions of the module.
pub add_insts :
    List CfgInstruction
    → (last_inst_ea : ℕ) → Map NativeInstruction
    → Checked (ℕ × Map NativeInstruction)
unfolding is_plain add_inst
add_insts [] last_inst_ea ea_to_inst = ok (last_inst_ea, ea_to_inst)
add_insts (cfg_inst ∷ insts) last_inst_ea ea_to_inst =
    let skipped : Checked (ℕ × Map NativeInstruction) = add_insts insts last_inst_ea ea_to_inst in
    let taken : Checked (ℕ × Map NativeInstruction) = add_inst cfg_inst ea_to_inst >>= λ added.
    add_insts insts (max last_inst_ea cfg_inst.ea) added in
    if is_plain cfg_inst then skipped else taken

-- `std::sort` on addresses.
pub insert_sorted : ℕ → List ℕ → List ℕ
insert_sorted x [] = x ∷ []
insert_sorted x (y ∷ ys) = let rest = insert_sorted x ys in if leb x y then x ∷ y ∷ ys else y ∷ rest

pub sort : List ℕ → List ℕ
unfolding insert_sorted
sort [] = []
sort (x ∷ xs) = insert_sorted x (sort xs)

-- `std::unique` and the `erase` behind it: of each run of equal neighbours the first stays.
pub unique_from : ℕ → List ℕ → List ℕ
unique_from x [] = []
unique_from x (y ∷ ys) = if x == y then unique_from x ys else y ∷ unique_from y ys

pub unique : List ℕ → List ℕ
unfolding unique_from
unique [] = []
unique (x ∷ xs) = x ∷ unique_from x xs

-- `auto &block = module->ea_to_block[block_ea]`
pub block_at : ℕ → Map NativeBlock → NativeBlock
block_at block_ea ea_to_block = elim (find? block_ea ea_to_block) [
  | some block ↦ block
  | none ↦ record {
    ea = block_ea;
    last_inst_ea = 0;
    successor_eas = [];
    is_referenced_by_data = false;
  }
]

-- The flag and the successors of a declaration go into the block.
pub merge_block : CfgBlock → NativeBlock → NativeBlock
unfolding sort unique
merge_block cfg_block block = record block {
  successor_eas = unique (sort (block.successor_eas ++ cfg_block.successor_eas));
  is_referenced_by_data = cfg_block.is_referenced_by_data || block.is_referenced_by_data;
}

-- One round of the loop over `cfg_func.blocks()`: both maps of the module.
unfoldable pub add_block :
    CfgBlock
    → Map NativeBlock
    → Map NativeInstruction
    → Checked (Map NativeBlock × Map NativeInstruction)
unfolding block_at merge_block add_insts
add_block cfg_block ea_to_block ea_to_inst =
    let block : NativeBlock = merge_block cfg_block (block_at cfg_block.ea ea_to_block) in
    add_insts cfg_block.instructions block.last_inst_ea ea_to_inst >>= λ added.
    ok (assign cfg_block.ea (record block { last_inst_ea = added.0 }) ea_to_block, added.1)

-- The loop of `TryGetBlock`, with the rounds left in place of `i`; `holds` is its test of `curr`.
pub holds : ℕ → Option NativeBlock → Bool
holds inst_ea none = false
holds inst_ea (some block) = leb block.ea inst_ea && leb inst_ea block.last_inst_ea

pub try_get_block_loop :
    (rounds : ℕ)
    → Map NativeBlock
    → (inst_ea block_ea : ℕ) → Option NativeBlock
    → Option NativeBlock
unfolding holds
try_get_block_loop zero ea_to_block inst_ea block_ea curr = none
try_get_block_loop (suc rounds) ea_to_block inst_ea block_ea curr =
    let rest : Option NativeBlock =
      try_get_block_loop rounds ea_to_block inst_ea (block_ea - 1) (find? block_ea ea_to_block) in
    if block_ea == 0 then none else (if holds inst_ea curr then curr else rest)

pub try_get_block : Map NativeBlock → (inst_ea : ℕ) → Option NativeBlock → Option NativeBlock
unfolding try_get_block_loop
try_get_block ea_to_block inst_ea curr = try_get_block_loop 256 ea_to_block inst_ea inst_ea curr
