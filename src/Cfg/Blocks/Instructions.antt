-- ===== src/Cfg/Blocks/Instructions.antt =====
-- The instructions of a block and their references (mcsema/CFG/CFG.cpp, "Add in the block's
-- instructions" and `FillXref`).
use mcsema.Prelude.{
  ℕ, ◌≤◌, ◌≡◌, refl, sym, subst, ◌∙◌, ◌⊎◌, inl, inr, lt_cases, Bool, true, false, Option, none,
  some, List, [], ◌∷◌, max, arith, leb, if◌then◌else◌, Bool-cases, Option-cases, length, All,
  eq_cases, none_not_some, true_not_false,
}
use mcsema.Prelude.Maps.{Map, find?, assign, find?-assign_self, find?-assign_ne}
use mcsema.Cfg.Types.{ok}
use mcsema.Cfg.Blocks.{
  OperandType, CodeReference, CfgInstruction, NativeInstructionXref, NativeInstruction,
  new_inst_xref, set_slot, fill_xref, fill_all, is_plain, new_inst, add_inst, add_insts,
}

-- The slot of an operand type.
abbrev pub slot : OperandType → NativeInstruction → Option NativeInstructionXref
slot OperandType.immediate_operand inst = inst.imm
slot OperandType.memory_operand inst = inst.mem
slot OperandType.memory_displacement_operand inst = inst.disp
slot OperandType.control_flow_operand inst = inst.flow
slot OperandType.offset_table inst = inst.offset_table

abbrev pub same_type : OperandType → OperandType → Bool
same_type OperandType.immediate_operand OperandType.immediate_operand = true
same_type OperandType.memory_operand OperandType.memory_operand = true
same_type OperandType.memory_displacement_operand OperandType.memory_displacement_operand = true
same_type OperandType.control_flow_operand OperandType.control_flow_operand = true
same_type OperandType.offset_table OperandType.offset_table = true
same_type _ _ = false

-- The last reference of a type, and `old` if there is none.
abbrev pub last_of :
    OperandType → List CodeReference → Option NativeInstructionXref → Option NativeInstructionXref
last_of t [] old = old
last_of t (ref ∷ refs) old =
    last_of t refs (if same_type ref.operand_type t then some (new_inst_xref ref) else old)

slot-set_slot :
    (s t : OperandType) (x : NativeInstructionXref) (inst : NativeInstruction)
    → slot t (set_slot s x inst) ≡ (if same_type s t then some x else slot t inst)
unfolding set_slot
slot-set_slot s t x inst = ground arith

slot-fill_xref :
    (t : OperandType) (ref : CodeReference) (inst : NativeInstruction)
    → slot t (fill_xref ref inst)
      ≡ (if same_type ref.operand_type t then some (new_inst_xref ref) else slot t inst)
unfolding fill_xref
slot-fill_xref t ref inst = slot-set_slot ref.operand_type t (new_inst_xref ref) inst

slot-fill_all :
    (t : OperandType) (refs : List CodeReference) (inst : NativeInstruction)
    → slot t (fill_all refs inst) ≡ last_of t refs (slot t inst)
unfolding fill_all
slot-fill_all t [] inst = refl
slot-fill_all t (ref ∷ refs) inst =
    slot-fill_all t refs (fill_xref ref inst) ∙ λ i. last_of t refs (slot-fill_xref t ref inst i)

-- Each slot of a new instruction holds the last of its references of that operand type.
pub slot-new_inst :
    (t : OperandType) (c : CfgInstruction) → slot t (new_inst c) ≡ last_of t c.xrefs none
unfolding new_inst
slot-new_inst OperandType.immediate_operand c =
    slot-fill_all OperandType.immediate_operand c.xrefs _
slot-new_inst OperandType.memory_operand c = slot-fill_all OperandType.memory_operand c.xrefs _
slot-new_inst OperandType.memory_displacement_operand c =
    slot-fill_all OperandType.memory_displacement_operand c.xrefs _
slot-new_inst OperandType.control_flow_operand c =
    slot-fill_all OperandType.control_flow_operand c.xrefs _
slot-new_inst OperandType.offset_table c = slot-fill_all OperandType.offset_table c.xrefs _

-- Instructions with no reference and no landing pad leave no trace, not even in `last_inst_ea`.
pub add_insts-plain :
    (insts : List CfgInstruction) (last : ℕ) (m : Map NativeInstruction)
    → All (λ (c : CfgInstruction). is_plain c ≡ true) insts
    → add_insts insts last m ≡ ok (last, m)
unfolding add_insts
add_insts-plain [] last m h = refl
add_insts-plain (c ∷ insts) last m h = rw h.0 (add_insts-plain insts last m h.1)

-- What one instruction does to the map.
pub record Added (c : CfgInstruction) (m m' : Map NativeInstruction) : Type 0 where
  pub present : (inst : NativeInstruction) × (find? c.ea m' ≡ some inst)
  pub fresh : find? c.ea m ≡ none → find? c.ea m' ≡ some (new_inst c)
  pub kept : (k : ℕ) (inst : NativeInstruction) → find? k m ≡ some inst → find? k m' ≡ some inst

add_inst-Added :
    (c : CfgInstruction) (m : Map NativeInstruction)
    → length c.xrefs ≤ 5
    → (m' : Map NativeInstruction) × (add_inst c m ≡ ok m') × Added c m m'
unfolding add_inst
add_inst-Added c m h = elim (Option-cases (find? c.ea m)) [
  | inr (inst, e) ↦ (
    m,
    rw (e, add_inst),
    record {
      present = (inst, e);
      fresh = λ n. absurd (none_not_some (sym n ∙ e));
      kept = λ k i f. f;
    },
  )
  | inl e ↦
      let few : leb (length c.xrefs) 5 ≡ true = ground arith in
      (
        assign c.ea (new_inst c) m,
        rw (e, add_inst, few),
        record {
          present = (new_inst c, find?-assign_self c.ea (new_inst c) m);
          fresh = λ n. find?-assign_self c.ea (new_inst c) m;
          kept = λ k i f. elim (eq_cases c.ea k) [
            | inl q ↦ absurd (none_not_some (sym e ∙ subst (λ z. find? z m ≡ some i) (sym q) f))
            | inr ne ↦ find?-assign_ne c.ea k (new_inst c) m ne ∙ f
          ];
        },
      )
]

-- An instruction with metadata stands at an address.
abbrev pub HasMetadataAt : ℕ → List CfgInstruction → Type 0
HasMetadataAt a [] = ⊥
HasMetadataAt a (c ∷ insts) = ((is_plain c ≡ false) × (c.ea ≡ a)) ⊎ HasMetadataAt a insts

-- What the loop over a block's instructions does: those with metadata are known afterwards, those
-- known before are as they were, and `last_inst_ea` is the greatest among its old value and the
-- addresses of the former: none of these is above it, and it is one of them.
pub record AllAdded (insts : List CfgInstruction) (last last' : ℕ) (m m' : Map NativeInstruction)
    : Type 0 where
  pub known :
      All
        (λ (c : CfgInstruction).
          is_plain c ≡ false
          → (c.ea ≤ last') × ((inst : NativeInstruction) × (find? c.ea m' ≡ some inst)))
        insts
  pub kept : (k : ℕ) (inst : NativeInstruction) → find? k m ≡ some inst → find? k m' ≡ some inst
  pub grows : last ≤ last'
  pub attained : (last' ≡ last) ⊎ HasMetadataAt last' insts

add_insts_skip :
    (c : CfgInstruction) (insts : List CfgInstruction) (last : ℕ) (m : Map NativeInstruction)
    → is_plain c ≡ true
    → add_insts (c ∷ insts) last m ≡ add_insts insts last m
unfolding add_insts
add_insts_skip c insts last m p = rw p

add_insts_next :
    (c : CfgInstruction) (insts : List CfgInstruction) (last : ℕ) (m m' : Map NativeInstruction)
    → is_plain c ≡ false
    → add_inst c m ≡ ok m'
    → add_insts (c ∷ insts) last m ≡ add_insts insts (max last c.ea) m'
unfolding add_insts
add_insts_next c insts last m m' p e = rw (p, e)

later :
    (last' : ℕ) (c : CfgInstruction) (insts : List CfgInstruction) (last : ℕ)
    → (last' ≡ last) ⊎ HasMetadataAt last' insts
    → (last' ≡ last) ⊎ HasMetadataAt last' (c ∷ insts)
later last' c insts last (inl e) = inl e
later last' c insts last (inr h) = inr (inr h)

greater :
    (last' : ℕ) (c : CfgInstruction) (insts : List CfgInstruction) (last : ℕ)
    → is_plain c ≡ false
    → (last' ≡ max last c.ea) ⊎ HasMetadataAt last' insts
    → (last' ≡ last) ⊎ HasMetadataAt last' (c ∷ insts)
greater last' c insts last taken (inr h) = inr (inr h)
greater last' c insts last taken (inl e) = elim (lt_cases last c.ea) [
  | inl l ↦ inr (inl (taken, omega (arith, l, e)))
  | inr l ↦ inl (omega (arith, l, e))
]

-- With at most five references each, every instruction of a block is taken up: those with metadata
-- are known afterwards, those known before are as they were, and the last address is the greatest
-- among the one before and the addresses of those with metadata.
pub add_insts-AllAdded :
    (insts : List CfgInstruction) (last : ℕ) (m : Map NativeInstruction)
    → All (λ (c : CfgInstruction). length c.xrefs ≤ 5) insts
    → (last' : ℕ) × (m' : Map NativeInstruction) × (add_insts insts last m ≡ ok (last', m'))
      × AllAdded insts last last' m m'
add_insts-AllAdded [] last m h = (
  last,
  m,
  unfold add_insts in refl,
  record { known = tt; kept = λ k i f. f; grows = omega arith; attained = inl refl },
)
add_insts-AllAdded (c ∷ insts) last m h = elim (Bool-cases (is_plain c)) [
  | inl plain ↦
      let (last', m', e, a) = add_insts-AllAdded insts last m h.1 in
      (
        last',
        m',
        add_insts_skip c insts last m plain ∙ e,
        record {
          known = (λ p. absurd (true_not_false (sym plain ∙ p)), a.known);
          kept = a.kept;
          grows = a.grows;
          attained = later last' c insts last a.attained;
        },
      )
  | inr taken ↦
      let (m1, e1, a1) = add_inst-Added c m h.0 in
      let (last', m', e, a) = add_insts-AllAdded insts (max last c.ea) m1 h.1 in
      (
        last',
        m',
        add_insts_next c insts last m m1 taken e1 ∙ e,
        record {
          known = (
            λ p. (omega (arith, a.grows), (a1.present.0, a.kept c.ea a1.present.0 a1.present.1)),
            a.known,
          );
          kept = λ k i f. a.kept k i (a1.kept k i f);
          grows = omega (arith, a.grows);
          attained = greater last' c insts last taken a.attained;
        },
      )
]
