-- ===== src/Cfg/Blocks/Search.antt =====
-- `NativeModule::TryGetBlock` of mcsema/CFG/CFG.cpp: what it returns holds the address, and it
-- returns the nearest block below the address within its reach.
use mcsema.Prelude.{
  ℕ, zero, suc, ◌+◌, ◌-◌, ◌≤◌, ◌<◌, ◌≡◌, subst, ◌∙◌, ◌≢◌, true, false, Option, none, some, List,
  arith, ==_ne, All, none_not_some,
}
use mcsema.Prelude.Maps.{Map, find?}
use mcsema.Cfg.Types.{ok}
use mcsema.Cfg.Blocks.{
  CfgInstruction, NativeInstruction, NativeBlock, is_plain, add_insts, holds, try_get_block_loop,
  try_get_block,
}
use mcsema.Cfg.Blocks.Instructions.{add_insts-plain}

loop_sound :
    (rounds : ℕ) (m : Map NativeBlock) (i block_ea : ℕ) (curr : Option NativeBlock)
    (b : NativeBlock)
    → try_get_block_loop rounds m i block_ea curr ≡ some b
    → (b.ea ≤ i) × (i ≤ b.last_inst_ea)
unfolding try_get_block_loop
loop_sound zero m i block_ea curr b h = absurd (none_not_some h)
loop_sound (suc rounds) m i block_ea none b h =
    ground (arith, loop_sound rounds m i (block_ea - 1) (find? block_ea m) b)
loop_sound (suc rounds) m i block_ea (some c) b h =
    ground (arith, loop_sound rounds m i (block_ea - 1) (find? block_ea m) b)

-- A block that is returned holds the address, by its own bounds.
pub try_get_block_sound :
    (m : Map NativeBlock) (i : ℕ) (curr : Option NativeBlock) (b : NativeBlock)
    → try_get_block m i curr ≡ some b
    → (b.ea ≤ i) × (i ≤ b.last_inst_ea)
unfolding try_get_block
try_get_block_sound m i curr b h = loop_sound 256 m i i curr b h

-- Nothing that the map holds at an address from `k + 1` to `k + d` holds `i`.
abbrev pub NoneBetween : Map NativeBlock → (i k d : ℕ) → Type 0
NoneBetween m i k zero = Unit
NoneBetween m i k (suc d) = (holds i (find? (k + suc d) m) ≡ false) × NoneBetween m i k d

loop_meets :
    (rounds : ℕ) (m : Map NativeBlock) (i k : ℕ) (curr : Option NativeBlock) (b : NativeBlock)
    → 2 ≤ k
    → find? k m ≡ some b
    → holds i (some b) ≡ true
    → holds i curr ≡ false
    → try_get_block_loop (suc (suc rounds)) m i k curr ≡ some b
unfolding try_get_block_loop
loop_meets rounds m i k curr b k2 f h c =
    rw (==_ne k 0 (omega arith), c, f, ==_ne (k - 1) 0 (omega arith), h)

loop_step :
    (rounds : ℕ) (m : Map NativeBlock) (i block_ea : ℕ) (curr : Option NativeBlock)
    → block_ea ≢ 0
    → holds i curr ≡ false
    → try_get_block_loop (suc rounds) m i block_ea curr
      ≡ try_get_block_loop rounds m i (block_ea - 1) (find? block_ea m)
unfolding try_get_block_loop
loop_step rounds m i block_ea curr ne h = rw (==_ne block_ea 0 ne, h)

loop_complete :
    (d rounds : ℕ) (m : Map NativeBlock) (i k : ℕ) (curr : Option NativeBlock) (b : NativeBlock)
    → d + 2 ≤ rounds
    → 2 ≤ k
    → find? k m ≡ some b
    → holds i (some b) ≡ true
    → NoneBetween m i k d
    → holds i curr ≡ false
    → try_get_block_loop rounds m i (k + d) curr ≡ some b
loop_complete zero (suc (suc rounds)) m i k curr b r k2 f h n c =
    subst (λ z. try_get_block_loop (suc (suc rounds)) m i z curr ≡ some b) (omega arith)
      (loop_meets rounds m i k curr b k2 f h c)
loop_complete zero zero m i k curr b r k2 f h n c = absurd (omega arith)
loop_complete zero (suc zero) m i k curr b r k2 f h n c = absurd (omega arith)
loop_complete (suc d) zero m i k curr b r k2 f h n c = absurd (omega arith)
loop_complete (suc d) (suc rounds) m i k curr b r k2 f h n c =
    loop_step rounds m i (k + suc d) curr (omega arith) c
    ∙ subst (λ z. try_get_block_loop rounds m i z (find? (k + suc d) m) ≡ some b) (omega arith)
        (loop_complete d rounds m i k (find? (k + suc d) m) b (omega arith) k2 f h n.1 n.0)

-- A block at `k`, at most 254 bytes below the address `k + d` that it holds, is found, unless
-- `curr` or a block between holds the address too. A block at address 1 is out of reach.
pub try_get_block_complete :
    (m : Map NativeBlock) (k d : ℕ) (curr : Option NativeBlock) (b : NativeBlock)
    → d ≤ 254
    → 2 ≤ k
    → find? k m ≡ some b
    → b.ea ≤ k + d
    → k + d ≤ b.last_inst_ea
    → NoneBetween m (k + d) k d
    → holds (k + d) curr ≡ false
    → try_get_block m (k + d) curr ≡ some b
unfolding try_get_block
try_get_block_complete m k d curr b near k2 f lo hi n c =
    loop_complete d 256 m (k + d) k curr b (omega arith) k2 f (unfold holds in ground arith) n c

-- `last_inst_ea` passes over instructions with no metadata, so a block that has only such
-- instructions holds none of their addresses.
pub plain_block_unfound :
    (insts : List CfgInstruction) (m : Map NativeInstruction) (block : NativeBlock) (i : ℕ)
    → All (λ (c : CfgInstruction). is_plain c ≡ true) insts
    → 0 < i
    → (last' : ℕ) × (m' : Map NativeInstruction) × (add_insts insts 0 m ≡ ok (last', m'))
      × (holds i (some (record block { last_inst_ea = last' })) ≡ false)
plain_block_unfound insts m block i h p =
    (0, m, add_insts-plain insts 0 m h, unfold holds in ground arith)
