-- ===== src/Cfg/Bodies/Given.antt =====
-- The blocks that the declarations of a function name (mcsema/CFG/CFG.cpp, `ReadProtoBuf`).
use mcsema.Prelude.{
  ℕ, ◌≤◌, ◌≡◌, ◌≢◌, refl, sym, ◌∙◌, ap, subst, inl, inr, Bool, Option, none, some, List, [], ◌∷◌,
  ◌++◌, ◌==◌, if◌then◌else◌, All, length, append_assoc, append-nil, eq_cases, none_not_some,
  fun_ext,
}
use mcsema.Prelude.Maps.{Map, find?, assign, find?-assign_self, find?-assign_ne}
use mcsema.Cfg.Blocks.{CfgInstruction, CfgBlock, NativeBlock}
use mcsema.Cfg.Objects.{NativeFunction, Objects, try_get_function}
use mcsema.Cfg.Bodies.{CfgBody, Bodies}

abbrev pub IsKnown : Map NativeBlock → ℕ → Type 0
IsKnown blocks ea = find? ea blocks ≢ none

-- A block whose instructions have at most five references each.
abbrev pub IsSupported : CfgBlock → Type 0
IsSupported cfg = All (λ (c : CfgInstruction). length c.xrefs ≤ 5) cfg.instructions

abbrev pub addresses : List CfgBlock → List ℕ
addresses [] = []
addresses (cfg ∷ cfgs) = cfg.ea ∷ addresses cfgs

-- The blocks that a declaration gives to a function.
abbrev pub given :
    (executable : ℕ → Bool) → (id : ℕ) → CfgBody → Option (ℕ × NativeFunction) → List ℕ
given executable id cfg none = []
given executable id cfg (some (func, f)) =
    if executable f.ea then (if id == func then addresses cfg.blocks else []) else []

abbrev pub declared : (executable : ℕ → Bool) → (id : ℕ) → Objects → List CfgBody → List ℕ
declared executable id o [] = []
declared executable id o (cfg ∷ cfgs) =
    given executable id cfg (try_get_function o cfg.ea) ++ declared executable id o cfgs

-- What a part of the loop does to the blocks.
pub record Gave (b out : Bodies) (blocks : ℕ → List ℕ) : Type 0 where
  pub lists : (id : ℕ) → out.func_blocks id ≡ b.func_blocks id ++ blocks id
  pub kept : (ea : ℕ) → IsKnown b.blocks ea → IsKnown out.blocks ea
  pub known : (id : ℕ) → All (IsKnown out.blocks) (blocks id)
  pub functions : (ea : ℕ) → try_get_function out.objects ea ≡ try_get_function b.objects ea

All-map {κ} : {P Q : ℕ → Type κ} (xs : List ℕ) → ((x : ℕ) → P x → Q x) → All P xs → All Q xs
All-map [] f all = tt
All-map (x ∷ xs) f all = (f x all.0, All-map xs f all.1)

All-append : (P : ℕ → Type 0) (xs ys : List ℕ) → All P xs → All P ys → All P (xs ++ ys)
All-append P [] ys h k = k
All-append P (x ∷ xs) ys h k = (h.0, All-append P xs ys h.1 k)

pub Gave-nothing : (b : Bodies) → Gave b b (λ id. [])
Gave-nothing b = record {
  lists = λ id. sym (append-nil (b.func_blocks id));
  kept = λ ea k. k;
  known = λ id. tt;
  functions = λ ea. refl;
}

pub Gave-both :
    (b c d : Bodies) (first rest : ℕ → List ℕ)
    → Gave b c first
    → Gave c d rest
    → Gave b d (λ id. first id ++ rest id)
Gave-both b c d first rest g h = record {
  lists = λ id.
      h.lists id
      ∙ ap (λ (l : List ℕ). l ++ rest id) (g.lists id)
      ∙ append_assoc (b.func_blocks id) (first id) (rest id);
  kept = λ ea k. h.kept ea (g.kept ea k);
  known = λ id.
      All-append (IsKnown d.blocks) (first id) (rest id) (All-map (first id) h.kept (g.known id))
        (h.known id);
  functions = λ ea. h.functions ea ∙ g.functions ea;
}

pub IsKnown-assign :
    (block_ea : ℕ) (block : NativeBlock) (blocks : Map NativeBlock)
    → IsKnown (assign block_ea block blocks) block_ea
      × ((ea : ℕ) → IsKnown blocks ea → IsKnown (assign block_ea block blocks) ea)
IsKnown-assign block_ea block blocks = (
  λ e. none_not_some (sym e ∙ find?-assign_self block_ea block blocks),
  λ ea k e. elim (eq_cases block_ea ea) [
    | inl same ↦ none_not_some (
        sym (subst (λ i. find? i (assign block_ea block blocks) ≡ none) (sym same) e)
        ∙ find?-assign_self block_ea block blocks)
    | inr ne ↦ k (sym (find?-assign_ne block_ea ea block blocks ne) ∙ e)
  ],
)

pub Gave-same :
    (b out : Bodies) (blocks others : ℕ → List ℕ)
    → ((id : ℕ) → blocks id ≡ others id)
    → Gave b out blocks
    → Gave b out others
Gave-same b out blocks others e g = subst (Gave b out) (fun_ext e) g
