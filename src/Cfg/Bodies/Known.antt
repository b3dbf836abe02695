-- ===== src/Cfg/Bodies/Known.antt =====
-- The blocks of a function are those that its declarations name, and are known
-- (mcsema/CFG/CFG.cpp, `ReadProtoBuf`).
use mcsema.Prelude.{
  ℕ, ◌≡◌, refl, sym, ◌∙◌, ap, inl, inr, Bool, Option, none, some, List, [], ◌∷◌, ◌++◌, ◌==◌,
  if◌then◌else◌, All, append-nil, Bool-cases,
}
use mcsema.Prelude.Maps.{Map, assign}
use mcsema.Cfg.Types.{Checked, ok, ◌>>=◌}
use mcsema.Cfg.Blocks.{CfgBlock, NativeBlock, NativeInstruction, merge_block, block_at, add_block}
use mcsema.Cfg.Blocks.Instructions.{add_insts-AllAdded}
use mcsema.Cfg.Objects.{NativeFunction, Objects, try_get_function}
use mcsema.Cfg.Loader.Variables.{CfgExternalVariable}
use mcsema.Cfg.Bodies.{
  CfgFrame, CfgBody, Bodies, push_at, add_types, add_frames, add_blocks, add_body, add_bodies,
}
use mcsema.Cfg.Bodies.Given.{
  IsKnown, IsSupported, addresses, given, declared, Gave, Gave-nothing, Gave-both, Gave-same,
  IsKnown-assign,
}

-- A block that is supported is added.
add_block_ok :
    (cfg : CfgBlock) (blocks : Map NativeBlock) (insts : Map NativeInstruction)
    → IsSupported cfg
    → (added : Map NativeBlock × Map NativeInstruction) × (add_block cfg blocks insts ≡ ok added)
      × IsKnown added.0 cfg.ea
      × ((ea : ℕ) → IsKnown blocks ea → IsKnown added.0 ea)
unfolding add_block
add_block_ok cfg blocks insts h =
    let block : NativeBlock = merge_block cfg (block_at cfg.ea blocks) in
    let (last, insts1, e, added) = add_insts-AllAdded cfg.instructions block.last_inst_ea insts h in
    let (here, others) = IsKnown-assign cfg.ea (record block { last_inst_ea = last }) blocks in
    (
      (assign cfg.ea (record block { last_inst_ea = last }) blocks, insts1),
      ap
          (λ (c : Checked (ℕ × Map NativeInstruction)). c >>= λ added.
            ok (assign cfg.ea (record block { last_inst_ea = added.0 }) blocks, added.1))
          e,
      here,
      others,
    )

abbrev for_func : (func : ℕ) → List ℕ → ℕ → List ℕ
for_func func eas id = if id == func then eas else []

for_func-nil : (func id : ℕ) → [] ≡ for_func func [] id
for_func-nil func id = elim (Bool-cases (id == func)) [ inl e ↦ rw (e) refl | inr e ↦ rw (e) refl ]

for_func-cons :
    (func : ℕ) (ea : ℕ) (eas : List ℕ) (id : ℕ)
    → for_func func (ea ∷ []) id ++ for_func func eas id ≡ for_func func (ea ∷ eas) id
for_func-cons func ea eas id = elim (Bool-cases (id == func)) [
  | inl e ↦ rw (e) refl
  | inr e ↦ rw (e) refl
]

-- One block.
Gave-block :
    (func ea : ℕ) (b : Bodies) (added : Map NativeBlock × Map NativeInstruction)
    → IsKnown added.0 ea
    → ((other : ℕ) → IsKnown b.blocks other → IsKnown added.0 other)
    → Gave b
        (record b {
          blocks = added.0;
          insts = added.1;
          func_blocks = push_at func ea b.func_blocks;
        })
        (for_func func (ea ∷ []))
Gave-block func ea b added here others = record {
  lists = λ id. elim (Bool-cases (id == func)) [
    | inl e ↦ rw (e) refl
    | inr e ↦ rw (e) (sym (append-nil (b.func_blocks id)))
  ];
  kept = others;
  known = λ id. elim (Bool-cases (id == func)) [ inl e ↦ rw (e) (here, tt) | inr e ↦ rw (e) tt ];
  functions = λ other. refl;
}

add_blocks-Gave :
    (func : ℕ) (cfgs : List CfgBlock) (b : Bodies)
    → All IsSupported cfgs
    → (out : Bodies) × (add_blocks func cfgs b ≡ ok out)
      × Gave b out (for_func func (addresses cfgs))
unfolding add_blocks
add_blocks-Gave func [] b all =
    (b, refl, Gave-same b b (λ id. []) _ (for_func-nil func) (Gave-nothing b))
add_blocks-Gave func (cfg ∷ cfgs) b all =
    let (added, e, here, others) = add_block_ok cfg b.blocks b.insts all.0 in
    let next : Bodies = record b {
      blocks = added.0;
      insts = added.1;
      func_blocks = push_at func cfg.ea b.func_blocks;
    } in
    let (out, ends, gave) = add_blocks-Gave func cfgs next all.1 in
    (
      out,
      rw (e) ends,
      Gave-same b out _ _ (for_func-cons func cfg.ea (addresses cfgs)) (
          Gave-both b next out (for_func func (cfg.ea ∷ [])) (for_func func (addresses cfgs))
            (Gave-block func cfg.ea b added here others) gave),
    )

-- Frames change no function and no block.
add_types_functions :
    (cfgs : List CfgExternalVariable) (types : Map ℕ) (o : Objects) (ea : ℕ)
    → try_get_function (add_types cfgs types o).1 ea ≡ try_get_function o ea
unfolding add_types try_get_function
add_types_functions [] types o ea = refl
add_types_functions (cfg ∷ cfgs) types o ea = add_types_functions cfgs _ _ ea

add_frames-Gave :
    (func : ℕ) (cfgs : List CfgFrame) (b : Bodies) → Gave b (add_frames func cfgs b) (λ id. [])
unfolding add_frames
add_frames-Gave func [] b = Gave-nothing b
add_frames-Gave func (cfg ∷ cfgs) b =
    let rest = add_frames-Gave func cfgs _ in
    record {
      lists = rest.lists;
      kept = rest.kept;
      known = rest.known;
      functions = λ ea. rest.functions ea ∙ add_types_functions cfg.ttype [] b.objects ea;
    }

add_body-Gave :
    (executable : ℕ → Bool) (cfg : CfgBody) (found : Option (ℕ × NativeFunction)) (b : Bodies)
    → All IsSupported cfg.blocks
    → (out : Bodies) × (add_body executable cfg found b ≡ ok out)
      × Gave b out (λ id. given executable id cfg found)
unfolding add_body
add_body-Gave executable cfg none b all = (b, refl, Gave-nothing b)
add_body-Gave executable cfg (some (func, f)) b all = elim (Bool-cases (executable f.ea)) [
  | inr e ↦ (b, rw (e) refl, Gave-same b b (λ id. []) _ (λ id. rw (e) refl) (Gave-nothing b))
  | inl e ↦
      let next = add_frames func cfg.eh_frame b in
      let (out, ends, gave) = add_blocks-Gave func cfg.blocks next all in
      (
        out,
        rw (e) ends,
        Gave-same b out _ _ (λ id. rw (e) refl)
            (Gave-both b next out (λ id. []) (for_func func (addresses cfg.blocks))
              (add_frames-Gave func cfg.eh_frame b) gave),
      )
]

declared_same :
    (executable : ℕ → Bool) (id : ℕ) (o u : Objects) (cfgs : List CfgBody)
    → ((ea : ℕ) → try_get_function u ea ≡ try_get_function o ea)
    → declared executable id u cfgs ≡ declared executable id o cfgs
declared_same executable id o u [] e = refl
declared_same executable id o u (cfg ∷ cfgs) e =
    rw (e cfg.ea, declared_same executable id o u cfgs e) refl

-- If no instruction has more than five references, the loop over the bodies ends well. Each function
-- then has, behind the blocks it had, those that its declarations name, in their order, if the byte
-- at its address is executable; all of these are known to the module, as are the blocks that were.
pub add_bodies-Gave :
    (executable : ℕ → Bool) (cfgs : List CfgBody) (b : Bodies)
    → All (λ (cfg : CfgBody). All IsSupported cfg.blocks) cfgs
    → (out : Bodies) × (add_bodies executable cfgs b ≡ ok out)
      × Gave b out (λ id. declared executable id b.objects cfgs)
unfolding add_bodies
add_bodies-Gave executable [] b all = (b, refl, Gave-nothing b)
add_bodies-Gave executable (cfg ∷ cfgs) b all =
    let found = try_get_function b.objects cfg.ea in
    let (next, e, gave) = add_body-Gave executable cfg found b all.0 in
    let (out, ends, more) = add_bodies-Gave executable cfgs next all.1 in
    (
      out,
      rw (e) ends,
      Gave-both b next out (λ id. given executable id cfg found)
          (λ id. declared executable id b.objects cfgs) gave
          (Gave-same next out _ _
            (λ id. declared_same executable id b.objects next.objects cfgs gave.functions) more),
    )
