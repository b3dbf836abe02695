-- ===== src/Cfg/Bodies.antt =====
-- The loop of `ReadProtoBuf` (mcsema/CFG/CFG.cpp) over the bodies of the functions: their exception
-- frames and their blocks. Whether a byte is executable is a parameter. The frames and the blocks of
-- a function are kept under its number; a block is named by its address.
pub mod Given
pub mod Known
mod Tests
use mcsema.Prelude.{
  ℕ, suc, Bool, true, false, Option, none, some, List, [], ◌∷◌, ◌++◌, ◌==◌, if◌then◌else◌,
}
use mcsema.Prelude.Maps.{Map, assign}
use mcsema.Cfg.Types.{Checked, ok, ◌>>=◌}
use mcsema.Cfg.Blocks.{CfgBlock, NativeBlock, NativeInstruction, add_block}
use mcsema.Cfg.Objects.{NativeFunction, NativeVariable, Objects, try_get_function}
use mcsema.Cfg.Loader.Variables.{CfgExternalVariable}
use mcsema.Cfg.Loader.Segments.{name_or_empty}

-- `ExceptionFrame` and the rest of `Function` of mcsema/CFG/CFG.proto.
pub record CfgFrame : Type 0 where
  pub start_ea : ℕ
  pub end_ea : ℕ
  pub lp_ea : ℕ
  pub action : ℕ
  pub ttype : List CfgExternalVariable

pub record CfgBody : Type 0 where
  pub ea : ℕ
  pub eh_frame : List CfgFrame
  pub blocks : List CfgBlock

-- `NativeExceptionFrame`
pub record Frame : Type 0 where
  pub start_ea : ℕ
  pub end_ea : ℕ
  pub lp_ea : ℕ
  pub action_index : ℕ
  pub type_var : Map ℕ

pub record Bodies : Type 0 where
  pub objects : Objects
  pub blocks : Map NativeBlock
  pub insts : Map NativeInstruction
  pub func_blocks : ℕ → List ℕ
  pub frames : ℕ → List Frame

-- `push_back` on the list of a function.
abbrev pub push_at {ℓ} : {A : Type ℓ} → (func : ℕ) → A → (ℕ → List A) → ℕ → List A
push_at func item lists id = if id == func then lists id ++ item ∷ [] else lists id

-- A type of a landing pad is a variable of the module, kept under its size.
pub new_type_variable : CfgExternalVariable → NativeVariable
new_type_variable cfg = record {
  ea = cfg.ea;
  name = name_or_empty cfg.name;
  lifted_name = name_or_empty cfg.name;
  segment = none;
  is_external = true;
  is_exported = true;
  is_thread_local = cfg.is_thread_local;
  is_weak = cfg.is_weak;
  size = cfg.size;
}

pub add_types : List CfgExternalVariable → Map ℕ → Objects → Map ℕ × Objects
unfolding new_type_variable
add_types [] types o = (types, o)
add_types (cfg ∷ cfgs) types o = add_types cfgs (assign cfg.size o.next_id types) (record o {
  next_id = suc o.next_id;
  variables = assign o.next_id (new_type_variable cfg) o.variables;
})

pub new_frame : CfgFrame → Map ℕ → Frame
new_frame cfg types = record {
  start_ea = cfg.start_ea;
  end_ea = cfg.end_ea;
  lp_ea = cfg.lp_ea;
  action_index = cfg.action;
  type_var = types;
}

pub add_frames : (func : ℕ) → List CfgFrame → Bodies → Bodies
unfolding add_types new_frame
add_frames func [] b = b
add_frames func (cfg ∷ cfgs) b =
    let made : Map ℕ × Objects = add_types cfg.ttype [] b.objects in
    add_frames func cfgs
      (record b { objects = made.1; frames = push_at func (new_frame cfg made.0) b.frames })

pub add_blocks : (func : ℕ) → List CfgBlock → Bodies → Checked Bodies
unfolding add_block
add_blocks func [] b = ok b
add_blocks func (cfg ∷ cfgs) b = do
  added ← add_block cfg b.blocks b.insts
  add_blocks func cfgs (record b {
    blocks = added.0;
    insts = added.1;
    func_blocks = push_at func cfg.ea b.func_blocks;
  })

-- The body of the loop, for what `TryGetFunction` finds.
pub add_body :
    (executable : ℕ → Bool) → CfgBody → Option (ℕ × NativeFunction) → Bodies → Checked Bodies
unfolding add_frames add_blocks
add_body executable cfg none b = ok b
add_body executable cfg (some (id, f)) b =
    if executable f.ea then add_blocks id cfg.blocks (add_frames id cfg.eh_frame b) else ok b

pub add_bodies : (executable : ℕ → Bool) → List CfgBody → Bodies → Checked Bodies
unfolding add_body
add_bodies executable [] b = ok b
add_bodies executable (cfg ∷ cfgs) b = do
  next ← add_body executable cfg (try_get_function b.objects cfg.ea) b
  add_bodies executable cfgs next
