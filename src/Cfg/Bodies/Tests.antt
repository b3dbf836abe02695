-- ===== src/Cfg/Bodies/Tests.antt =====
-- One function with a frame and two blocks (mcsema/CFG/CFG.cpp, `ReadProtoBuf`).
use mcsema.Prelude.{ℕ, ◌≡◌, Bool, true, false, none, some, [], ◌∷◌, arith}
use mcsema.Cfg.Types.{ok}
use mcsema.Cfg.Blocks.{CfgInstruction, CfgBlock}
use mcsema.Cfg.Objects.{NativeFunction, Objects, c_conv}
use mcsema.Cfg.Bodies.{CfgBody, Bodies, add_bodies}
use mcsema.Cfg.Bodies.Given.{Gave, declared}
use mcsema.Cfg.Bodies.Known.{add_bodies-Gave}

abbrev function : NativeFunction
function = record {
  ea = 0x400;
  name = b'm' ∷ [];
  lifted_name = b'm' ∷ [];
  is_external = false;
  is_exported = true;
  is_weak = false;
  num_args = 0;
  cc = c_conv;
  decl = none;
}

abbrev objects : Objects
objects = record {
  next_id = 1;
  forwards = λ x. x;
  functions = (0, function) ∷ [];
  variables = [];
  segments = [];
  ea_to_func = (0x400, 0) ∷ [];
  ea_to_var = [];
  ea_to_seg = [];
  names = [];
}

abbrev bodies : Bodies
bodies = record {
  objects = objects;
  blocks = [];
  insts = [];
  func_blocks = λ id. [];
  frames = λ id. [];
}

abbrev instruction : CfgInstruction
instruction = record { ea = 0x404; xrefs = []; lp_ea = 0x480 }

abbrev block : ℕ → CfgBlock
block ea = record {
  ea = ea;
  instructions = instruction ∷ [];
  successor_eas = [];
  is_referenced_by_data = false;
}

abbrev body : CfgBody
body = record {
  ea = 0x400;
  eh_frame =
      record {
        start_ea = 0x400;
        end_ea = 0x408;
        lp_ea = 0x480;
        action = 0;
        ttype =
            record {
              ea = 0x900;
              name = some (b't' ∷ []);
              size = 8;
              is_weak = false;
              is_thread_local = false;
            }
            ∷ [];
      }
      ∷ [];
  blocks = block 0x400 ∷ block 0x480 ∷ [];
}

abbrev all_executable : ℕ → Bool
all_executable ea = true

add_bodies-Gave_example :
    (out : Bodies) × (add_bodies all_executable (body ∷ []) bodies ≡ ok out)
    × Gave bodies out (λ id. declared all_executable id objects (body ∷ []))
add_bodies-Gave_example =
    add_bodies-Gave all_executable (body ∷ []) bodies
      (((omega arith, tt), ((omega arith, tt), tt)), tt)
