-- ===== src/Cfg/Loader.antt =====
-- The first four loops of `ReadProtoBuf` of mcsema/CFG/CFG.cpp: functions, external functions,
-- external variables and segments with their variables. What anvill, remill and the LLVM module know
-- is a parameter.
pub mod Functions
pub mod Externals
pub mod Variables
pub mod Segments
pub mod Kept
pub mod KeptVariables
pub mod KeptSegments
pub mod Whole
pub mod First
pub mod Exported
pub mod Settled
pub mod Redirected
pub mod Ends
mod Tests
use mcsema.Prelude.{ℕ, List}
use mcsema.Cfg.Types.{Checked, ok, ◌>>=◌}
use mcsema.Cfg.Objects.{Objects, no_objects}
use Functions.{Libraries, CfgFunction, load_functions}
use Externals.{Platform, CfgExternalFunction, load_external_functions}
use Variables.{CfgExternalVariable, load_external_variables}
use Segments.{CfgSegment, load_segments}

-- The messages of the module that the loops read.
pub record CfgModule : Type 0 where
  pub funcs : List CfgFunction
  pub external_funcs : List CfgExternalFunction
  pub external_vars : List CfgExternalVariable
  pub segments : List CfgSegment

-- The loops in their order: the names of the external variables are used by the last.
unfoldable pub load_objects : (fuel : ℕ) → Libraries → Platform → CfgModule → Checked Objects
load_objects k libs platform cfg = do
  with_functions ← load_functions libs cfg.funcs no_objects
  with_externals ← load_external_functions k libs platform cfg.external_funcs with_functions
  with_variables ← load_external_variables k cfg.external_vars with_externals
  ok (load_segments with_variables.1 cfg.segments with_variables.0)
