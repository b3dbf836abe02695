-- ===== src/Cfg/Loader/Tests.antt =====
-- Two functions, an external variable and a segment (mcsema/CFG/CFG.cpp, `ReadProtoBuf`).
use mcsema.Prelude.{ℕ, ◌≤◌, ◌≡◌, ◌⊎◌, true, false, none, some, [], ◌∷◌}
use mcsema.Cfg.Types.{Checked, ok, failed, exported_without_name}
use mcsema.Cfg.Objects.{c_conv, Objects, no_objects}
use mcsema.Cfg.Loader.{CfgModule, load_objects}
use mcsema.Cfg.Loader.Functions.{CfgFunction, Libraries, load_functions}
use mcsema.Cfg.Loader.Externals.{Platform, CfgExternalFunction, load_external_functions}
use mcsema.Cfg.Loader.Variables.{CfgExternalVariable}
use mcsema.Cfg.Loader.Segments.{CfgSegment}
use mcsema.Cfg.Loader.Kept.{IsLoaded, no_objects-IsLoaded}
use mcsema.Cfg.Loader.Settled.{IsFine}
use mcsema.Cfg.Loader.Ends.{load_objects_ends}
use mcsema.Cfg.Loader.First.{function_view, AllAccepted, views, load_functions_cases}
use mcsema.Cfg.Loader.Exported.{external_views, load_external_functions_lem}

abbrev libs : Libraries
libs = record {
  host = record {
    register_by_name = λ name. none;
    parse_type = λ type. none;
    declare_function = λ decl. none;
  };
  ll_function = λ name. none;
}

abbrev platform : Platform
platform = record { is_x86 = false; is_amd64 = true; is_windows = false; default_conv = c_conv }

abbrev main_func : CfgFunction
main_func = record { ea = 0x400; name = some (b'm' ∷ []); is_entrypoint = true; decl = none }

abbrev helper_func : CfgFunction
helper_func = record { ea = 0x500; name = none; is_entrypoint = false; decl = none }

abbrev puts_func : CfgExternalFunction
puts_func = record {
  ea = 0x600;
  name = some (b'p' ∷ []);
  is_weak = false;
  argument_count = some 1;
  cc = none;
  decl = none;
}

abbrev environ_var : CfgExternalVariable
environ_var = record {
  ea = 0x700;
  name = some (b'e' ∷ []);
  size = 8;
  is_weak = false;
  is_thread_local = false;
}

abbrev data_segment : CfgSegment
data_segment = record {
  ea = 0x800;
  data_size = 16;
  name = some (b'd' ∷ []);
  variable_name = none;
  read_only = false;
  is_external = false;
  is_exported = false;
  is_thread_local = false;
  vars = record { ea = 0x808; name = some (b'v' ∷ []) } ∷ [];
}

abbrev cfg : CfgModule
cfg = record {
  funcs = main_func ∷ helper_func ∷ main_func ∷ [];
  external_funcs = puts_func ∷ [];
  external_vars = environ_var ∷ [];
  segments = data_segment ∷ [];
}

load_objects_ends_example :
    (fuel : ℕ) × (out : Checked Objects) × ((j : ℕ)
      → fuel ≤ j
      → load_objects j libs platform cfg ≡ out)
    × IsFine IsLoaded out
load_objects_ends_example = load_objects_ends libs platform cfg

load_functions_cases_example :
    (AllAccepted libs cfg.funcs (λ ea. none)
      × ((out : Objects) × (load_functions libs cfg.funcs no_objects ≡ ok out)
          × ((ea : ℕ) → function_view out ea ≡ views libs cfg.funcs ea none)))
    ⊎ (¬ AllAccepted libs cfg.funcs (λ ea. none)
        × (load_functions libs cfg.funcs no_objects ≡ failed exported_without_name))
load_functions_cases_example = load_functions_cases libs cfg.funcs

load_external_functions_lem_example :
    (out : Objects) × (load_external_functions 8 libs platform cfg.external_funcs no_objects
      ≡ ok out)
    × (out.forwards ≡ no_objects.forwards)
    × ((ea : ℕ)
        → function_view out ea ≡ external_views cfg.external_funcs ea (function_view no_objects ea))
load_external_functions_lem_example =
    load_external_functions_lem 8 libs platform cfg.external_funcs no_objects no_objects-IsLoaded
