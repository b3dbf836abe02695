-- ===== src/Cfg/Decls/Tests.antt =====
-- A declaration with a stack pointer and one parameter (mcsema/CFG/CFG.cpp, `RecoverFunctionDecl`).
use mcsema.Prelude.{ℕ, ◌≡◌, ◌⊎◌, false, Option, none, some, [], ◌∷◌, ◌==◌, if◌then◌else◌}
use mcsema.Cfg.Names.{Bytes}
use mcsema.Cfg.Decls.{CfgValueDecl, CfgFunctionDecl, FunctionDecl, Host, recover_function_decl}
use mcsema.Cfg.Decls.Specified.{AsSpecified}
use mcsema.Cfg.Decls.Recovered.{IsSpecified, recover_function_decl_cases}

-- Two registers, known by a letter, and one type.
abbrev registers : Bytes → Option ℕ
registers [] = none
registers (c ∷ cs) = if c == b's' then some 4 else some 7

abbrev host : Host
host = record {
  register_by_name = registers;
  parse_type = λ type. some 8;
  declare_function = λ decl. some decl.address;
}

abbrev in_register : Bytes → CfgValueDecl
in_register register = record { type = []; name = none; memory = none; register = some register }

abbrev specification : CfgFunctionDecl
specification = record {
  is_noreturn = false;
  is_variadic = false;
  calling_convention = 0;
  return_stack_pointer = some (in_register (b's' ∷ []));
  return_values = [];
  parameters = in_register (b'd' ∷ []) ∷ [];
  return_address = record {
    type = [];
    name = none;
    memory = some (record { register = b's' ∷ []; offset = 0 });
    register = none;
  };
}

recover_function_decl_cases_example :
    (IsSpecified host specification
      × ((r : FunctionDecl) × AsSpecified host 0x1000 specification none r
          × (recover_function_decl host 0x1000 specification none ≡ host.declare_function r)))
    ⊎ (¬ IsSpecified host specification
        × (recover_function_decl host 0x1000 specification none ≡ none))
recover_function_decl_cases_example = recover_function_decl_cases host 0x1000 specification none
