-- ===== src/Cfg/Decls.antt =====
-- Declarations of functions as the control-flow graph specifies them: `RecoverValueDecl`,
-- `RecoverParamDecl`, `RecoverRetDecl` and `RecoverFunctionDecl` of mcsema/CFG/CFG.cpp. The
-- registers of the architecture, the types that anvill parses and what it does with a declaration
-- are parameters. A recovered declaration has the fields that the code fills in.
pub mod Specified
pub mod Recovered
mod Tests
use mcsema.Prelude.{
  ℕ, Bool, true, false, ◌||◌, Option, none, some, List, [], ◌∷◌, if◌then◌else◌, and_then, map_all,
}
use mcsema.Cfg.Names.{Bytes}

-- `ValueDecl` and `FunctionDecl` of mcsema/CFG/CFG.proto.
pub record CfgMemory : Type 0 where
  pub register : Bytes
  pub offset : ℕ

pub record CfgValueDecl : Type 0 where
  pub type : Bytes
  pub name : Option Bytes
  pub memory : Option CfgMemory
  pub register : Option Bytes

pub record CfgFunctionDecl : Type 0 where
  pub is_noreturn : Bool
  pub is_variadic : Bool
  pub calling_convention : ℕ
  pub return_stack_pointer : Option CfgValueDecl
  pub return_values : List CfgValueDecl
  pub parameters : List CfgValueDecl
  pub return_address : CfgValueDecl

-- `anvill::ValueDecl`, `anvill::ParameterDecl` and `anvill::FunctionDecl`.
pub record ValueDecl : Type 0 where
  pub type : ℕ
  pub mem_reg : Option ℕ
  pub mem_offset : ℕ
  pub reg : Option ℕ

pub record ParameterDecl : Type 0 where
  pub name : Bytes
  pub value : ValueDecl

pub record FunctionDecl : Type 0 where
  pub address : ℕ
  pub is_noreturn : Bool
  pub is_variadic : Bool
  pub calling_convention : ℕ
  pub return_stack_pointer : ℕ
  pub return_stack_pointer_offset : ℕ
  pub returns : List ValueDecl
  pub params : List ParameterDecl
  pub return_address : ValueDecl

-- What the libraries know: `RegisterByName`, `ParseType`, and `DeclareFunction`, whose result is the
-- declaration that the module keeps.
pub record Host : Type 0 where
  pub register_by_name : Bytes → Option ℕ
  pub parse_type : Bytes → Option ℕ
  pub declare_function : FunctionDecl → Option ℕ

-- What the code asks of a function that the LLVM module has already.
pub record LlAttributes : Type 0 where
  pub does_not_return : Bool
  pub is_var_arg : Bool

-- `RecoverValueDecl`: `none` is `false`. Memory goes before a register.
pub place_value : Host → (type : ℕ) → Option CfgMemory → Option Bytes → Option ValueDecl
place_value host type (some memory) register =
    and_then (host.register_by_name memory.register) (λ mem_reg.
      some (record { type = type; mem_reg = some mem_reg; mem_offset = memory.offset; reg = none }))
place_value host type none (some register) =
    and_then (host.register_by_name register)
      (λ reg. some (record { type = type; mem_reg = none; mem_offset = 0; reg = some reg }))
place_value host type none none = none

pub recover_value_decl : Host → CfgValueDecl → Option ValueDecl
unfolding place_value
recover_value_decl host decl =
    and_then (host.parse_type decl.type) (λ type. place_value host type decl.memory decl.register)

-- `RecoverParamDecl`
pub name_or_empty : Option Bytes → Bytes
name_or_empty none = []
name_or_empty (some name) = name

pub recover_param_decl : Host → CfgValueDecl → Option ParameterDecl
unfolding recover_value_decl name_or_empty
recover_param_decl host decl =
    and_then (recover_value_decl host decl)
      (λ value. some (record { name = name_or_empty decl.name; value = value }))

-- The stack pointer on return: its register and offset.
pub stack_pointer_at : Host → Option CfgMemory → Option Bytes → Option (ℕ × ℕ)
stack_pointer_at host (some memory) register =
    and_then (host.register_by_name memory.register) (λ reg. some (reg, memory.offset))
stack_pointer_at host none (some register) =
    and_then (host.register_by_name register) (λ reg. some (reg, 0))
stack_pointer_at host none none = none

pub recover_stack_pointer : Host → Option CfgValueDecl → Option (ℕ × ℕ)
unfolding stack_pointer_at
recover_stack_pointer host none = none
recover_stack_pointer host (some decl) = stack_pointer_at host decl.memory decl.register

-- The flags, which the function in the module can set, too.
pub ll_noreturn : Option LlAttributes → Bool
ll_noreturn none = false
ll_noreturn (some ll) = ll.does_not_return

pub ll_variadic : Option LlAttributes → Bool
ll_variadic none = false
ll_variadic (some ll) = ll.is_var_arg

pub no_params : List ParameterDecl → Bool
no_params [] = true
no_params (p ∷ ps) = false

-- The declaration that is handed to anvill.
pub build_decl : Host → (ea : ℕ) → CfgFunctionDecl → Option LlAttributes → Option FunctionDecl
unfolding recover_stack_pointer recover_value_decl recover_param_decl ll_noreturn ll_variadic
    no_params
build_decl host ea cfg ll = and_then (recover_stack_pointer host cfg.return_stack_pointer) (λ sp.
    and_then (map_all (recover_value_decl host) cfg.return_values) (λ returns.
      and_then (map_all (recover_param_decl host) cfg.parameters) (λ params.
        and_then (recover_value_decl host cfg.return_address) (λ return_address. some (record {
          address = ea;
          is_noreturn = cfg.is_noreturn || ll_noreturn ll;
          is_variadic = (cfg.is_variadic || ll_variadic ll) || no_params params;
          calling_convention = cfg.calling_convention;
          return_stack_pointer = sp.0;
          return_stack_pointer_offset = sp.1;
          returns = returns;
          params = params;
          return_address = return_address;
        })))))

-- `RecoverFunctionDecl`: what `func->decl` is set to, or `none` if it is left alone.
pub recover_function_decl : Host → (ea : ℕ) → CfgFunctionDecl → Option LlAttributes → Option ℕ
unfolding build_decl
recover_function_decl host ea cfg ll = and_then (build_decl host ea cfg ll) host.declare_function
