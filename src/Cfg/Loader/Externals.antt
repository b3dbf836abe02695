-- ===== src/Cfg/Loader/Externals.antt =====
-- The loop of `ReadProtoBuf` (mcsema/CFG/CFG.cpp) over the external functions.
use mcsema.Prelude.{
  ℕ, suc, Bool, true, not, Option, none, some, List, [], ◌∷◌, ◌++◌, ◌==◌, if◌then◌else◌, and_then,
  same_text, to_u32,
}
use mcsema.Prelude.Maps.{find?, assign}
use mcsema.Cfg.Types.{Checked, ok, failed, ◌>>=◌, ◌>>◌, check, duplicate_extern, out_of_fuel}
use mcsema.Cfg.Names.{Bytes, external_func_name}
use mcsema.Cfg.Forward.{Forwards, forward_to}
use mcsema.Cfg.Decls.{CfgFunctionDecl}
use mcsema.Cfg.Objects.{
  CallingConv, c_conv, x86_std_call, x86_fast_call, win64, x86_64_sys_v, NativeFunction, Objects,
  try_get_function,
}
use mcsema.Cfg.Loader.Functions.{LlFunction, Libraries, decl_if_missing, decl_of_ll}

-- `ExternalFunction_CallingConvention`; `unknown` stands for the switch's default.
pub data CfgConvention : Type 0 where
  callee_cleanup fast_call caller_cleanup unknown : CfgConvention

-- `ExternalFunction` of mcsema/CFG/CFG.proto.
pub record CfgExternalFunction : Type 0 where
  pub ea : ℕ
  pub name : Option Bytes
  pub is_weak : Bool
  pub argument_count : Option ℕ
  pub cc : Option CfgConvention
  pub decl : Option CfgFunctionDecl

-- What the architecture of remill is asked.
pub record Platform : Type 0 where
  pub is_x86 : Bool
  pub is_amd64 : Bool
  pub is_windows : Bool
  pub default_conv : CallingConv

-- `func->cc`: the specified convention means something on 32-bit x86 only.
pub x86_conv : Platform → CfgConvention → CallingConv
x86_conv p callee_cleanup = x86_std_call
x86_conv p fast_call = x86_fast_call
x86_conv p caller_cleanup = c_conv
x86_conv p unknown = if p.is_windows then x86_std_call else p.default_conv

pub specified_conv : Platform → Option CfgConvention → CallingConv
unfolding x86_conv
specified_conv p none = p.default_conv
specified_conv p (some cc) =
    if p.is_x86
    then x86_conv p cc
    else (if p.is_amd64 then (if p.is_windows then win64 else x86_64_sys_v) else p.default_conv)

pub external_conv : Platform → Option CfgConvention → Option LlFunction → CallingConv
unfolding specified_conv
external_conv p cc none = specified_conv p cc
external_conv p cc (some ll) = ll.calling_conv

pub count_args : Option LlFunction → Option ℕ → ℕ
count_args (some ll) count = to_u32 ll.num_args
count_args none (some count) = to_u32 count
count_args none none = 0

unfoldable pub new_external_function :
    Libraries → Platform → CfgExternalFunction → (name : Bytes) → NativeFunction
unfolding external_conv count_args
new_external_function libs p cfg name =
    let ll : Option LlFunction = libs.ll_function name in
    record {
      ea = cfg.ea;
      name = name;
      lifted_name = external_func_name cfg.ea name;
      is_external = true;
      is_exported = true;
      is_weak = cfg.is_weak;
      num_args = count_args ll cfg.argument_count;
      cc = external_conv p cfg.cc ll;
      decl = decl_of_ll ll cfg.ea (decl_if_missing libs cfg.ea none cfg.decl ll);
    }

-- A function that is at the address already: it is exported under the external name, or stays.
unfoldable pub export_as : (name : Bytes) → NativeFunction → NativeFunction
export_as name f = if f.is_exported then f else record f { is_exported = true; name = name }

-- `name_to_extern_func`, which the loop reads only.
abbrev pub ByName : Type 0
ByName = List (Bytes × ℕ)

unfoldable pub find_name : Bytes → ByName → Option ℕ
find_name name [] = none
find_name name ((other, id) ∷ by_name) =
    if same_text other name then some id else find_name name by_name

unfoldable pub or_fuel : Option Forwards → Checked Forwards
or_fuel none = failed out_of_fuel
or_fuel (some f) = ok f

-- CHECK(dup->ea != ea)
unfoldable pub other_address : (dup_ea : Option ℕ) → (ea : ℕ) → Forwards → Checked Forwards
other_address none ea f = ok f
other_address (some dup_ea) ea f = check (not (dup_ea == ea)) duplicate_extern >> ok f

-- The function of the same name that was there before is forwarded to the new one.
unfoldable pub forward_older :
    (fuel : ℕ)
    → (older : Option ℕ) → (id ea : ℕ) → (ea_of : ℕ → Option ℕ) → Forwards
    → Checked Forwards
unfolding or_fuel other_address
forward_older k none id ea ea_of f = ok f
forward_older k (some dup) id ea ea_of f =
    or_fuel (forward_to k f dup id) >>= λ g. other_address (ea_of dup) ea g

pub function_ea : Objects → ℕ → Option ℕ
function_ea o id = and_then (find? id o.functions) (λ f. some f.ea)

unfoldable pub enter_external_function : NativeFunction → Forwards → Objects → Objects
enter_external_function f forwards o = record o {
  next_id = suc o.next_id;
  forwards = forwards;
  functions = assign o.next_id f o.functions;
  ea_to_func = assign f.ea o.next_id o.ea_to_func;
  names = o.names ++ (f.name, f.ea) ∷ [];
}

unfoldable pub load_external_function :
    (fuel : ℕ)
    → Libraries
    → Platform
    → ByName
    → CfgExternalFunction
    → (name : Bytes) → Option (ℕ × NativeFunction)
    → Objects
    → Checked Objects
unfolding export_as new_external_function forward_older function_ea find_name
    enter_external_function
load_external_function k libs p by_name cfg name (some found) o =
    ok (record o { functions = assign found.0 (export_as name found.1) o.functions })
load_external_function k libs p by_name cfg name none o = do
  forwards ← forward_older k (find_name name by_name) o.next_id cfg.ea (function_ea o) o.forwards
  ok (enter_external_function (new_external_function libs p cfg name) forwards o)

-- One that has no name is passed over.
unfoldable pub load_named_function :
    (fuel : ℕ)
    → Libraries
    → Platform
    → ByName
    → CfgExternalFunction
    → Option Bytes
    → Objects
    → Checked Objects
unfolding load_external_function
load_named_function k libs p by_name cfg none o = ok o
load_named_function k libs p by_name cfg (some name) o =
    load_external_function k libs p by_name cfg name (try_get_function o cfg.ea) o

unfoldable pub load_each_external :
    (fuel : ℕ)
    → Libraries
    → Platform
    → ByName
    → List CfgExternalFunction
    → Objects
    → Checked Objects
unfolding load_named_function
load_each_external k libs p by_name [] o = ok o
load_each_external k libs p by_name (cfg ∷ cfgs) o = do
  next ← load_named_function k libs p by_name cfg cfg.name o
  load_each_external k libs p by_name cfgs next

-- The map starts empty, and nothing is ever put into it.
unfoldable pub load_external_functions :
    (fuel : ℕ) → Libraries → Platform → List CfgExternalFunction → Objects → Checked Objects
unfolding load_each_external
load_external_functions k libs p cfgs o = load_each_external k libs p [] cfgs o
