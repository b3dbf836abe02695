-- ===== src/Cfg/Loader/Functions.antt =====
-- The loop of `ReadProtoBuf` (mcsema/CFG/CFG.cpp) over the functions of the binary.
use mcsema.Prelude.{
  ℕ, suc, Bool, true, false, ◌&&◌, not, Option, none, some, List, [], ◌∷◌, ◌++◌, if◌then◌else◌,
}
use mcsema.Prelude.Maps.{assign}
use mcsema.Cfg.Types.{Checked, ok, ◌>>=◌, ◌>>◌, check, exported_without_name}
use mcsema.Cfg.Names.{Bytes, lifted_function_name, is_empty}
use mcsema.Cfg.Decls.{CfgFunctionDecl, Host, LlAttributes, recover_function_decl}
use mcsema.Cfg.Objects.{CallingConv, c_conv, NativeFunction, Objects, try_get_function}

-- `Function` of mcsema/CFG/CFG.proto.
pub record CfgFunction : Type 0 where
  pub ea : ℕ
  pub name : Option Bytes
  pub is_entrypoint : Bool
  pub decl : Option CfgFunctionDecl

-- A function of the LLVM module. `declared_at` is what `FunctionDecl::Create` and `DeclareFunction`
-- make of it at an address.
pub record LlFunction : Type 0 where
  pub attributes : LlAttributes
  pub has_local_linkage : Bool
  pub num_args : ℕ
  pub calling_conv : CallingConv
  pub declared_at : ℕ → Option ℕ

-- `gModule->getFunction`, and what `RecoverFunctionDecl` needs.
pub record Libraries : Type 0 where
  pub host : Host
  pub ll_function : Bytes → Option LlFunction

pub or_old : Option Bytes → Bytes → Bytes
or_old none old = old
or_old (some name) old = name

pub or_kept : Option ℕ → Option ℕ → Option ℕ
or_kept none kept = kept
or_kept (some decl) kept = some decl

pub ll_attributes : Option LlFunction → Option LlAttributes
ll_attributes none = none
ll_attributes (some ll) = some ll.attributes

-- `if (!func->decl && cfg_func->has_decl()) RecoverFunctionDecl(…)`
pub decl_if_missing :
    Libraries → (ea : ℕ) → (old : Option ℕ) → Option CfgFunctionDecl → Option LlFunction → Option ℕ
unfolding ll_attributes or_kept
decl_if_missing libs ea (some old) cfg ll = some old
decl_if_missing libs ea none none ll = none
decl_if_missing libs ea none (some cfg) ll =
    recover_function_decl libs.host ea cfg (ll_attributes ll)

-- A function that is declared again: it may become exported, then under the new name, and get a
-- declaration.
unfoldable pub export_again : CfgFunction → NativeFunction → NativeFunction
unfolding or_old
export_again cfg f =
    if not f.is_exported && cfg.is_entrypoint
    then record f { is_exported = true; name = or_old cfg.name f.name }
    else f

unfoldable pub redeclare : Libraries → CfgFunction → NativeFunction → NativeFunction
unfolding export_again decl_if_missing
redeclare libs cfg f = record (export_again cfg f) {
  decl = decl_if_missing libs f.ea f.decl cfg.decl none;
}

-- What a function of the LLVM module of the same name says.
unfoldable pub heed_linkage : Option LlFunction → Bool → Bool
heed_linkage none is_exported = is_exported
heed_linkage (some ll) is_exported = if ll.has_local_linkage then false else is_exported

pub decl_of_ll : Option LlFunction → (ea : ℕ) → (old : Option ℕ) → Option ℕ
unfolding or_kept
decl_of_ll none ea old = old
decl_of_ll (some ll) ea old = or_kept (ll.declared_at ea) old

-- A function at an address that has none yet.
unfoldable pub new_function : Libraries → CfgFunction → NativeFunction
unfolding or_old heed_linkage decl_of_ll decl_if_missing
new_function libs cfg =
    let name : Bytes = or_old cfg.name [] in
    let ll : Option LlFunction = libs.ll_function name in
    record {
      ea = cfg.ea;
      name = name;
      lifted_name = lifted_function_name cfg.ea cfg.name;
      is_external = false;
      is_exported = heed_linkage ll cfg.is_entrypoint;
      is_weak = false;
      num_args = 0;
      cc = c_conv;
      decl = decl_of_ll ll cfg.ea (decl_if_missing libs cfg.ea none cfg.decl ll);
    }

-- Put into the vector, the map and the names.
unfoldable pub enter_function : NativeFunction → Objects → Objects
enter_function f o = record o {
  next_id = suc o.next_id;
  functions = assign o.next_id f o.functions;
  ea_to_func = assign f.ea o.next_id o.ea_to_func;
  names = o.names ++ (f.name, f.ea) ∷ [];
}

-- The body of the loop, for what `TryGetFunction` finds.
unfoldable pub load_function :
    Libraries → CfgFunction → Option (ℕ × NativeFunction) → Objects → Checked Objects
unfolding redeclare new_function enter_function or_old
load_function libs cfg (some found) o =
    ok (record o { functions = assign found.0 (redeclare libs cfg found.1) o.functions })
load_function libs cfg none o =
    check (if cfg.is_entrypoint then not (is_empty (or_old cfg.name [])) else true)
      exported_without_name
    >> ok (enter_function (new_function libs cfg) o)

unfoldable pub load_functions : Libraries → List CfgFunction → Objects → Checked Objects
unfolding load_function
load_functions libs [] o = ok o
load_functions libs (cfg ∷ cfgs) o = do
  next ← load_function libs cfg (try_get_function o cfg.ea) o
  load_functions libs cfgs next
