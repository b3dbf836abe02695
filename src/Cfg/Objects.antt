-- ===== src/Cfg/Objects.antt =====
-- The objects of a `NativeModule` (mcsema/CFG/CFG.h) as `ReadProtoBuf` of mcsema/CFG/CFG.cpp builds
-- them: functions, variables and segments, each kept under its number, and the maps from addresses to
-- them. An external function or variable has the fields of both its classes.
pub mod Indexed
pub mod Lookups
pub mod Segments
use mcsema.Prelude.{
  ℕ, suc, ◌+◌, Bool, true, false, ◌&&◌, Option, none, some, List, [], ◌∷◌, ltb, leb, ◌==◌,
  if◌then◌else◌, and_then, add64, same_text,
}
use mcsema.Prelude.Maps.{Map, find?, assign}
use mcsema.Cfg.Types.{NativeSegment}
use mcsema.Cfg.Names.{Bytes}
use mcsema.Cfg.Forward.{Forwards, get, fresh_forwards}

-- `llvm::CallingConv::ID`, as far as the loader chooses it; `other` is one that a library gives.
pub data CallingConv : Type 0 where
  c_conv x86_std_call x86_fast_call win64 x86_64_sys_v : CallingConv
  other : ℕ → CallingConv

-- `NativeFunction`, `NativeExternalFunction`
pub record NativeFunction : Type 0 where
  pub ea : ℕ
  pub name : Bytes
  pub lifted_name : Bytes
  pub is_external : Bool
  pub is_exported : Bool
  pub is_weak : Bool
  pub num_args : ℕ
  pub cc : CallingConv
  pub decl : Option ℕ

-- `NativeVariable`, `NativeExternalVariable`
pub record NativeVariable : Type 0 where
  pub ea : ℕ
  pub name : Bytes
  pub lifted_name : Bytes
  pub segment : Option ℕ
  pub is_external : Bool
  pub is_exported : Bool
  pub is_thread_local : Bool
  pub is_weak : Bool
  pub size : ℕ

-- `next_id` is the number of the next object, `names` the calls of `AddNameToAddress`.
pub record Objects : Type 0 where
  pub next_id : ℕ
  pub forwards : Forwards
  pub functions : Map NativeFunction
  pub variables : Map NativeVariable
  pub segments : Map NativeSegment
  pub ea_to_func : Map ℕ
  pub ea_to_var : Map ℕ
  pub ea_to_seg : Map ℕ
  pub names : List (Bytes × ℕ)

unfoldable pub no_objects : Objects
unfolding fresh_forwards
no_objects = record {
  next_id = 0;
  forwards = fresh_forwards;
  functions = [];
  variables = [];
  segments = [];
  ea_to_func = [];
  ea_to_var = [];
  ea_to_seg = [];
  names = [];
}

-- The object that a map has under an address, with its number.
unfoldable pub look_up {ℓ} : {A : Type ℓ} → ℕ → (index : Map ℕ) → (objects : Map A) → Option (ℕ × A)
look_up ea index objects =
    and_then (find? ea index) (λ id. and_then (find? id objects) (λ object. some (id, object)))

-- `TryGetFunction`, `TryGetVariable`
unfoldable pub try_get_function : Objects → ℕ → Option (ℕ × NativeFunction)
try_get_function o ea = look_up ea o.ea_to_func o.functions

unfoldable pub try_get_variable : Objects → ℕ → Option (ℕ × NativeVariable)
try_get_variable o ea = look_up ea o.ea_to_var o.variables

-- The loops of `TryGetSegment` over the vector of segments: one that has the name is followed to what
-- stands for it, and for an address each is followed before it is asked. The forwarding pointers that `Get` shortens are
-- handed on.
unfoldable pub segment_named :
    (fuel : ℕ) → Forwards → Bytes → List (ℕ × NativeSegment) → Option (Forwards × Option ℕ)
segment_named k f name [] = some (f, none)
segment_named k f name ((id, seg) ∷ segs) =
    let rest = segment_named k f name segs in
    if same_text name seg.lifted_name
    then and_then (get k f id) (λ got. some (got.0, some got.1))
    else rest

pub has_address : ℕ → NativeSegment → Bool
has_address ea seg = leb seg.ea ea && ltb ea (add64 seg.ea seg.size)

pub holds_address : ℕ → Option NativeSegment → Bool
unfolding has_address
holds_address ea none = false
holds_address ea (some seg) = has_address ea seg

unfoldable pub segment_at :
    (fuel : ℕ)
    → Forwards
    → (all : Map NativeSegment) → (ea : ℕ) → List (ℕ × NativeSegment)
    → Option (Forwards × Option ℕ)
unfolding holds_address
segment_at k f all ea [] = some (f, none)
segment_at k f all ea ((id, seg) ∷ segs) = and_then (get k f id) (λ got.
    if holds_address ea (find? got.1 all)
    then some (got.0, some got.1)
    else segment_at k got.0 all ea segs)
