-- ===== src/Cfg/Loader/Variables.antt =====
-- The loop of `ReadProtoBuf` (mcsema/CFG/CFG.cpp) over the external variables, with `MergeVariables`.
use mcsema.Prelude.{
  ℕ, suc, Bool, true, false, ◌||◌, Option, none, some, List, [], ◌∷◌, max, and_then,
}
use mcsema.Prelude.Maps.{Map, find?, assign}
use mcsema.Cfg.Types.{NativeSegment, Checked, ok, ◌>>=◌}
use mcsema.Cfg.Names.{Bytes}
use mcsema.Cfg.Forward.{Forwards, forward_to}
use mcsema.Cfg.Objects.{NativeFunction, NativeVariable, Objects, look_up, try_get_function}
use mcsema.Cfg.Loader.Externals.{ByName, find_name, export_as, or_fuel, forward_older}

-- `ExternalVariable` of mcsema/CFG/CFG.proto.
pub record CfgExternalVariable : Type 0 where
  pub ea : ℕ
  pub name : Option Bytes
  pub size : ℕ
  pub is_weak : Bool
  pub is_thread_local : Bool

-- `MergeVariables`: the flags of an older variable go over to the new one.
unfoldable pub merge_variables : NativeVariable → Option NativeVariable → NativeVariable
merge_variables var none = var
merge_variables var (some old) = record var {
  is_exported = var.is_exported || old.is_exported;
  is_thread_local = var.is_thread_local || old.is_thread_local;
}

unfoldable pub new_external_segment :
    (id : ℕ) → (var : ℕ) → (name : Bytes) → (size : ℕ) → CfgExternalVariable → NativeSegment
new_external_segment id var name size cfg = record {
  id = id;
  ea = cfg.ea;
  size = size;
  padding = 0;
  name = name;
  lifted_name = name;
  is_external = true;
  is_exported = false;
  is_thread_local = cfg.is_thread_local;
  is_read_only = false;
  as_extern_var = some var;
  entries = [];
}

unfoldable pub new_external_variable :
    (segment : ℕ) → (name : Bytes) → (size : ℕ) → CfgExternalVariable → NativeVariable
new_external_variable segment name size cfg = record {
  ea = cfg.ea;
  name = name;
  lifted_name = name;
  segment = some segment;
  is_external = true;
  is_exported = false;
  is_thread_local = cfg.is_thread_local;
  is_weak = cfg.is_weak;
  size = size;
}

-- The variable of a segment that is defined again is forwarded, then the segment.
unfoldable pub forward_variable : (fuel : ℕ) → Option ℕ → (var : ℕ) → Forwards → Checked Forwards
unfolding or_fuel
forward_variable k none var f = ok f
forward_variable k (some old) var f = or_fuel (forward_to k f old var)

unfoldable pub forward_segment :
    (fuel : ℕ) → Option (ℕ × NativeSegment) → (segment var : ℕ) → Forwards → Checked Forwards
unfolding or_fuel forward_variable
forward_segment k none segment var f = ok f
forward_segment k (some old) segment var f =
    forward_variable k old.1.as_extern_var var f >>= λ g. or_fuel (forward_to k g old.0 segment)

-- What becomes of the old segment, and the larger of the sizes.
unfoldable pub replace_segment :
    Option (ℕ × NativeSegment) → (var : ℕ) → Map NativeSegment → Map NativeSegment
replace_segment none var segments = segments
replace_segment (some old) var segments =
    assign old.0 (record old.1 { as_extern_var = some var }) segments

pub larger_size : Option (ℕ × NativeSegment) → ℕ → ℕ
larger_size none size = size
larger_size (some old) size = max old.1.size size

pub variable_ea : Objects → ℕ → Option ℕ
variable_ea o id = and_then (find? id o.variables) (λ v. some v.ea)

pub older_variable : Objects → Option ℕ → Option NativeVariable
older_variable o none = none
older_variable o (some id) = find? id o.variables

-- The two objects, with their numbers `next_id` and `next_id + 1`.
unfoldable pub enter_external_variable :
    CfgExternalVariable
    → (name : Bytes) → (older : Option ℕ) → (old_segment : Option (ℕ × NativeSegment)) → Forwards
    → Objects
    → Objects
unfolding merge_variables older_variable new_external_segment new_external_variable replace_segment
    larger_size
enter_external_variable cfg name older old_segment forwards o =
    let size : ℕ = larger_size old_segment cfg.size in
    record o {
      next_id = suc (suc o.next_id);
      forwards = forwards;
      segments =
          assign o.next_id (new_external_segment o.next_id (suc o.next_id) name size cfg)
            (replace_segment old_segment (suc o.next_id) o.segments);
      ea_to_seg = assign cfg.ea o.next_id o.ea_to_seg;
      variables =
          assign (suc o.next_id)
            (merge_variables (new_external_variable o.next_id name size cfg)
              (older_variable o older))
            o.variables;
      ea_to_var = assign cfg.ea (suc o.next_id) o.ea_to_var;
    }

-- The body of the loop, for what `TryGetFunction` and the maps find.
unfoldable pub load_external_variable :
    (fuel : ℕ)
    → CfgExternalVariable
    → (name : Bytes) → Option (ℕ × NativeFunction)
    → ByName
    → Objects
    → Checked (Objects × ByName)
unfolding forward_segment variable_ea enter_external_variable
load_external_variable k cfg name (some found) by_name o =
    ok (record o { functions = assign found.0 (export_as name found.1) o.functions }, by_name)
load_external_variable k cfg name none by_name o = do
  let old_segment = look_up cfg.ea o.ea_to_seg o.segments
  let older = find_name name by_name
  redirected ← forward_segment k old_segment o.next_id (suc o.next_id) o.forwards
  forwards ← forward_older k older (suc o.next_id) cfg.ea (variable_ea o) redirected
  ok (
    enter_external_variable cfg name older old_segment forwards o,
    (name, suc o.next_id) ∷ by_name,
  )

unfoldable pub load_named_variable :
    (fuel : ℕ) → CfgExternalVariable → Option Bytes → ByName → Objects → Checked (Objects × ByName)
unfolding load_external_variable
load_named_variable k cfg none by_name o = ok (o, by_name)
load_named_variable k cfg (some name) by_name o =
    load_external_variable k cfg name (try_get_function o cfg.ea) by_name o

unfoldable pub load_each_variable :
    (fuel : ℕ) → List CfgExternalVariable → ByName → Objects → Checked (Objects × ByName)
unfolding load_named_variable
load_each_variable k [] by_name o = ok (o, by_name)
load_each_variable k (cfg ∷ cfgs) by_name o = do
  next ← load_named_variable k cfg cfg.name by_name o
  load_each_variable k cfgs next.1 next.0

-- The objects, and `name_to_extern_var`.
unfoldable pub load_external_variables :
    (fuel : ℕ) → List CfgExternalVariable → Objects → Checked (Objects × ByName)
unfolding load_each_variable
load_external_variables k cfgs o = load_each_variable k cfgs [] o
