-- ===== src/Cfg/Loader/Segments.antt =====
-- The loop of `ReadProtoBuf` (mcsema/CFG/CFG.cpp) over the segments and their variables, with
-- `UpdateVariable`.
use mcsema.Prelude.{
  ℕ, suc, Bool, true, false, ◌||◌, Option, none, some, List, [], ◌∷◌, ◌==◌, if◌then◌else◌,
}
use mcsema.Prelude.Maps.{assign}
use mcsema.Cfg.Types.{NativeSegment}
use mcsema.Cfg.Names.{Bytes, lifted_segment_name, lifted_var_name}
use mcsema.Cfg.Objects.{NativeFunction, NativeVariable, Objects, try_get_function, try_get_variable}
use mcsema.Cfg.Loader.Externals.{ByName, find_name}

-- `Variable` and `Segment` of mcsema/CFG/CFG.proto; of the data, its size.
pub record CfgVariable : Type 0 where
  pub ea : ℕ
  pub name : Option Bytes

pub record CfgSegment : Type 0 where
  pub ea : ℕ
  pub data_size : ℕ
  pub name : Option Bytes
  pub variable_name : Option Bytes
  pub read_only : Bool
  pub is_external : Bool
  pub is_exported : Bool
  pub is_thread_local : Bool
  pub vars : List CfgVariable

pub name_or_empty : Option Bytes → Bytes
name_or_empty none = []
name_or_empty (some name) = name

pub segment_name : (variable_name name : Option Bytes) → Bytes
unfolding name_or_empty
segment_name (some var) name = var
segment_name none name = name_or_empty name

unfoldable pub new_segment : (id : ℕ) → CfgSegment → NativeSegment
unfolding segment_name name_or_empty
new_segment id cfg = record {
  id = id;
  ea = cfg.ea;
  size = cfg.data_size;
  padding = 0;
  name = segment_name cfg.variable_name cfg.name;
  lifted_name =
      lifted_segment_name cfg.ea cfg.data_size (name_or_empty cfg.name) cfg.variable_name
        cfg.is_exported;
  is_external = cfg.is_external;
  is_exported = cfg.is_exported;
  is_thread_local = cfg.is_thread_local;
  is_read_only = cfg.read_only;
  as_extern_var = none;
  entries = [];
}

-- `UpdateVariable`
unfoldable pub update_variable :
    NativeVariable → (is_exported is_thread_local : Bool) → NativeVariable
update_variable var is_exported is_thread_local = record var {
  is_exported = var.is_exported || is_exported;
  is_thread_local = var.is_thread_local || is_thread_local;
}

unfoldable pub new_variable : (segment : ℕ) → CfgVariable → (name : Bytes) → NativeVariable
new_variable segment cfg name = record {
  ea = cfg.ea;
  name = name;
  lifted_name = lifted_var_name cfg.ea (some name);
  segment = some segment;
  is_external = false;
  is_exported = false;
  is_thread_local = false;
  is_weak = false;
  size = 0;
}

-- A variable at the start of the segment gives it its name.
unfoldable pub rename_segment : (ea : ℕ) → (name : Bytes) → NativeSegment → NativeSegment
rename_segment ea name seg = if ea == seg.ea then record seg { name = name } else seg

-- The body of the loop over the variables: what there is already at the address comes first. The
-- segment is not yet among the others.
unfoldable pub load_variable :
    (segment : ℕ)
    → CfgVariable
    → Option Bytes
    → Option (ℕ × NativeVariable)
    → Option (ℕ × NativeFunction)
    → NativeSegment
    → Objects
    → NativeSegment × Objects
unfolding update_variable new_variable rename_segment
load_variable id cfg name (some found) func seg o = (
  seg,
  record o {
    variables =
        assign found.0 (update_variable found.1 seg.is_exported seg.is_thread_local) o.variables;
  },
)
load_variable id cfg name none (some func) seg o = (seg, o)
load_variable id cfg none none none seg o = (seg, o)
load_variable id cfg (some name) none none seg o = (
  rename_segment cfg.ea name seg,
  record o {
    next_id = suc o.next_id;
    variables = assign o.next_id (new_variable id cfg name) o.variables;
    ea_to_var = assign cfg.ea o.next_id o.ea_to_var;
  },
)

unfoldable pub load_variables :
    (segment : ℕ) → List CfgVariable → NativeSegment → Objects → NativeSegment × Objects
unfolding load_variable
load_variables id [] seg o = (seg, o)
load_variables id (cfg ∷ cfgs) seg o =
    let next : NativeSegment × Objects =
      load_variable id cfg cfg.name (try_get_variable o cfg.ea) (try_get_function o cfg.ea) seg o in
    load_variables id cfgs next.0 next.1

unfoldable pub enter_segment : (id : ℕ) → NativeSegment → Objects → Objects
enter_segment id seg o = record o {
  segments = assign id seg o.segments;
  ea_to_seg = assign seg.ea id o.ea_to_seg;
}

unfoldable pub take_number : Objects → Objects
take_number o = record o { next_id = suc o.next_id }

unfoldable pub load_segment : CfgSegment → Objects → Objects
unfolding load_variables enter_segment new_segment take_number
load_segment cfg o =
    let loaded : NativeSegment × Objects =
      load_variables o.next_id cfg.vars (new_segment o.next_id cfg) (take_number o) in
    enter_segment o.next_id loaded.0 loaded.1

-- A segment that belongs to an external variable is passed over.
pub is_extern_name : ByName → Option Bytes → Bool
is_extern_name by_name none = false
is_extern_name by_name (some name) = elim (find_name name by_name) [ none ↦ false | some id ↦ true ]

unfoldable pub load_segments : ByName → List CfgSegment → Objects → Objects
unfolding is_extern_name load_segment
load_segments by_name [] o = o
load_segments by_name (cfg ∷ cfgs) o =
    load_segments by_name cfgs
      (if is_extern_name by_name cfg.variable_name then o else load_segment cfg o)
