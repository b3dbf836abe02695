-- ===== src/Bc/Segments.antt =====
-- The LLVM type and the initial value of a data segment: `IsZero`, `GetSegmentType` and
-- `FillDataSegment` of mcsema/BC/Segment.cpp. LLVM's data layout, the module's objects and anvill's
-- bytes are parameters. A constant is described by what it is made from.
pub mod Size
pub mod Loaded
pub mod Picks
pub mod Lazy
pub mod Values
mod Tests
use mcsema.Prelude.{
  ℕ, ◌+◌, ◌*◌, ◌/◌, ◌≡◌, Bool, true, false, ◌&&◌, ◌||◌, not, Option, none, some, List, [], ◌∷◌, ltb,
  leb, ◌==◌, if◌then◌else◌, length, add64, to_u32,
}
use mcsema.Cfg.Types.{NativeXref, NativeBlob, Entry, Entries, NativeSegment}

-- A CHECK or LOG(FATAL) of Segment.cpp that ends the program.
pub data Fault : Type 0 where
  empty_entry size_mismatch xref_too_wide type_mismatch not_a_pointer missing_type : Fault

pub data Lifted {ℓ} (A : Type ℓ) : Type ℓ where
  done : A → Lifted A
  fault : Fault → Lifted A

-- Nothing comes behind a fault.
infixl 5 ◌>>=◌
abbrev pub ◌>>=◌ {ι κ} : {A : Type ι} {B : Type κ} → Lifted A → (A → Lifted B) → Lifted B
done made >>= rest = rest made
fault why >>= rest = fault why

-- `[n x i8]`, `i8 *`, `iN`.
pub data EntryType : Type 0 where
  byte_array : ℕ → EntryType
  byte_pointer : EntryType
  integer : ℕ → EntryType

-- `IsZero`
pub is_zero_entry : Entry → Bool
is_zero_entry entry = elim entry.blob [ none ↦ false | some blob ↦ blob.is_zero ]

pub is_zero : Entries → Bool
unfolding is_zero_entry
is_zero [] = true
is_zero ((key, entry) ∷ entries) = is_zero_entry entry && is_zero entries

-- `entry.xref->width * 8`, in 32 bits.
pub xref_bits : NativeXref → ℕ
xref_bits xref = to_u32 (xref.width * 8)

-- The type of one entry of a segment, for an address size in bits.
pub xref_type : (address_size : ℕ) → NativeXref → EntryType
unfolding xref_bits
xref_type address_size xref =
    if xref_bits xref == address_size then byte_pointer else integer (xref_bits xref)

pub entry_type :
    (address_size : ℕ) → (blob : Option NativeBlob) (xref : Option NativeXref) → Lifted EntryType
unfolding xref_type
entry_type address_size (some blob) xref = done (byte_array blob.size)
entry_type address_size none (some xref) = done (xref_type address_size xref)
entry_type address_size none none = fault empty_entry

pub entry_types : (address_size : ℕ) → Entries → Lifted (List EntryType)
unfolding entry_type
entry_types address_size [] = done []
entry_types address_size ((key, entry) ∷ entries) = do
  type ← entry_type address_size entry.blob entry.xref
  types ← entry_types address_size entries
  done (type ∷ types)

pub padding_type : ℕ → List EntryType → List EntryType
padding_type padding types = if padding == 0 then types else byte_array padding ∷ types

-- The size of the packed structure: `alloc_size` is the data layout's size of a member.
pub struct_size : (EntryType → ℕ) → List EntryType → ℕ
struct_size alloc_size [] = 0
struct_size alloc_size (type ∷ types) = alloc_size type + struct_size alloc_size types

-- `GetSegmentType`, where no type of the segment's name exists yet.
pub make_segment_type :
    (EntryType → ℕ) → (address_size : ℕ) → NativeSegment → Lifted (List EntryType)
unfolding entry_types padding_type struct_size
make_segment_type alloc_size address_size seg = do
  types ← entry_types address_size seg.entries
  let members = padding_type seg.padding types
  if struct_size alloc_size members == add64 seg.size seg.padding
      then done members
      else fault size_mismatch

-- `GetSegmentType`: `existing` is what `getTypeByName` finds.
pub get_segment_type :
    (EntryType → ℕ)
    → (existing : Option (List EntryType)) → (address_size : ℕ) → NativeSegment
    → Lifted (List EntryType)
unfolding make_segment_type
get_segment_type alloc_size (some members) address_size seg = done members
get_segment_type alloc_size none address_size seg = make_segment_type alloc_size address_size seg

-- Where the address in an entry comes from. A function or a variable is the one that the entry
-- names, not yet followed by `Get`.
pub data Target : Type 0 where
  function_target : ℕ → Target
  variable_target : ℕ → Target
  segment_target : ℕ → (ea : ℕ) → Target
  plain_target : (ea : ℕ) → Target

-- The constant for an entry: zeros, the bytes of the binary, or an address, cut to the entry's
-- width if that is less than an address.
pub data EntryValue : Type 0 where
  zero_value : EntryValue
  bytes_value : (ea size : ℕ) → EntryValue
  address_value : Target → (truncated : Bool) → EntryValue

-- What the function asks of the module: whether the object that stands for one is external or
-- thread-local, whether `FindBytes` finds all the bytes, and whether the constant that `Pointer` or
-- `LiftXrefInData` gives for a target is a pointer.
pub record Objects : Type 0 where
  pub variable_is_lazy : ℕ → Bool
  pub segment_is_lazy : ℕ → Bool
  pub has_bytes : (ea size : ℕ) → Bool
  pub is_pointer : Target → Bool

pub pick_value : (func var target_segment : Option ℕ) → (target_ea : ℕ) → Target
pick_value (some func) var seg ea = function_target func
pick_value none (some var) seg ea = variable_target var
pick_value none none (some seg) ea = segment_target seg ea
pick_value none none none ea = plain_target ea

pub xref_target : NativeXref → Target
unfolding pick_value
xref_target xref = pick_value xref.func xref.var xref.target_segment xref.target_ea

-- `be_lazy`, before the type of the entry is looked at.
pub target_is_lazy : Objects → Target → Bool
target_is_lazy o (function_target func) = false
target_is_lazy o (variable_target var) = o.variable_is_lazy var
target_is_lazy o (segment_target seg ea) = o.segment_is_lazy seg
target_is_lazy o (plain_target ea) = false

-- The address is cut: `entry_type->isIntegerTy()` and `(gArch->address_size / 8) > xref->width`.
pub is_narrow : EntryType → (address_size : ℕ) → NativeXref → Bool
is_narrow (integer bits) address_size xref = ltb xref.width (address_size / 8)
is_narrow byte_pointer address_size xref = false
is_narrow (byte_array n) address_size xref = false

pub be_lazy : Objects → EntryType → (address_size : ℕ) → NativeXref → Bool
unfolding xref_target target_is_lazy is_narrow
be_lazy o type address_size xref =
    target_is_lazy o (xref_target xref) || is_narrow type address_size xref

-- `val->getType() == entry_type`
pub same_entry_type : EntryType → EntryType → Bool
same_entry_type (byte_array n) (byte_array m) = n == m
same_entry_type byte_pointer byte_pointer = true
same_entry_type (integer n) (integer m) = n == m
same_entry_type _ _ = false

pub blob_value : Objects → EntryType → NativeBlob → Lifted EntryValue
unfolding same_entry_type
blob_value o type blob =
    if blob.is_zero
    then done zero_value
    else if o.has_bytes blob.ea blob.size
    then if same_entry_type (byte_array blob.size) type
      then done (bytes_value blob.ea blob.size)
      else fault type_mismatch
    else done zero_value

-- The type of the address after the casts: an integer, cut or of the word type, or a pointer of the
-- entry's type; `CHECK(entry_type->isPointerTy())`.
pub cast_type : EntryType → (address_size : ℕ) → NativeXref → Lifted EntryType
unfolding is_narrow
cast_type (integer bits) address_size xref =
    done (if is_narrow (integer bits) address_size xref then integer bits else integer address_size)
cast_type byte_pointer address_size xref = done byte_pointer
cast_type (byte_array n) address_size xref = fault not_a_pointer

-- The value of an entry, and the cross-reference that `LazyInitXRef` is called for, if it is. The
-- null value in place of a lazy one has the type of the entry.
pub xref_value :
    Objects
    → (force_embed : Bool) → EntryType
    → (address_size : ℕ) → NativeXref
    → Lifted (EntryValue × Option NativeXref)
unfolding be_lazy cast_type same_entry_type
xref_value o force_embed type address_size xref =
    if o.is_pointer (xref_target xref)
    then (cast_type type address_size xref >>= λ cast.
        if be_lazy o type address_size xref && not force_embed
        then done (zero_value, some xref)
        else if same_entry_type cast type
        then done (address_value (xref_target xref) (is_narrow type address_size xref), none)
        else fault type_mismatch)
    else fault not_a_pointer

pub entry_value :
    Objects
    → (force_embed : Bool) → EntryType
    → (address_size : ℕ) → Option NativeBlob
    → Option NativeXref
    → Lifted (EntryValue × Option NativeXref)
unfolding blob_value xref_value xref_bits
entry_value o force_embed type address_size (some blob) xref =
    blob_value o type blob >>= λ value. done (value, none)
entry_value o force_embed type address_size none (some xref) =
    if leb (xref_bits xref) address_size
    then xref_value o force_embed type address_size xref
    else fault xref_too_wide
entry_value o force_embed type address_size none none = fault empty_entry

pub add_init : Option NativeXref → List NativeXref → List NativeXref
add_init none inits = inits
add_init (some xref) inits = xref ∷ inits

-- The loop over the entries: the values, and the calls of `LazyInitXRef` in order. Each entry has
-- the next of the contained types, `getContainedType(i++)`, which asserts that there is one.
pub entry_values :
    Objects
    → (force_embed : Bool) → (address_size : ℕ) → Entries
    → List EntryType
    → Lifted (List EntryValue × List NativeXref)
unfolding entry_value add_init
entry_values o force_embed address_size [] types = done ([], [])
entry_values o force_embed address_size (entry ∷ entries) [] = fault missing_type
entry_values o force_embed address_size ((key, entry) ∷ entries) (type ∷ types) =
    entry_value o force_embed type address_size entry.blob entry.xref >>= λ first.
    entry_values o force_embed address_size entries types >>= λ rest.
    done (first.0 ∷ rest.0, add_init first.1 rest.1)

pub padding_value : ℕ → List EntryValue → List EntryValue
padding_value padding values = if padding == 0 then values else zero_value ∷ values

-- The types of the entries, behind that of the padding.
pub but_first : List EntryType → List EntryType
but_first [] = []
but_first (type ∷ types) = types

pub behind_padding : ℕ → List EntryType → List EntryType
unfolding but_first
behind_padding padding members = if padding == 0 then members else but_first members

-- `FillDataSegment` for the type of the segment: `none` is one zero for the whole segment.
pub fill_data_segment :
    Objects
    → (force_embed : Bool) → (address_size : ℕ) → NativeSegment
    → (members : List EntryType) → Lifted (Option (List EntryValue) × List NativeXref)
unfolding is_zero entry_values padding_value behind_padding
fill_data_segment o force_embed address_size seg members =
    if is_zero seg.entries
    then done (none, [])
    else (entry_values o force_embed address_size seg.entries (behind_padding seg.padding members)
        >>= λ made. done (some (padding_value seg.padding made.0), made.1))
