-- ===== src/Cfg/Types.antt =====
-- The records of mcsema/CFG/CFG.h that a data segment is made of. An object (`NativeSegment`,
-- `NativeVariable`, `NativeFunction`) is named by its number, a null pointer is `none`.
use mcsema.Prelude.{List, ℕ, ◌≡◌, refl, Bool, Option}
use mcsema.Prelude.Maps.{Map}

pub data FixupKind : Type 0 where
  absolute_fixup thread_local_offset_fixup : FixupKind

-- `NativeXref`: a cross-reference from data.
pub record NativeXref : Type 0 where
  pub width : ℕ
  pub fixup_kind : FixupKind
  pub ea : ℕ
  pub target_ea : ℕ
  pub mask : ℕ
  pub segment : ℕ
  pub target_segment : Option ℕ
  pub var : Option ℕ
  pub func : Option ℕ

-- `NativeBlob`
pub record NativeBlob : Type 0 where
  pub ea : ℕ
  pub size : ℕ
  pub is_zero : Bool

-- `NativeSegment::Entry`
pub record Entry : Type 0 where
  pub ea : ℕ
  pub next_ea : ℕ
  pub xref : Option NativeXref
  pub blob : Option NativeBlob

abbrev pub Entries : Type 0
Entries = Map Entry

-- `NativeSegment`: `id` stands for its address as an object, `as_extern_var` is a variable.
pub record NativeSegment : Type 0 where
  pub id : ℕ
  pub ea : ℕ
  pub size : ℕ
  pub padding : ℕ
  pub name : List ℕ
  pub lifted_name : List ℕ
  pub is_external : Bool
  pub is_exported : Bool
  pub is_thread_local : Bool
  pub is_read_only : Bool
  pub as_extern_var : Option ℕ
  pub entries : Entries

-- The CHECKs of `ReadProtoBuf`, each of which ends the program; `out_of_fuel` is the model's own.
pub data Failure : Type 0 where
  unmapped_segment xref_too_wide partition_before_entry partition_of_segment null_segment : Failure
  exported_without_name duplicate_extern unsupported_xref_count killed_range : Failure
  out_of_fuel : Failure

pub data Checked {ℓ} (A : Type ℓ) : Type ℓ where
  ok : A → Checked A
  failed : Failure → Checked A

-- A CHECK that fails ends all that comes behind it.
infixl 5 ◌>>=◌ ◌>>◌
abbrev pub ◌>>=◌ {ι κ} :
    {Before : Type ι} {After : Type κ} → Checked Before → (Before → Checked After) → Checked After
ok value >>= next = next value
failed why >>= next = failed why

abbrev pub ◌>>◌ {κ} : {After : Type κ} → Checked (Unit {0}) → Checked After → Checked After
guard >> next = guard >>= λ passed. next

-- CHECK(b)
abbrev pub check : Bool → Failure → Checked (Unit {0})
check Bool.true e = ok tt
check Bool.false e = failed e

-- A chain of steps that ends well has a first step that did.
pub >>=-inverts {ι κ} :
    {Before : Type ι} {After : Type κ} (step : Checked Before) (next : Before → Checked After)
    {last : After}
    → (step >>= next) ≡ ok last
    → (value : Before) × (step ≡ ok value) × (next value ≡ ok last)
>>=-inverts (ok value) next passed = (value, refl, passed)
>>=-inverts (failed why) next passed = cc

pub ok-eq {ι} : {Value : Type ι} {left right : Value} → ok left ≡ ok right → left ≡ right
ok-eq same = cc
