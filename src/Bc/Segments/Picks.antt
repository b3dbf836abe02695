-- ===== src/Bc/Segments/Picks.antt =====
-- What an entry comes to where no CHECK fails, and its type (mcsema/BC/Segment.cpp,
-- `FillDataSegment`).
use mcsema.Prelude.{
  ℕ, ◌≤◌, ◌≡◌, refl, inl, inr, Bool, true, false, Option, none, some, arith, Bool-cases,
  if◌then◌else◌, ◌<◌, ◌*◌, ◌/◌, ◌%◌, ◌^◌, ◌≢◌, ◌&&◌, not, to_u32, eq_cases, ==_refl, ==_iff, ==_ne,
  lt→ltb,
}
use mcsema.Cfg.Types.{NativeXref, NativeBlob}
use mcsema.Bc.Segments.{
  EntryType, EntryValue, done, Objects, xref_bits, be_lazy, zero_value, bytes_value, address_value,
  is_narrow, blob_value, xref_value, Target, integer, byte_array, byte_pointer, xref_type,
  xref_target, same_entry_type, cast_type,
}

-- A value is one of the type: zeros are of every type, bytes fill their array, an address that is cut
-- is an integer of fewer bits than an address, and one that is not is a pointer.
abbrev pub IsOfType : (address_size : ℕ) → EntryValue → EntryType → Type 0
IsOfType address_size zero_value t = Unit
IsOfType address_size (bytes_value ea size) t = t ≡ byte_array size
IsOfType address_size (address_value target true) t =
    (bits : ℕ) × (t ≡ integer bits) × (bits < address_size)
IsOfType address_size (address_value target false) t = t ≡ byte_pointer

-- What the entries come to where no CHECK fails.
abbrev pub blob_pick : Objects → NativeBlob → EntryValue
blob_pick o b =
    if b.is_zero
    then zero_value
    else (if o.has_bytes b.ea b.size then bytes_value b.ea b.size else zero_value)

abbrev pub xref_pick :
    Objects
    → (force_embed : Bool) → (address_size : ℕ) → NativeXref
    → EntryValue × Option NativeXref
xref_pick o force_embed address_size x =
    if be_lazy o (xref_type address_size x) address_size x && not force_embed
    then (zero_value, some x)
    else (address_value (xref_target x) (is_narrow (xref_type address_size x) address_size x), none)

same_entry_type_refl : (t : EntryType) → same_entry_type t t ≡ true
unfolding same_entry_type
same_entry_type_refl (byte_array n) = ==_refl n
same_entry_type_refl byte_pointer = refl
same_entry_type_refl (integer n) = ==_refl n

pub blob_value-blob_pick :
    (o : Objects) (b : NativeBlob) → blob_value o (byte_array b.size) b ≡ done (blob_pick o b)
unfolding blob_value
blob_value-blob_pick o b = elim (Bool-cases b.is_zero) [
  | inl z ↦ rw z refl
  | inr s ↦ elim (Bool-cases (o.has_bytes b.ea b.size)) [
    | inl h ↦ rw (s, h, same_entry_type_refl (byte_array b.size)) refl
    | inr h ↦ rw (s, h) refl
  ]
]

bits_eq :
    (w address_size : ℕ) → address_size < 2 ^ 32 → w * 8 ≤ address_size → to_u32 (w * 8) ≡ w * 8
unfolding to_u32
bits_eq w address_size small h = omega arith

narrower :
    (w address_size : ℕ)
    → address_size % 8 ≡ 0
    → w * 8 ≤ address_size
    → w * 8 ≢ address_size
    → w < address_size / 8
narrower w address_size whole h ne = omega arith

-- The casts give the type of the entry.
cast_fits :
    (address_size : ℕ) (x : NativeXref)
    → address_size % 8 ≡ 0
    → address_size < 2 ^ 32
    → x.width * 8 ≤ address_size
    → cast_type (xref_type address_size x) address_size x ≡ done (xref_type address_size x)
unfolding xref_type xref_bits cast_type is_narrow
cast_fits address_size x whole small h =
    rw (bits_eq x.width address_size small h) (elim (eq_cases (x.width * 8) address_size) [
      | inl e ↦ rw ((==_iff (x.width * 8) address_size).1 e) refl
      | inr ne ↦
          rw
            (
              ==_ne (x.width * 8) address_size ne,
              lt→ltb x.width (address_size / 8) (narrower x.width address_size whole h ne),
            )
            refl
    ])

pub xref_value-xref_pick :
    (o : Objects) (force_embed : Bool) (address_size : ℕ) (x : NativeXref)
    → ((target : Target) → o.is_pointer target ≡ true)
    → address_size % 8 ≡ 0
    → address_size < 2 ^ 32
    → x.width * 8 ≤ address_size
    → xref_value o force_embed (xref_type address_size x) address_size x
      ≡ done (xref_pick o force_embed address_size x)
unfolding xref_value
xref_value-xref_pick o force_embed address_size x p whole small h =
    rw (p (xref_target x), cast_fits address_size x whole small h)
      (elim (Bool-cases (be_lazy o (xref_type address_size x) address_size x && not force_embed)) [
        | inl e ↦ rw e refl
        | inr e ↦ rw (e, same_entry_type_refl (xref_type address_size x)) refl
      ])

pub blob_pick-IsOfType :
    (o : Objects) (address_size : ℕ) (b : NativeBlob)
    → IsOfType address_size (blob_pick o b) (byte_array b.size)
blob_pick-IsOfType o address_size b = elim (Bool-cases b.is_zero) [
  | inl z ↦ rw z tt
  | inr s ↦ elim (Bool-cases (o.has_bytes b.ea b.size)) [
    | inl h ↦ rw (s, h) refl
    | inr h ↦ rw (s, h) tt
  ]
]

fewer_bits :
    (w address_size : ℕ) → w * 8 ≤ address_size → w * 8 ≢ address_size → w * 8 < address_size
fewer_bits w address_size h ne = omega arith

address_value-IsOfType :
    (address_size : ℕ) (x : NativeXref) (target : Target)
    → address_size % 8 ≡ 0
    → address_size < 2 ^ 32
    → x.width * 8 ≤ address_size
    → IsOfType address_size
        (address_value target (is_narrow (xref_type address_size x) address_size x))
        (xref_type address_size x)
unfolding xref_type xref_bits is_narrow
address_value-IsOfType address_size x target whole small h =
    rw (bits_eq x.width address_size small h) (elim (eq_cases (x.width * 8) address_size) [
      | inl e ↦ rw ((==_iff (x.width * 8) address_size).1 e) refl
      | inr ne ↦
          rw
            (
              ==_ne (x.width * 8) address_size ne,
              lt→ltb x.width (address_size / 8) (narrower x.width address_size whole h ne),
            )
            (x.width * 8, refl, fewer_bits x.width address_size h ne)
    ])

pub xref_pick-IsOfType :
    (o : Objects) (force_embed : Bool) (address_size : ℕ) (x : NativeXref)
    → address_size % 8 ≡ 0
    → address_size < 2 ^ 32
    → x.width * 8 ≤ address_size
    → IsOfType address_size (xref_pick o force_embed address_size x).0 (xref_type address_size x)
xref_pick-IsOfType o force_embed address_size x whole small h =
    elim (Bool-cases (be_lazy o (xref_type address_size x) address_size x && not force_embed)) [
      | inl e ↦ rw e tt
      | inr e ↦ rw e (address_value-IsOfType address_size x (xref_target x) whole small h)
    ]

pub bits_fit :
    (address_size : ℕ) (x : NativeXref)
    → address_size < 2 ^ 32
    → x.width * 8 ≤ address_size
    → xref_bits x ≤ address_size
unfolding xref_bits
bits_fit address_size x small h = rw (bits_eq x.width address_size small h) h
