-- ===== src/Bc/Segments/Tests.antt =====
-- A segment of sixteen bytes at 0x1000 with a pointer at 0x1004, and how it is lifted
-- (mcsema/BC/Segment.cpp).
use mcsema.Prelude.{
  ℕ, ◌/◌, ◌≡◌, refl, inl, inr, Bool, true, false, none, some, List, [], ◌∷◌, arith, ltb, ◌==◌,
  if◌then◌else◌,
}
use mcsema.Cfg.Types.{NativeXref, NativeSegment, Entry, Entries, absolute_fixup, ok}
use mcsema.Cfg.Partition.{ByteRange}
use mcsema.Cfg.Xrefs.{DataReference, Lookups}
use mcsema.Cfg.Entries.{segment_entries}
use mcsema.Bc.Segments.{
  EntryType, byte_array, byte_pointer, integer, done, Objects, struct_size, get_segment_type,
  is_zero,
}
use mcsema.Bc.Segments.Size.{IsDataLayout}
use mcsema.Bc.Segments.Loaded.{loaded_segment_type}

-- A 64-bit layout.
abbrev alloc_size : EntryType → ℕ
alloc_size (byte_array n) = n
alloc_size byte_pointer = 8
alloc_size (integer bits) = bits / 8

alloc_size-IsDataLayout : IsDataLayout 64 alloc_size
alloc_size-IsDataLayout = record {
  of_array = λ n. refl;
  of_pointer = refl;
  of_word = λ w word. omega arith;
}

-- A function, number 7, at 0x2000, and a variable, number 9, at 0x3000.
abbrev lookups : Lookups
lookups = record {
  segment_at = λ ea. none;
  variable_at = λ ea. if ea == 0x3000 then some 9 else none;
  function_at = λ ea. if ea == 0x2000 then some 7 else none;
}

abbrev bytes_at : ByteRange
bytes_at = record { address = 0x1000; begin = λ i. if ltb i 12 then 0 else i }

-- A pointer to the function, and half a word that names the variable.
abbrev references : List DataReference
references =
    record { ea = 0x1004; width = 8; target_ea = 0x2000; target_fixup_kind = absolute_fixup }
    ∷ record { ea = 0x100c; width = 4; target_ea = 0x3000; target_fixup_kind = absolute_fixup }
    ∷ []

abbrev seg : Entries → NativeSegment
seg es = record {
  id = 3;
  ea = 0x1000;
  size = 16;
  padding = 16;
  name = [];
  lifted_name = [];
  is_external = false;
  is_exported = false;
  is_thread_local = false;
  is_read_only = false;
  as_extern_var = none;
  entries = es;
}

loaded_segment_type_example :
    (filled : Entries) × (members : List EntryType) × (segment_entries 8 lookups 3 references true
        (λ ea. false)
        bytes_at
        0x1000
        16
      ≡ ok filled)
    × (get_segment_type alloc_size none 64 (seg filled) ≡ done members)
    × (struct_size alloc_size members ≡ 32)
loaded_segment_type_example =
    loaded_segment_type alloc_size 64 8 lookups (seg []) references (λ ea. false) bytes_at
      alloc_size-IsDataLayout (omega arith) (omega arith) (omega arith)
      (omega arith, (omega arith, tt)) (inr (inr (inr refl)), (inr (inr (inl refl)), tt))
      ((omega arith, omega arith, omega arith), ((omega arith, omega arith, omega arith), tt))
      ((inl (omega arith), tt), (tt, tt))

abbrev blob_entry : ℕ → ℕ → ℕ → Bool → Entry
blob_entry ea next_ea size is_zero = record {
  ea = ea;
  next_ea = next_ea;
  xref = none;
  blob = some (record { ea = ea; size = size; is_zero = is_zero });
}

abbrev half_word : NativeXref
half_word = record {
  width = 4;
  fixup_kind = absolute_fixup;
  ea = 0x1004;
  target_ea = 0x3000;
  mask = 0;
  segment = 3;
  target_segment = none;
  var = some 9;
  func = none;
}

abbrev entries : Entries
entries =
    (0x1000, blob_entry 0x1000 0x1004 4 true)
    ∷ (0x1004, record { ea = 0x1004; next_ea = 0x1008; xref = some half_word; blob = none })
    ∷ (0x1008, blob_entry 0x1008 0x1010 8 false)
    ∷ []

abbrev types : List EntryType
types = byte_array 16 ∷ byte_array 4 ∷ integer 32 ∷ byte_array 8 ∷ []

abbrev objects : Objects
objects = record {
  variable_is_lazy = λ id. false;
  segment_is_lazy = λ id. false;
  has_bytes = λ ea size. true;
  is_pointer = λ target. true;
}
