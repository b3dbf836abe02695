-- ===== src/Bc/Segments/Values.antt =====
-- The initial value of a data segment (mcsema/BC/Segment.cpp, `FillDataSegment`).
use mcsema.Prelude.{ℕ, ◌≡◌, Bool, true, false, some, List, [], All}
use mcsema.Cfg.Types.{NativeXref, NativeSegment}
use mcsema.Bc.Segments.{EntryType, EntryValue, done, Objects, fill_data_segment}
use mcsema.Bc.Segments.Lazy.{lazy_xrefs, AllOfType, IsUnshortened}

-- What FillDataSegment returns for a segment of type `members` that is not all zeros.
pub record HasValues (o : Objects) (force_embed : Bool) (address_size : ℕ) (seg : NativeSegment)
    (members : List EntryType) : Type 0 where
  pub values : List EntryValue
  pub inits : List NativeXref
  pub is_made : fill_data_segment o force_embed address_size seg members ≡ done (some values, inits)
  pub typed : AllOfType address_size values members
  pub unshortened : force_embed ≡ false → All IsUnshortened values
  pub forced : force_embed ≡ true → inits ≡ []
  pub unforced : force_embed ≡ false → inits ≡ lazy_xrefs o address_size seg.entries
