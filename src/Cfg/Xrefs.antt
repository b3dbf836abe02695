-- ===== src/Cfg/Xrefs.antt =====
-- `ReadProtoBuf` of mcsema/CFG/CFG.cpp, "Fill in the cross-reference entries for each segment", with
-- `ResolveReference`. The proto's signed addresses are read as the words that the code casts them
-- to.
pub mod Fit
pub mod Placement
pub mod Entered
pub mod Widths
use mcsema.Prelude.{
  ℕ, Bool, true, false, Option, none, some, List, [], ◌∷◌, leb, if◌then◌else◌, add64,
}
use mcsema.Prelude.Maps.{find?, assign}
use mcsema.Cfg.Types.{
  FixupKind, NativeXref, NativeBlob, Entry, Entries, Checked, ok, failed, ◌>>=◌, ◌>>◌, check,
  xref_too_wide,
}

-- `DataReference` of mcsema/CFG/CFG.proto.
pub record DataReference : Type 0 where
  pub ea : ℕ
  pub width : ℕ
  pub target_ea : ℕ
  pub target_fixup_kind : FixupKind

-- What the stage asks of the module: `TryGetSegment`, `TryGetVariable`, `TryGetFunction`.
pub record Lookups : Type 0 where
  pub segment_at : ℕ → Option ℕ
  pub variable_at : ℕ → Option ℕ
  pub function_at : ℕ → Option ℕ

-- The variable at the target, or else the function, or else only the segment.
pub pick_target : (variable function : Option ℕ) → NativeXref → NativeXref × Bool
pick_target (some var) function xref = (record xref { func = none; var = some var }, true)
pick_target none (some func) xref = (record xref { func = some func; var = none }, true)
pick_target none none xref = (
  record xref { func = none; var = none },
  elim xref.target_segment [ some seg ↦ true | none ↦ false ],
)

-- The xref with its target filled in, and whether it has one.
pub resolve_reference : Lookups → NativeXref → NativeXref × Bool
unfolding pick_target
resolve_reference l xref =
    pick_target (l.variable_at xref.target_ea) (l.function_at xref.target_ea) xref

pub new_xref : Lookups → (segment : ℕ) → DataReference → NativeXref
new_xref l segment ref = record {
  width = ref.width;
  fixup_kind = ref.target_fixup_kind;
  ea = ref.ea;
  target_ea = ref.target_ea;
  mask = 0;
  segment = segment;
  target_segment = l.segment_at ref.target_ea;
  var = none;
  func = none;
}

-- The three writes to `auto &entry = segment->entries[xref->ea]`, with the blob that it holds.
unfoldable pub xref_entry : NativeXref → Option NativeBlob → Entry
xref_entry xref blob = record {
  ea = xref.ea;
  next_ea = add64 xref.ea xref.width;
  xref = some xref;
  blob = blob;
}

pub old_blob : Option Entry → Option NativeBlob
old_blob none = none
old_blob (some entry) = entry.blob

pub put_xref : NativeXref → Entries → Entries
unfolding xref_entry old_blob
put_xref xref entries = assign xref.ea (xref_entry xref (old_blob (find? xref.ea entries))) entries

-- One round of the loop, after the CHECK.
pub add_reference : Lookups → (segment : ℕ) → DataReference → Entries → Entries
unfolding resolve_reference new_xref put_xref
add_reference l segment ref entries =
    let (xref, found) = resolve_reference l (new_xref l segment ref) in
    if found then put_xref xref entries else entries

unfoldable pub fill_xrefs :
    (pointer_size : ℕ) → Lookups → (segment : ℕ) → List DataReference → Entries → Checked Entries
unfolding add_reference
fill_xrefs pointer_size l segment [] entries = ok entries
fill_xrefs pointer_size l segment (ref ∷ refs) entries =
    check (leb ref.width pointer_size) xref_too_wide
    >> fill_xrefs pointer_size l segment refs (add_reference l segment ref entries)
