-- ===== src/Bc/Segments/Size.antt =====
-- The size of the type of a data segment (mcsema/BC/Segment.cpp, `GetSegmentType`), for the entries
-- that the loader makes (mcsema/CFG/CFG.cpp).
use mcsema.Prelude.{
  none, ℕ, ◌+◌, ◌*◌, ◌^◌, ◌≤◌, ◌<◌, ◌≡◌, refl, sym, ◌∙◌, subst, ◌⊎◌, inl, inr, some, List, [], ◌∷◌,
  arith, ==_ne, ==_refl, eq_cases, All, add64, add64-eq, to_u32, to_u32-eq,
}
use mcsema.Cfg.Types.{NativeXref, NativeSegment, Entry, Entries}
use mcsema.Cfg.Partition.{ByteRange}
use mcsema.Cfg.Partition.Cover.{IsPartition}
use mcsema.Cfg.Partition.Bytes.{IsBlob}
use mcsema.Cfg.Partition.Order.{IsPartition-bound}
use mcsema.Cfg.Xrefs.Fit.{IsXrefEntry}
use mcsema.Bc.Segments.{
  EntryType, byte_array, byte_pointer, integer, done, xref_bits, xref_type, entry_type, entry_types,
  padding_type, struct_size, get_segment_type, make_segment_type,
}

-- The widths whose integer types are stored without padding.
abbrev pub IsWordWidth : ℕ → Type 0
IsWordWidth w = (w ≡ 1) ⊎ (w ≡ 2) ⊎ (w ≡ 4) ⊎ (w ≡ 8)

-- What LLVM's documented data layouts say of the types that occur.
pub record IsDataLayout (address_size : ℕ) (alloc_size : EntryType → ℕ) : Type 0 where
  pub of_array : (n : ℕ) → alloc_size (byte_array n) ≡ n
  pub of_pointer : alloc_size byte_pointer * 8 ≡ address_size
  pub of_word : (w : ℕ) → IsWordWidth w → alloc_size (integer (w * 8)) ≡ w

-- An entry whose type exists and takes the bytes of the entry.
Spans : (EntryType → ℕ) → ℕ → ℕ × Entry → Type 0
Spans alloc_size address_size x =
    (t : EntryType) × (entry_type address_size x.1.blob x.1.xref ≡ done t)
    × (x.1.ea + alloc_size t ≡ x.1.next_ea)

entry_types_step :
    (address_size : ℕ) (k : ℕ) (e : Entry) (es : Entries) (t : EntryType) (ts : List EntryType)
    → entry_type address_size e.blob e.xref ≡ done t
    → entry_types address_size es ≡ done ts
    → entry_types address_size ((k, e) ∷ es) ≡ done (t ∷ ts)
unfolding entry_types
entry_types_step address_size k e es t ts h hs = rw (h, hs)

word_bits : (x : NativeXref) → IsWordWidth x.width → xref_bits x ≡ x.width * 8
unfolding xref_bits
word_bits x w = to_u32-eq (x.width * 8) (omega (arith, w))

xref_type_size :
    (alloc_size : EntryType → ℕ) (address_size : ℕ) (x : NativeXref)
    → IsDataLayout address_size alloc_size
    → IsWordWidth x.width
    → alloc_size (xref_type address_size x) ≡ x.width
unfolding xref_type
xref_type_size alloc_size address_size x d w = elim (eq_cases (xref_bits x) address_size) [
  | inl e ↦ rw (e, ==_refl address_size) (omega (arith, d.of_pointer, word_bits x w))
  | inr ne ↦ rw (==_ne (xref_bits x) address_size ne, word_bits x w) (d.of_word x.width w)
]

-- A cross-reference of the loader's, of a word's width, is spanned.
abbrev pub HasWordXref : ℕ × Entry → Type 0
HasWordXref x = (r : NativeXref) × (x.1.xref ≡ some r) × IsWordWidth r.width

some_eq {ℓ} : {A : Type ℓ} {a b : A} → some a ≡ some b → a ≡ b
some_eq e = cc

-- A step that goes forward does not wrap around.
forward_add : (k w : ℕ) → IsWordWidth w → k < add64 k w → k + w ≡ add64 k w
unfolding add64
forward_add k w word l = omega (arith, word)

xref-Spans :
    (alloc_size : EntryType → ℕ) (address_size : ℕ) (x : ℕ × Entry)
    → IsDataLayout address_size alloc_size
    → IsXrefEntry x.0 x.1
    → HasWordXref x
    → x.0 < x.1.next_ea
    → Spans alloc_size address_size x
unfolding Spans entry_type
xref-Spans alloc_size address_size x d h (r, q, w) l =
    let b : alloc_size (xref_type address_size r) ≡ r.width =
      xref_type_size alloc_size address_size r d w in
    let ends : x.1.next_ea ≡ add64 x.0 r.width =
      subst (λ y. x.1.next_ea ≡ add64 x.0 y.width) (some_eq (sym h.holds ∙ q)) h.ends in
    (
      xref_type address_size r,
      rw (h.no_blob, q),
      rw (b, h.at_key) (forward_add x.0 r.width w (subst (λ n. x.0 < n) ends l) ∙ sym ends),
    )

blob-Spans :
    (alloc_size : EntryType → ℕ) (address_size : ℕ) (range : ByteRange) (k : ℕ) (b : Entry)
    → IsDataLayout address_size alloc_size
    → IsBlob range b
    → b.next_ea < b.ea + 2 ^ 32
    → Spans alloc_size address_size (k, b)
unfolding Spans entry_type to_u32
blob-Spans alloc_size address_size range k b d h l = (
  byte_array h.contents.size,
  rw h.holds,
  rw (d.of_array h.contents.size, h.sized) (omega (arith, h.ordered)),
)

-- What the loader fills a segment with.
unfoldable pub Cell : ByteRange → ℕ × Entry → Type 0
Cell range x = IsBlob range x.1 ⊎ IsXrefEntry x.0 x.1 × HasWordXref x

Cell-Spans :
    (alloc_size : EntryType → ℕ) (address_size : ℕ) (range : ByteRange) (k : ℕ) (e : Entry)
    → IsDataLayout address_size alloc_size
    → Cell range (k, e)
    → k < e.next_ea
    → e.ea ≡ k
    → e.next_ea < k + 2 ^ 32
    → Spans alloc_size address_size (k, e)
unfolding Cell
Cell-Spans alloc_size address_size range k e d (inl b) l a u =
    blob-Spans alloc_size address_size range k e d b (omega (arith, a))
Cell-Spans alloc_size address_size range k e d (inr (x, w)) l a u =
    xref-Spans alloc_size address_size (k, e) d x w l

-- The entries of a partition have types that add up to its length.
entry_types_span :
    (alloc_size : EntryType → ℕ) (address_size : ℕ) (range : ByteRange) (lo hi : ℕ) (es : Entries)
    → IsDataLayout address_size alloc_size
    → hi < lo + 2 ^ 32
    → IsPartition lo hi es
    → All (Cell range) es
    → (ts : List EntryType) × (entry_types address_size es ≡ done ts)
      × (lo + struct_size alloc_size ts ≡ hi)
unfolding struct_size Spans
entry_types_span alloc_size address_size range lo hi [] d u p s =
    ([], unfold entry_types in refl, omega (arith, p))
entry_types_span alloc_size address_size range lo hi ((k, e) ∷ es) d u p s =
    let bound : e.next_ea ≤ hi = IsPartition-bound e.next_ea hi es p.3 in
    let (t, h, w) =
      Cell-Spans alloc_size address_size range k e d s.0 (omega (arith, p)) (p.1 ∙ sym p.0)
        (omega (arith, p)) in
    let (ts, hs, ws) =
      entry_types_span alloc_size address_size range e.next_ea hi es d (omega (arith, p)) p.3 s.1 in
    (t ∷ ts, entry_types_step address_size k e es t ts h hs, omega (arith, p.1))

padded_size :
    (alloc_size : EntryType → ℕ) (address_size padding : ℕ) (ts : List EntryType)
    → IsDataLayout address_size alloc_size
    → struct_size alloc_size (padding_type padding ts) ≡ struct_size alloc_size ts + padding
unfolding padding_type struct_size
padded_size alloc_size address_size padding ts d = elim (eq_cases padding 0) [
  | inl e ↦ rw e (omega arith)
  | inr ne ↦ rw (==_ne padding 0 ne, d.of_array padding) (omega arith)
]

-- The type of a segment that its blobs and cross-references partition exists, and its size, padding
-- included, is that of the segment, so that the CHECK of the size passes.
pub get_segment_type_total :
    (alloc_size : EntryType → ℕ) (address_size : ℕ) (range : ByteRange) (seg : NativeSegment)
    → IsDataLayout address_size alloc_size
    → seg.size < 2 ^ 32
    → seg.size + seg.padding < 2 ^ 64
    → IsPartition seg.ea (seg.ea + seg.size) seg.entries
    → All (Cell range) seg.entries
    → (members : List EntryType) × (get_segment_type alloc_size none address_size seg
        ≡ done members)
      × (struct_size alloc_size members ≡ seg.size + seg.padding)
unfolding get_segment_type make_segment_type
get_segment_type_total alloc_size address_size range seg d z w p c =
    let (ts, h, total) =
      entry_types_span alloc_size address_size range seg.ea (seg.ea + seg.size) seg.entries d
        (omega arith) p c in
    let whole : struct_size alloc_size (padding_type seg.padding ts) ≡ seg.size + seg.padding =
      padded_size alloc_size address_size seg.padding ts d ∙ omega (arith, total) in
    (
      padding_type seg.padding ts,
      rw (h, whole, add64-eq seg.size seg.padding w, ==_refl (seg.size + seg.padding)),
      whole,
    )
