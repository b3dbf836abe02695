-- ===== src/Dyninst/Parser/Rounds.antt =====
-- The rounds of the loop over a region (tools/mcsema_disass/dyninst/SectionParser.cpp).
use mcsema.Prelude.{
  ℕ, zero, suc, ◌+◌, ◌-◌, ◌^◌, ◌%◌, ◌<◌, ◌≤◌, ◌≡◌, refl, sym, subst, inl, inr, ◌⊎◌, true, ◌&&◌, not,
  Option, none, some, List, [], ◌∷◌, ◌++◌, ◌==◌, add64, add64-eq, arith, Bool-cases, eq_cases,
  lt_cases, lt→ltb, le→ltb, if_cases, none_not_some, some_eq,
}
use mcsema.Dyninst.Sections.{Region, Section, is_code, is_in_region, is_in_binary}
use mcsema.Dyninst.OffsetTables.{OffsetTable}
use mcsema.Dyninst.OffsetTables.Parsed.{parse_table_empty}
use mcsema.Dyninst.Context.{DisassContext, handle_data_xref}
use mcsema.Dyninst.Context.Written.{WroteOne, write_and_account-WroteOne, handle_data_xref-WroteOne}
use mcsema.Dyninst.Parser.{
  Memory, Parser, cross_xref, write_unnamed, other_xref, handled, try_xref, scanned_ea, scan_table,
  words_at, table_at, Scanned, no_table, table, push_table, scanned_table, try_offset_table,
  next_word,
}

-- A round of `TryXref` that succeeds writes a reference at its address, or nothing.
abbrev pub Written : DisassContext → DisassContext → (ea : ℕ) → Type 0
Written before after ea = WroteOne before after ea ⊎ (after.written ≡ before.written)

module _ (sections : List Section) (r : Region) (memory : Memory) (segment : ℕ) where
  other_xref-Written :
      (ea target_ea : ℕ) (p q : Parser)
      → other_xref sections r ea target_ea segment p ≡ some q
      → Written p.context q.context ea
  unfolding other_xref write_unnamed cross_xref
  other_xref-Written ea target_ea p q e = elim (if_cases (is_in_region (some r) target_ea) _ _ e) [
    | inl (inside, e1) ↦
        subst (λ (w : Parser). Written p.context w.context ea) (some_eq e1)
          (inl (write_and_account-WroteOne _ p.context))
    | inr (outside, e1) ↦
        elim (if_cases (not (target_ea == 0) && is_in_binary sections target_ea) _ _ e1) [
          | inl (elsewhere, e2) ↦
              subst (λ (w : Parser). Written p.context w.context ea) (some_eq e2) (inr refl)
          | inr (nowhere, e2) ↦ absurd (none_not_some e2)
        ]
  ]

  handled-Written :
      (ea target_ea : ℕ) (found : Option DisassContext) (p q : Parser)
      → handle_data_xref (cross_xref ea target_ea segment []) p.context ≡ found
      → handled found p (other_xref sections r ea target_ea segment p) ≡ some q
      → Written p.context q.context ea
  unfolding handled cross_xref
  handled-Written ea target_ea none p q e h = other_xref-Written ea target_ea p q h
  handled-Written ea target_ea (some context) p q e h =
      subst (λ (w : Parser). Written p.context w.context ea) (some_eq h)
        (inl (handle_data_xref-WroteOne _ p.context context e))

  pub try_xref-Written :
      (offset : ℕ) (p q : Parser)
      → try_xref sections r memory segment offset p ≡ some q
      → Written p.context q.context (add64 r.mem_offset offset)
  unfolding try_xref
  try_xref-Written offset p q e = elim (if_cases (offset % 8 == 0) _ _ e) [
    | inl (aligned, e1) ↦
        handled-Written (add64 r.mem_offset offset) (memory.word64 offset) _ p q refl e1
    | inr (odd, e1) ↦ absurd (none_not_some e1)
  ]

-- The region is smaller than 4 GB, and it and the space behind it do not wrap around.
pub record IsSmall (r : Region) : Type 0 where
  pub size : r.mem_size + 8 < 2 ^ 32
  pub end : r.mem_offset + r.mem_size + 8 < 2 ^ 64

-- What `TryOffsetTable` leaves: no table, or the offset behind one.
pub data ScanEnd (r : Region) (p : Parser) (offset : ℕ) (s : Scanned) : Type 0 where
  nothing : s ≡ no_table → ScanEnd r p offset s
  behind_table :
      (q : Parser) (behind : ℕ)
      → s ≡ table q behind
      → q.context.written ≡ p.context.written
      → offset < behind
      → behind ≤ r.mem_size + 4
      → ScanEnd r p offset s

module _ (sections : List Section) (r : Region) (memory : Memory) (small : IsSmall r) where
  scan_table_more :
      (k ea offset size out : ℕ)
      → is_code sections (scanned_ea ea (memory.word32 (offset + size))) ≡ true
      → size + offset < r.mem_size
      → scan_table k sections r memory ea offset ((size + 4) % 2 ^ 32) ≡ some out
      → scan_table (suc k) sections r memory ea offset size ≡ some out
  unfolding scan_table
  scan_table_more k ea offset size out code inside found =
      let sum : add64 size offset ≡ size + offset =
        add64-eq size offset (omega (arith, inside, small.size)) in
      rw (code, sum, lt→ltb (size + offset) r.mem_size inside) found

  scan_table_ends :
      (k ea offset size : ℕ)
      → r.mem_size - (offset + size) < k
      → offset + size ≤ r.mem_size + 4
      → (out : ℕ) × (scan_table k sections r memory ea offset size ≡ some out)
        × (offset + out ≤ r.mem_size + 4)
  unfolding scan_table
  scan_table_ends zero ea offset size h l = absurd (omega (arith, h))
  scan_table_ends (suc k) ea offset size h l =
      let sum : add64 size offset ≡ size + offset =
        add64-eq size offset (omega (arith, l, small.size)) in
      elim (Bool-cases (is_code sections (scanned_ea ea (memory.word32 (offset + size))))) [
        | inr e ↦ (size, rw (e) refl, l)
        | inl e ↦ elim (lt_cases (size + offset) r.mem_size) [
          | inr behind ↦ (size, rw (e, sum, le→ltb (size + offset) r.mem_size behind) refl, l)
          | inl inside ↦
              let next : (size + 4) % 2 ^ 32 ≡ size + 4 = omega (arith, inside, small.size) in
              let (out, found, last) =
                scan_table_ends k ea offset ((size + 4) % 2 ^ 32) (omega (arith, h, inside, next))
                  (omega (arith, inside, next)) in
              (out, scan_table_more k ea offset size out e inside found, last)
        ]
      ]

  push_table-ScanEnd :
      (t : Option OffsetTable) (offset size : ℕ) (p : Parser)
      → (size ≡ 0 → t ≡ none)
      → offset + size ≤ r.mem_size + 4
      → ScanEnd r p offset (push_table t offset size p)
  unfolding push_table
  push_table-ScanEnd none offset size p h l = nothing refl
  push_table-ScanEnd (some t) offset size p h l =
      let sum : add64 offset size ≡ offset + size =
        add64-eq offset size (omega (arith, l, small.size)) in
      elim (eq_cases size 0) [
        | inl e ↦ absurd (none_not_some (sym (h e)))
        | inr ne ↦
            behind_table (record p { offset_tables = p.offset_tables ++ t ∷ [] })
              (add64 offset size) refl refl (omega (arith, sum, ne)) (omega (arith, sum, l))
      ]

  table_at_empty :
      (offset size : ℕ)
      → offset < r.mem_size
      → size ≡ 0
      → table_at sections r memory offset size ≡ none
  unfolding table_at words_at
  table_at_empty offset size l e =
      let sum : add64 r.mem_offset offset ≡ r.mem_offset + offset =
        add64-eq r.mem_offset offset (omega (arith, l, small.end)) in
      rw (e)
        (parse_table_empty sections (add64 r.mem_offset offset) (omega (arith, sum, l, small.end)))

  pub try_offset_table-ScanEnd :
      (k offset : ℕ) (p : Parser)
      → offset < r.mem_size
      → r.mem_size - offset < k
      → ScanEnd r p offset (try_offset_table k sections r memory offset p)
  unfolding try_offset_table scanned_table
  try_offset_table-ScanEnd k offset p l h = elim (Bool-cases (offset % 4 == 0)) [
    | inr e ↦ nothing (rw (e) refl)
    | inl e ↦
        let (size, found, last) =
          scan_table_ends k (add64 r.mem_offset offset) offset 0 (omega (arith, h))
            (omega (arith, l)) in
        rw (e, found)
          (push_table-ScanEnd (table_at sections r memory offset size) offset size p
            (table_at_empty offset size l) last)
  ]

  next_word-bounds :
      (rounds offset : ℕ)
      → offset + rounds < 2 ^ 64
      → (offset ≤ next_word rounds offset) × (next_word rounds offset ≤ offset + rounds)
  unfolding next_word
  next_word-bounds zero offset h = (omega arith, omega arith)
  next_word-bounds (suc rounds) offset h =
      let sum : add64 offset 1 ≡ offset + 1 = add64-eq offset 1 (omega (arith, h)) in
      let (low, high) = next_word-bounds rounds (offset + 1) (omega (arith, h)) in
      elim (Bool-cases (offset % 4 == 0)) [
        | inl e ↦ rw (e) (omega arith, omega arith)
        | inr e ↦ rw (e, sum) (omega (arith, low), omega (arith, high))
      ]

  -- Four bytes further, at the next word.
  pub next_word_step :
      (offset : ℕ)
      → offset < r.mem_size
      → (offset < next_word 3 (add64 offset 1)) × (next_word 3 (add64 offset 1) ≤ offset + 4)
  next_word_step offset l =
      let sum : add64 offset 1 ≡ offset + 1 = add64-eq offset 1 (omega (arith, l, small.size)) in
      let (low, high) = next_word-bounds 3 (add64 offset 1) (omega (arith, sum, l, small.size)) in
      (omega (arith, low, sum), omega (arith, high, sum))
