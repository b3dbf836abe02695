-- ===== src/Dyninst/Parser/Ends.antt =====
-- The loop over a region, with enough fuel (tools/mcsema_disass/dyninst/SectionParser.cpp).
use mcsema.Prelude.{
  ℕ, zero, suc, ◌+◌, ◌-◌, ◌<◌, ◌≤◌, ◌≡◌, refl, sym, ap, subst, inl, inr, true, List, ◌==◌, add64,
  add64-eq, arith, Option-cases, lt_cases, lt→ltb, le→ltb, ==_iff,
}
use mcsema.Dyninst.Sections.{Region, Section}
use mcsema.Dyninst.Context.Written.{Wrote, WroteOne, Wrote-nothing, Wrote-one, Wrote-later}
use mcsema.Dyninst.Parser.{
  Memory, Parser, try_xref, Scanned, try_offset_table, Parsed, done, next_word, after_scan,
  after_xref, parse_variables,
}
use mcsema.Dyninst.Parser.Rounds.{
  Written, IsSmall, ScanEnd, nothing, behind_table, try_xref-Written, try_offset_table-ScanEnd,
  next_word_step,
}

module _ (sections : List Section) (r : Region) (memory : Memory) (segment : ℕ) (small : IsSmall r)
    (same_offset : memory.disk_offset ≡ r.mem_offset) where
  abbrev next_round : (k : ℕ) → Parser → (offset : ℕ) → Parsed
  next_round k q behind = parse_variables k sections r memory segment q behind

  -- What is left of the region is searched to its end.
  abbrev Searched : (k offset : ℕ) → Parser → Type 0
  Searched k offset p =
      (q : Parser) × (parse_variables k sections r memory segment p offset ≡ done q)
      × Wrote p.context q.context (r.mem_offset + offset) (r.mem_offset + r.mem_size)

  abbrev SearchedFrom : (k : ℕ) → Type 0
  SearchedFrom k =
      (offset : ℕ) (p : Parser)
      → r.mem_size - offset < k
      → offset ≤ r.mem_size + 8
      → Searched k offset p

  after_Written :
      (offset : ℕ) (p q out : Parser)
      → offset < r.mem_size
      → Written p.context q.context (add64 r.mem_offset offset)
      → Wrote q.context out.context (r.mem_offset + (offset + 8)) (r.mem_offset + r.mem_size)
      → Wrote p.context out.context (r.mem_offset + offset) (r.mem_offset + r.mem_size)
  after_Written offset p q out l (inr e) rest =
      Wrote-later p.context q.context out.context (r.mem_offset + offset)
        (r.mem_offset + (offset + 8)) (r.mem_offset + r.mem_size) e (omega arith) rest
  after_Written offset p q out l (inl one) rest =
      let at : add64 r.mem_offset offset ≡ r.mem_offset + offset =
        add64-eq r.mem_offset offset (omega (arith, l, small.end)) in
      let further : r.mem_offset + (offset + 8) ≡ r.mem_offset + offset + 8 = omega arith in
      Wrote-one p.context q.context out.context (r.mem_offset + offset) (r.mem_offset + r.mem_size)
        (subst (λ a. WroteOne p.context q.context a) at one) (omega (arith, l))
        (subst (λ a. Wrote q.context out.context a (r.mem_offset + r.mem_size)) further rest)

  after_scan_Searched :
      (k offset : ℕ) (p : Parser) (s : Scanned)
      → SearchedFrom k
      → offset < r.mem_size
      → r.mem_size - offset < suc k
      → ScanEnd r p offset s
      → (q : Parser) × (after_scan s (next_round k) p offset ≡ done q)
        × Wrote p.context q.context (r.mem_offset + offset) (r.mem_offset + r.mem_size)
  after_scan_Searched k offset p s rest l h (nothing e) =
      let (low, high) = next_word_step sections r memory small offset l in
      let (out, ends, wrote) =
        rest (next_word 3 (add64 offset 1)) p (omega (arith, h, low, l)) (omega (arith, high, l)) in
      (
        out,
        rw (e) ends,
        Wrote-later p.context p.context out.context (r.mem_offset + offset)
            (r.mem_offset + next_word 3 (add64 offset 1)) (r.mem_offset + r.mem_size) refl
            (omega (arith, low)) wrote,
      )
  after_scan_Searched k offset p s rest l h (behind_table q behind e same low high) =
      let (out, ends, wrote) = rest behind q (omega (arith, h, low, l)) (omega (arith, high)) in
      (
        out,
        rw (e) ends,
        Wrote-later p.context q.context out.context (r.mem_offset + offset) (r.mem_offset + behind)
            (r.mem_offset + r.mem_size) same (omega (arith, low)) wrote,
      )

  parse_variables_round :
      (k offset : ℕ) (p : Parser) (out : Parsed)
      → offset < r.mem_size
      → after_xref
          (try_xref sections r memory segment offset p)
          (next_round k)
          offset
          (after_scan (try_offset_table (suc k) sections r memory offset p) (next_round k) p offset)
        ≡ out
      → parse_variables (suc k) sections r memory segment p offset ≡ out
  unfolding parse_variables
  parse_variables_round k offset p out inside e =
      let same : (add64 r.mem_offset offset == add64 memory.disk_offset offset) ≡ true =
        (==_iff _ _).1 (ap (λ start. add64 start offset) (sym same_offset)) in
      rw (lt→ltb offset r.mem_size inside, same) e

  parse_variables_from : (k : ℕ) → SearchedFrom k
  unfolding parse_variables
  parse_variables_from zero offset p h l = absurd (omega (arith, h))
  parse_variables_from (suc k) offset p h l = elim (lt_cases offset r.mem_size) [
    | inr behind ↦ (
      p,
      rw (le→ltb offset r.mem_size behind) refl,
      Wrote-nothing p.context p.context (r.mem_offset + offset) (r.mem_offset + r.mem_size) refl,
    )
    | inl inside ↦ elim (Option-cases (try_xref sections r memory segment offset p)) [
      | inr (q, e) ↦
          let sum : add64 offset 8 ≡ offset + 8 =
            add64-eq offset 8 (omega (arith, inside, small.size)) in
          let (out, ends, wrote) =
            parse_variables_from k (offset + 8) q (omega (arith, h, inside))
              (omega (arith, inside)) in
          (
            out,
            parse_variables_round k offset p (done out) inside
                (rw (e) (subst (λ a. next_round k q a ≡ done out) (sym sum) ends)),
            after_Written offset p q out inside
                (try_xref-Written sections r memory segment offset p q e) wrote,
          )
      | inl e ↦
          let (out, ends, wrote) =
            after_scan_Searched k offset p _ (parse_variables_from k) inside h
              (try_offset_table-ScanEnd sections r memory small (suc k) offset p inside h) in
          (out, parse_variables_round k offset p (done out) inside (rw (e) ends), wrote)
    ]
  ]

-- In a region of less than 4 GB that does not wrap around, with the same offset in memory as on
-- disk, the search for cross-references and tables ends, with fuel for each byte and one more. The
-- references that it adds to the segments have eight bytes each, start inside the region, and stand
-- in order and apart from one another; none that were there are touched.
pub parse_variables_lem :
    (sections : List Section) (r : Region) (memory : Memory) (segment : ℕ) (p : Parser)
    → IsSmall r
    → memory.disk_offset ≡ r.mem_offset
    → (q : Parser) × (parse_variables (suc r.mem_size) sections r memory segment p 0 ≡ done q)
      × Wrote p.context q.context r.mem_offset (r.mem_offset + r.mem_size)
parse_variables_lem sections r memory segment p small same_offset =
    let (out, ends, wrote) =
      parse_variables_from sections r memory segment small same_offset (suc r.mem_size) 0 p
        (omega arith) (omega arith) in
    let start : r.mem_offset + 0 ≡ r.mem_offset = omega arith in
    (out, ends, subst (λ a. Wrote p.context out.context a (r.mem_offset + r.mem_size)) start wrote)
