-- ===== src/Dyninst/OffsetTables/Parsed.antt =====
-- The offset tables that `Parse` accepts (tools/mcsema_disass/dyninst/OffsetTable.cpp).
use mcsema.Prelude.{
  ℕ, ◌+◌, ◌-◌, ◌^◌, ◌%◌, ◌≤◌, ◌<◌, ◌≡◌, refl, subst, inl, inr, Bool, true, Option, none, some, List,
  [], ◌∷◌, arith, ltb, lt_cases, lt→ltb, le→ltb, ltb→lt, ltb→le, if_cases, Bool-cases, ◌==◌, length,
  add64, add64-eq, sub64,
}
use mcsema.Dyninst.Sections
use mcsema.Dyninst.Sections.{Section}
use mcsema.Dyninst.OffsetTables.{
  parse_table, OffsetTable, member, insert_entry, empty_table, not32, sign_extend, target_of,
  parse_words, keep_large, parse,
}
use mcsema.Dyninst.OffsetTables.Agree.{Built, insert_entry-Built, Below-mono}

-- The odd way of writing it adds the offset, as a signed number, to the start.
pub target_of_lem :
    (start_ea word : ℕ)
    → start_ea < 2 ^ 64
    → word < 2 ^ 32
    → target_of start_ea word ≡ add64 start_ea (sign_extend word)
unfolding target_of not32 sign_extend sub64 add64
target_of_lem start_ea word a w = elim (lt_cases word (2 ^ 31)) [
  | inl l ↦
      rw (le→ltb (2 ^ 32 - 1 - word) (2 ^ 31) (omega arith), lt→ltb word (2 ^ 31) l) (omega arith)
  | inr g ↦
      rw (lt→ltb (2 ^ 32 - 1 - word) (2 ^ 31) (omega arith), le→ltb word (2 ^ 31) g) (omega arith)
]

-- An entry of a parsed table: a word of the region that leads into the code.
pub IsJump : (is_code : ℕ → Bool) → (start_ea end_ea : ℕ) → ℕ × ℕ → Type 0
IsJump is_code start_ea end_ea x =
    (start_ea ≤ x.0) × (x.0 < end_ea) × (x.0 % 4 ≡ 0) × (is_code x.1 ≡ true)

abbrev pub IsBuilt : (is_code : ℕ → Bool) → (start_ea end_ea ea : ℕ) → OffsetTable → Type 0
IsBuilt is_code start_ea end_ea ea t = Built (IsJump is_code start_ea end_ea) ea t

none_not_ok : {t : OffsetTable} → none ≡ some t → ⊥
none_not_ok e = cc

some_eq : {t u : OffsetTable} → some t ≡ some u → t ≡ u
some_eq e = cc

IsJump-at :
    (is_code : ℕ → Bool) (start_ea end_ea it_ea target : ℕ)
    → start_ea ≤ it_ea
    → it_ea < end_ea
    → it_ea % 4 ≡ 0
    → is_code target ≡ true
    → IsJump is_code start_ea end_ea (it_ea, target)
unfolding IsJump
IsJump-at is_code start_ea end_ea it_ea target lo hi a c = (lo, hi, a, c)

further :
    (is_code : ℕ → Bool) (start_ea end_ea a b n : ℕ) (t : OffsetTable)
    → a ≤ b
    → IsBuilt is_code start_ea end_ea a t
    → IsBuilt is_code start_ea end_ea b (record t { start_ea = n })
further is_code start_ea end_ea a b n t l h = record {
  below = Below-mono a b t.entries l h.below;
  sorted = h.sorted;
  good = h.good;
  agree = h.agree;
}

parse_words-Built :
    (is_code : ℕ → Bool) (start_ea end_ea it_ea : ℕ) (words : List ℕ) (t u : OffsetTable)
    → end_ea + 8 < 2 ^ 64
    → start_ea ≤ it_ea
    → it_ea < end_ea + 4
    → it_ea % 4 ≡ 0
    → IsBuilt is_code start_ea end_ea it_ea t
    → parse_words is_code start_ea end_ea it_ea words t ≡ some u
    → IsBuilt is_code start_ea end_ea (end_ea + 4) u
unfolding parse_words
parse_words-Built is_code start_ea end_ea it_ea [] t u w lo hi a b e =
    elim (if_cases (ltb it_ea end_ea) none (some t) e) [
      | inl (go, e1) ↦ absurd (none_not_ok e1)
      | inr (stop, e1) ↦
          subst (IsBuilt is_code start_ea end_ea (end_ea + 4)) (some_eq e1)
            (further is_code start_ea end_ea it_ea (end_ea + 4) t.start_ea t (omega arith) b)
    ]
parse_words-Built is_code start_ea end_ea it_ea (word ∷ words) t u w lo hi a b e =
    let target : ℕ = target_of t.start_ea word in
    let next : add64 it_ea 4 ≡ it_ea + 4 = add64-eq it_ea 4 (omega arith) in
    elim (if_cases (ltb it_ea end_ea) _ _ e) [
      | inr (stop, e1) ↦
          subst (IsBuilt is_code start_ea end_ea (end_ea + 4)) (some_eq e1)
            (further is_code start_ea end_ea it_ea (end_ea + 4) t.start_ea t (omega arith) b)
      | inl (go, e1) ↦
          let inside : it_ea < end_ea = ltb→lt it_ea end_ea go in
          elim (if_cases (is_code target) _ _ e1) [
            | inl (code, e2) ↦
                parse_words-Built is_code start_ea end_ea (add64 it_ea 4) words
                  (insert_entry it_ea target t) u w (omega (arith, next)) (omega (arith, next))
                  (omega (arith, next))
                  (insert_entry-Built (IsJump is_code start_ea end_ea) it_ea (add64 it_ea 4) target
                    t (omega (arith, next))
                    (IsJump-at is_code start_ea end_ea it_ea target lo inside a code) b)
                  e2
            | inr (other, e2) ↦ elim (if_cases (target == start_ea) _ _ e2) [
              | inr (bad, e3) ↦ absurd (none_not_ok e3)
              | inl (skip, e3) ↦
                  parse_words-Built is_code start_ea end_ea (add64 it_ea 4) words
                    (record t { start_ea = add64 t.start_ea 4 }) u w (omega (arith, next))
                    (omega (arith, next)) (omega (arith, next))
                    (further is_code start_ea end_ea it_ea (add64 it_ea 4) (add64 t.start_ea 4) t
                      (omega (arith, next)) b)
                    e3
            ]
          ]
    ]

-- What `Parse` accepts.
pub record IsParsed (is_code : ℕ → Bool) (start_ea size : ℕ) (t : OffsetTable) : Type 0 where
  pub aligned : start_ea % 4 ≡ 0
  pub large : 3 ≤ length t.entries
  pub built : IsBuilt is_code start_ea (start_ea + size) (start_ea + size + 4) t

keep_inverts :
    (o : Option OffsetTable) (t : OffsetTable)
    → (elim o [ none ↦ none | some u ↦ keep_large u ]) ≡ some t
    → (o ≡ some t) × (3 ≤ length t.entries)
unfolding keep_large
keep_inverts none t e = absurd (none_not_ok e)
keep_inverts (some u) t e = elim (if_cases (ltb (length u.entries) 3) none (some u) e) [
  | inl (small, e1) ↦ absurd (none_not_ok e1)
  | inr (large, e1) ↦
      (e1, subst (λ v. 3 ≤ length v.entries) (some_eq e1) (ltb→le (length u.entries) 3 large))
]

parse_steps :
    (is_code : ℕ → Bool) (start_ea size : ℕ) (words : List ℕ) (t : OffsetTable)
    → parse is_code start_ea words size ≡ some t
    → (start_ea % 4 ≡ 0)
      × (parse_words is_code start_ea
            (add64 start_ea size)
            start_ea
            words
            (empty_table start_ea size)
          ≡ some t)
      × (3 ≤ length t.entries)
unfolding parse
parse_steps is_code start_ea size words t e = elim (if_cases (start_ea % 4 == 0) _ _ e) [
  | inr (odd, e1) ↦ absurd (none_not_ok e1)
  | inl (even, e1) ↦ let (made, large) = keep_inverts _ t e1 in (ground arith, made, large)
]

parse-IsParsed :
    (is_code : ℕ → Bool) (start_ea size : ℕ) (words : List ℕ) (t : OffsetTable)
    → start_ea + size + 8 < 2 ^ 64
    → parse is_code start_ea words size ≡ some t
    → IsParsed is_code start_ea size t
parse-IsParsed is_code start_ea size words t w e =
    let (aligned, made, large) = parse_steps is_code start_ea size words t e in
    let end : add64 start_ea size ≡ start_ea + size = add64-eq start_ea size (omega arith) in
    record {
      aligned = aligned;
      large = large;
      built =
          parse_words-Built is_code start_ea (start_ea + size) start_ea words
            (empty_table start_ea size) t w (omega arith) (omega arith) aligned empty
            (subst
              (λ n.
                parse_words is_code start_ea n start_ea words (empty_table start_ea size) ≡ some t)
              end made);
    }
  where
    empty : IsBuilt is_code start_ea (start_ea + size) start_ea (empty_table start_ea size)
    empty =
        unfold empty_table member in
        record { below = tt; sorted = tt; good = tt; agree = λ x. refl }

-- A table that Parse accepts starts at a multiple of four and has at least three entries. They are
-- in order, inside the region, each at a multiple of four, and lead into the section of the code; the
-- set of targets is that of the entries.
pub parse_table-IsParsed :
    (sections : List Section) (start_ea size : ℕ) (words : List ℕ) (t : OffsetTable)
    → start_ea + size + 8 < 2 ^ 64
    → parse_table sections start_ea words size ≡ some t
    → IsParsed (Sections.is_code sections) start_ea size t
unfolding parse_table
parse_table-IsParsed sections start_ea size words t w e =
    parse-IsParsed (Sections.is_code sections) start_ea size words t w e

-- There is no table without words.
pub parse_table_empty :
    (sections : List Section) (start_ea : ℕ)
    → start_ea < 2 ^ 64
    → parse_table sections start_ea [] 0 ≡ none
unfolding parse_table parse parse_words keep_large empty_table
parse_table_empty sections start_ea h =
    let end : add64 start_ea 0 ≡ start_ea = unfold add64 in omega (arith, h) in
    elim (Bool-cases (start_ea % 4 == 0)) [
      | inl e ↦ rw (e, end, le→ltb start_ea start_ea (omega arith)) refl
      | inr e ↦ rw (e) refl
    ]
