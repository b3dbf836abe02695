-- ===== src/Dyninst/Externals/Numbers.antt =====
-- Decimal numbers, printed and read back by `std::stoi`
-- (tools/mcsema_disass/dyninst/ExternalFunctionManager.cpp).
use mcsema.Prelude.{
  ℕ, zero, suc, ◌+◌, ◌-◌, ◌*◌, ◌/◌, ◌%◌, ◌^◌, ◌<◌, ◌≤◌, ◌≡◌, refl, true, some, [], ◌∷◌, ◌++◌, ltb,
  if◌then◌else◌, All, arith, lt→ltb, le→ltb, lt_cases, ==_ne, ◌≢◌, false, inl, inr, ◌∙◌,
}
use mcsema.Dyninst.Externals.Definitions.{
  Text, stoi, skip_space, is_space, is_digit, read_digits, read_signed, unsigned_value,
  starts_with_digit, positive,
}

abbrev pub IsDigit : ℕ → Type 0
IsDigit c = is_digit c ≡ true

-- The decimal digits of a number; the fuel is spent on one digit each.
abbrev digits_of : (fuel : ℕ) → ℕ → Text
digits_of zero n = (b'0' + n % 10) ∷ []
digits_of (suc fuel) n =
    let rest = digits_of fuel (n / 10) in
    if ltb n 10 then (b'0' + n) ∷ [] else rest ++ (b'0' + n % 10) ∷ []

abbrev pub decimal : ℕ → Text
decimal n = digits_of n n

IsDigit-at : (d : ℕ) → d < 10 → IsDigit (b'0' + d)
unfolding is_digit
IsDigit-at d h = ground arith

All-snoc : (s : Text) (c : ℕ) → All IsDigit s → IsDigit c → All IsDigit (s ++ c ∷ [])
All-snoc [] c all one = (one, tt)
All-snoc (d ∷ s) c all one = (all.0, All-snoc s c all.1 one)

All-digits_of : (fuel n : ℕ) → All IsDigit (digits_of fuel n)
All-digits_of zero n = (IsDigit-at (n % 10) (omega arith), tt)
All-digits_of (suc fuel) n = elim (lt_cases n 10) [
  | inl l ↦ rw (lt→ltb n 10 l) (IsDigit-at n l, tt)
  | inr g ↦ rw (le→ltb n 10 g) (
      All-snoc (digits_of fuel (n / 10)) _ (All-digits_of fuel (n / 10))
        (IsDigit-at (n % 10) (omega arith)))
]

read_digits-snoc :
    (value : ℕ) (s : Text) (d : ℕ)
    → All IsDigit s
    → d < 10
    → read_digits value (s ++ (b'0' + d) ∷ []) ≡ read_digits value s * 10 + d
unfolding read_digits is_digit
read_digits-snoc value [] d all h = ground arith
read_digits-snoc value (c ∷ s) d all h =
    rw (all.0) (read_digits-snoc (value * 10 + (c - b'0')) s d all.1 h)

read_digits-digits_of : (fuel n : ℕ) → n ≤ fuel → read_digits 0 (digits_of fuel n) ≡ n
unfolding read_digits is_digit
read_digits-digits_of zero n h = ground arith
read_digits-digits_of (suc fuel) n h = elim (lt_cases n 10) [
  | inl l ↦ rw (lt→ltb n 10 l) (ground arith)
  | inr g ↦ rw (le→ltb n 10 g) (
      read_digits-snoc 0 (digits_of fuel (n / 10)) (n % 10) (All-digits_of fuel (n / 10))
        (omega arith)
      ∙ omega (arith, read_digits-digits_of fuel (n / 10) (omega arith)))
]

read_digits-decimal : (n : ℕ) → read_digits 0 (decimal n) ≡ n
read_digits-decimal n = read_digits-digits_of n n (omega arith)

-- A digit is neither white space nor a sign.
pub IsDigit-bounds : (c : ℕ) → IsDigit c → (48 ≤ c) × (c ≤ 57)
unfolding is_digit
IsDigit-bounds c one = ground arith

is_space-digit : (c : ℕ) → IsDigit c → is_space c ≡ false
unfolding is_digit is_space
is_space-digit c one = ground arith

unsigned_value-digit :
    (c : ℕ) (s : Text) → IsDigit c → unsigned_value (c ∷ s) ≡ some (read_digits 0 (c ∷ s))
unfolding unsigned_value starts_with_digit
unsigned_value-digit c s one = rw one refl

stoi_of :
    (c : ℕ) (s : Text) (n : ℕ)
    → IsDigit c
    → read_digits 0 (c ∷ s) ≡ n
    → n < 2 ^ 31
    → stoi (c ∷ s) ≡ some n
unfolding stoi skip_space read_signed positive
stoi_of c s n one same h =
    rw
      (
        is_space-digit c one,
        ==_ne c 45 (λ e. omega (arith, IsDigit-bounds c one)),
        ==_ne c 43 (λ e. omega (arith, IsDigit-bounds c one)),
        unsigned_value-digit c s one,
        same,
        lt→ltb n (2 ^ 31) h,
      )
      refl

stoi_digits :
    (s : Text) (n : ℕ) → All IsDigit s → s ≢ [] → read_digits 0 s ≡ n → n < 2 ^ 31 → stoi s ≡ some n
stoi_digits [] n all filled same h = absurd (filled refl)
stoi_digits (c ∷ s) n all filled same h = stoi_of c s n all.0 same h

snoc_filled : (s : Text) (c : ℕ) → s ++ c ∷ [] ≢ []
snoc_filled [] c e = cc
snoc_filled (d ∷ s) c e = cc

digits_of_filled : (fuel n : ℕ) → digits_of fuel n ≢ []
digits_of_filled zero n = snoc_filled [] (b'0' + n % 10)
digits_of_filled (suc fuel) n = elim (lt_cases n 10) [
  | inl l ↦ rw (lt→ltb n 10 l) (snoc_filled [] (b'0' + n))
  | inr g ↦ rw (le→ltb n 10 g) (snoc_filled (digits_of fuel (n / 10)) (b'0' + n % 10))
]

pub stoi-decimal : (n : ℕ) → n < 2 ^ 31 → stoi (decimal n) ≡ some n
stoi-decimal n h =
    stoi_digits (decimal n) n (All-digits_of n n) (digits_of_filled n n) (read_digits-decimal n) h

pub All-decimal : (n : ℕ) → All IsDigit (decimal n)
All-decimal n = All-digits_of n n
