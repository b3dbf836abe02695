-- ===== src/Cfg/Names/Address.antt =====
-- The address can be read back from a lifted name, so objects at different addresses have different
-- names (mcsema/CFG/CFG.cpp).
use native.Mathlib.Nat.{pow-suc}
use mcsema.Prelude.{
  ℕ, zero, suc, ◌+◌, ◌-◌, ◌*◌, ◌/◌, ◌%◌, ◌^◌, ◌<◌, ◌≡◌, refl, sym, ◌∙◌, ap, Bool, true, ◌&&◌, ◌||◌,
  Option, none, some, inl, inr, [], ◌∷◌, ◌++◌, arith, ltb, leb, if◌then◌else◌, Bool-cases, lt_cases,
  lt→ltb, le→ltb,
}
use mcsema.Cfg.Names.{
  Bytes, sane_name, hex_digit, hex_onto, to_hex, name_suffix, lifted_function_name, lifted_var_name,
  external_func_name,
}

-- A lower-case hexadecimal digit, and its value.
is_hex : ℕ → Bool
is_hex c = (leb b'0' c && leb c b'9') || (leb b'a' c && leb c b'f')

hex_value : ℕ → ℕ
hex_value c = if leb c b'9' then c - b'0' else c + 10 - b'a'

-- The number that the text starts with.
read_hex : ℕ → Bytes → ℕ
read_hex acc [] = acc
read_hex acc (c ∷ cs) =
    let rest : ℕ = read_hex (acc * 16 + hex_value c) cs in if is_hex c then rest else acc

hex_digit_lem : (d : ℕ) → d < 16 → (is_hex (hex_digit d) ≡ true) × (hex_value (hex_digit d) ≡ d)
unfolding is_hex hex_value hex_digit
hex_digit_lem d h = (ground arith, ground arith)

read_hex-digit :
    (acc d : ℕ) (cs : Bytes) → d < 16 → read_hex acc (hex_digit d ∷ cs) ≡ read_hex (acc * 16 + d) cs
unfolding read_hex
read_hex-digit acc d cs h = rw ((hex_digit_lem d h).0, (hex_digit_lem d h).1)

read_hex-hex_onto :
    (k n : ℕ) (acc : Bytes) → n < 16 ^ k → read_hex 0 (hex_onto k n acc) ≡ read_hex n acc
unfolding hex_onto
read_hex-hex_onto zero n acc h = ap (λ z. read_hex z acc) (omega arith)
read_hex-hex_onto (suc k) n acc h = elim (lt_cases n 16) [
  | inl small ↦
      rw (lt→ltb n 16 small) (read_hex-digit 0 n acc small ∙ ap (λ z. read_hex z acc) (omega arith))
  | inr big ↦ rw (le→ltb n 16 big) (
      read_hex-hex_onto k (n / 16) (hex_digit (n % 16) ∷ acc) (omega (arith, pow-suc 16 k))
      ∙ read_hex-digit (n / 16) (n % 16) acc (omega arith)
      ∙ ap (λ z. read_hex z acc) (omega arith))
]

hex_onto-append :
    (k n : ℕ) (acc rest : Bytes) → hex_onto k n acc ++ rest ≡ hex_onto k n (acc ++ rest)
unfolding hex_onto
hex_onto-append zero n acc rest = refl
hex_onto-append (suc k) n acc rest = elim (Bool-cases (ltb n 16)) [
  | inl t ↦ rw t
  | inr t ↦ rw t (hex_onto-append k (n / 16) (hex_digit (n % 16) ∷ acc) rest)
]

-- Text that does not go on with a hexadecimal digit.
abbrev Ends : Bytes → Type 0
Ends rest = (n : ℕ) → read_hex n rest ≡ n

read_hex-to_hex :
    (n : ℕ) (rest : Bytes) → n < 2 ^ 64 → Ends rest → read_hex 0 (to_hex n ++ rest) ≡ n
unfolding to_hex
read_hex-to_hex n rest h e =
    ap (read_hex 0) (hex_onto-append 16 n [] rest) ∙ read_hex-hex_onto 16 n rest (omega arith) ∙ e n

to_hex_injective :
    (a b : ℕ) (r s : Bytes)
    → a < 2 ^ 64
    → b < 2 ^ 64
    → Ends r
    → Ends s
    → to_hex a ++ r ≡ to_hex b ++ s
    → a ≡ b
to_hex_injective a b r s ha hb er es h =
    sym (read_hex-to_hex a r ha er) ∙ ap (read_hex 0) h ∙ read_hex-to_hex b s hb es

Ends-underscore : (rest : Bytes) → Ends (b'_' ∷ rest)
unfolding read_hex is_hex
Ends-underscore rest n = refl

Ends-name_suffix : (name : Option Bytes) → Ends (name_suffix name)
unfolding name_suffix
Ends-name_suffix none n = unfold read_hex in refl
Ends-name_suffix (some name) n = Ends-underscore (sane_name name) n

tail : Bytes → Bytes
tail [] = []
tail (c ∷ cs) = cs

-- Functions at different addresses have different lifted names, whatever they are called; so have
-- variables, and external functions.
pub lifted_names_injective :
    (a b : ℕ) (m n : Option Bytes) (x y : Bytes)
    → a < 2 ^ 64
    → b < 2 ^ 64
    → (lifted_function_name a m ≡ lifted_function_name b n → a ≡ b)
      × (lifted_var_name a m ≡ lifted_var_name b n → a ≡ b)
      × (external_func_name a x ≡ external_func_name b y → a ≡ b)
unfolding lifted_function_name lifted_var_name external_func_name tail
lifted_names_injective a b m n x y ha hb = (
  λ h.
      to_hex_injective a b _ _ ha hb (Ends-name_suffix m) (Ends-name_suffix n)
        (ap (λ (z : Bytes). tail (tail (tail (tail z)))) h),
  λ h.
      to_hex_injective a b _ _ ha hb (Ends-name_suffix m) (Ends-name_suffix n)
        (ap (λ (z : Bytes). tail (tail (tail (tail (tail z))))) h),
  λ h.
      to_hex_injective a b _ _ ha hb (Ends-underscore (sane_name x)) (Ends-underscore (sane_name y))
        (ap (λ (z : Bytes). tail (tail (tail (tail z)))) h),
)
