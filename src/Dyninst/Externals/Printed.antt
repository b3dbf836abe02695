-- ===== src/Dyninst/Externals/Printed.antt =====
-- A line of the definitions file as it is written down, and what
-- tools/mcsema_disass/dyninst/ExternalFunctionManager.cpp reads from it.
use mcsema.Prelude.{
  ℕ, ◌^◌, ◌<◌, ◌≡◌, ◌≢◌, refl, sym, ◌∙◌, Bool, true, false, Option, none, some, [], ◌∷◌, ◌++◌, ◌==◌,
  All, same_text, lacks-All, zero, suc, arith, ==_ne, if_cases, true_not_false, inl, inr,
}
use mcsema.Dyninst.Externals.Definitions.{
  Text, CallingConvention, caller_cleanup, callee_cleanup, fast_call, ExternalFunction, defined,
  split_space, put_first, convention, no_return, finish, with_signature, parse_return,
  parse_convention, parse_tail, parse_number, parse_count, parse_symbol, is_data, is_skipped,
  parse_line, behind_two, first_chars,
}
use mcsema.Dyninst.Externals.Numbers.{decimal, stoi-decimal, All-decimal, IsDigit, IsDigit-bounds}

abbrev NotSpace : ℕ → Type 0
NotSpace c = c ≢ b' '

abbrev convention_letter : CallingConvention → ℕ
convention_letter caller_cleanup = b'C'
convention_letter callee_cleanup = b'E'
convention_letter fast_call = b'F'

abbrev return_letter : (has_return : Bool) → ℕ
return_letter true = b'N'
return_letter false = b'Y'

abbrev print_signature : Option Text → Text
print_signature none = []
print_signature (some signature) = b' ' ∷ signature

abbrev print_return : Bool → Option Text → Text
print_return has_return signature = return_letter has_return ∷ print_signature signature

abbrev print_convention : CallingConvention → Text → Text
print_convention how rest = convention_letter how ∷ b' ' ∷ rest

-- A definition as a line of the file.
abbrev pub print_definition : ExternalFunction → Text
print_definition f =
    f.symbol_name
    ++ b' '
      ∷ (decimal f.arg_count
          ++ b' ' ∷ print_convention f.cc (print_return f.has_return f.signature))

split_space-append : (s t : Text) → All NotSpace s → split_space (s ++ b' ' ∷ t) ≡ some (s, t)
unfolding split_space put_first
split_space-append [] t all = refl
split_space-append (c ∷ s) t all = rw (==_ne c 32 all.0, split_space-append s t all.1) refl

NotSpace-digits : (s : Text) → All IsDigit s → All NotSpace s
NotSpace-digits [] all = tt
NotSpace-digits (c ∷ s) all =
    ((λ e. omega (arith, IsDigit-bounds c all.0, e)), NotSpace-digits s all.1)

-- The name is not empty, begins no comment and no data, and holds no space.
abbrev pub IsName : Text → Type 0
IsName s = (is_skipped s ≡ false) × All NotSpace s

-- A text without a space is no beginning of one that goes on with a space.
same_text-first :
    (count : ℕ) (s t word : Text)
    → All NotSpace word
    → same_text (first_chars count s) word ≡ false
    → same_text (first_chars count (s ++ b' ' ∷ t)) word ≡ false
unfolding same_text first_chars
same_text-first zero s t word all h = h
same_text-first (suc count) [] t [] all h = refl
same_text-first (suc count) [] t (d ∷ word) all h = rw (==_ne 32 d (λ e. all.0 (sym e))) refl
same_text-first (suc count) (c ∷ s) t [] all h = refl
same_text-first (suc count) (c ∷ s) t (d ∷ word) all h = elim (if_cases (c == d) _ _ h) [
  | inl (e, h1) ↦ rw (e) (same_text-first count s t word all.1 h1)
  | inr (f, h1) ↦ rw (f) refl
]

data_NotSpace : All NotSpace (b'D' ∷ b'A' ∷ b'T' ∷ b'A' ∷ b':' ∷ [])
data_NotSpace = lacks-All b' ' (b'D' ∷ b'A' ∷ b'T' ∷ b'A' ∷ b':' ∷ []) refl

is_skipped-append : (s t : Text) → is_skipped s ≡ false → is_skipped (s ++ b' ' ∷ t) ≡ false
unfolding is_skipped is_data
is_skipped-append [] t h = cc
is_skipped-append (c ∷ s) t h = elim (if_cases (c == b'#') _ _ h) [
  | inl (e, h1) ↦ absurd (true_not_false h1)
  | inr (f, h1) ↦
      rw (f) (same_text-first 5 (c ∷ s) t (b'D' ∷ b'A' ∷ b'T' ∷ b'A' ∷ b':' ∷ []) data_NotSpace h1)
]

parse_return-printed :
    (name : Text) (how : CallingConvention) (count : ℕ) (has_return : Bool)
    (signature : Option Text)
    → parse_return name how count
        (return_letter has_return ∷ print_signature signature)
        (split_space (return_letter has_return ∷ print_signature signature))
      ≡ defined (record {
        symbol_name = name;
        cc = how;
        has_return = has_return;
        arg_count = count;
        is_weak = true;
        signature = signature;
        ea = 0;
        imag_ea = 0;
      })
unfolding parse_return finish with_signature no_return behind_two first_chars split_space put_first
    same_text
parse_return-printed name how count true none = refl
parse_return-printed name how count false none = refl
parse_return-printed name how count true (some signature) = refl
parse_return-printed name how count false (some signature) = refl

parse_tail-printed :
    (name : Text) (how : CallingConvention) (count : ℕ) (t : Text)
    → parse_tail name count
        (convention_letter how ∷ b' ' ∷ t)
        (split_space (convention_letter how ∷ b' ' ∷ t))
      ≡ parse_return name how count t (split_space t)
unfolding parse_tail parse_convention convention split_space put_first
parse_tail-printed name caller_cleanup count t = refl
parse_tail-printed name callee_cleanup count t = refl
parse_tail-printed name fast_call count t = refl

parse_line-name :
    (name rest : Text)
    → IsName name
    → parse_line (name ++ b' ' ∷ rest) ≡ parse_count name (split_space rest)
unfolding parse_line parse_symbol
parse_line-name name rest is_name =
    rw (is_skipped-append name rest is_name.0, split_space-append name rest is_name.1) refl

parse_count-decimal :
    (name rest : Text) (count : ℕ)
    → count < 2 ^ 31
    → parse_count name (split_space (decimal count ++ b' ' ∷ rest))
      ≡ parse_tail name count rest (split_space rest)
unfolding parse_count parse_number
parse_count-decimal name rest count h =
    rw
      (
        split_space-append (decimal count) rest
            (NotSpace-digits (decimal count) (All-decimal count)),
        stoi-decimal count h,
      )
      refl

-- A definition that is written down as a line of the file, with a name that begins no comment and
-- no data and holds no space, and with a count that an int32_t holds, is read back as it was: every
-- convention, returning or not, with and without a signature, which may hold spaces.
pub parse_line-print :
    (f : ExternalFunction)
    → IsName f.symbol_name
    → f.arg_count < 2 ^ 31
    → f.is_weak ≡ true
    → f.ea ≡ 0
    → f.imag_ea ≡ 0
    → parse_line (print_definition f) ≡ defined f
parse_line-print f name count weak ea imag =
    let returned = print_return f.has_return f.signature in
    let called = print_convention f.cc returned in
    parse_line-name f.symbol_name (decimal f.arg_count ++ b' ' ∷ called) name
    ∙ parse_count-decimal f.symbol_name called f.arg_count count
    ∙ parse_tail-printed f.symbol_name f.cc f.arg_count returned
    ∙ parse_return-printed f.symbol_name f.cc f.arg_count f.has_return f.signature
    ∙ rw (weak, ea, imag) refl
