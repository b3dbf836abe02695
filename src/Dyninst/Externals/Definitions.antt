-- ===== src/Dyninst/Externals/Definitions.antt =====
-- One line of the file of external functions: `ExternalFunctionManager::AddExternalSymbol` of
-- tools/mcsema_disass/dyninst/ExternalFunctionManager.cpp.
use mcsema.Prelude.{
  ℕ, zero, suc, ◌+◌, ◌-◌, ◌*◌, ◌^◌, ◌%◌, Bool, true, false, ◌&&◌, ◌||◌, not, Option, none, some,
  List, [], ◌∷◌, ltb, leb, ◌==◌, if◌then◌else◌, same_text,
}

abbrev pub Text : Type 0
Text = List ℕ

pub data CallingConvention : Type 0 where
  caller_cleanup callee_cleanup fast_call : CallingConvention

-- `ExternalFunction`; `arg_count` is an `int32_t` as its bit pattern.
pub record ExternalFunction : Type 0 where
  pub symbol_name : Text
  pub cc : CallingConvention
  pub has_return : Bool
  pub arg_count : ℕ
  pub is_weak : Bool
  pub signature : Option Text
  pub ea : ℕ
  pub imag_ea : ℕ

-- What ends the program: LOG(FATAL), or an exception of the standard library.
pub data Mistake : Type 0 where
  ill_formed no_convention unknown_convention unknown_return : Mistake
  bad_number bad_signature : Mistake

pub data Line : Type 0 where
  skipped : Line
  defined : ExternalFunction → Line
  fatal : Mistake → Line

-- `rest.find(' ')`, and the parts before and behind the space.
unfoldable pub put_first : ℕ → Option (Text × Text) → Option (Text × Text)
put_first c none = none
put_first c (some (before, behind)) = some (c ∷ before, behind)

unfoldable pub split_space : Text → Option (Text × Text)
unfolding put_first
split_space [] = none
split_space (c ∷ s) =
    let rest = put_first c (split_space s) in if c == b' ' then some ([], s) else rest

-- `std::stoi`: white space, a sign, and digits up to what is none. Without a digit, and out of
-- range, it throws.
unfoldable pub is_space : ℕ → Bool
is_space c = c == b' ' || (leb 9 c && leb c 13)

unfoldable pub skip_space : Text → Text
unfolding is_space
skip_space [] = []
skip_space (c ∷ s) = let rest = skip_space s in if is_space c then rest else c ∷ s

unfoldable pub is_digit : ℕ → Bool
is_digit c = leb b'0' c && leb c b'9'

unfoldable pub read_digits : (value : ℕ) → Text → ℕ
unfolding is_digit
read_digits value [] = value
read_digits value (c ∷ s) =
    let rest = read_digits (value * 10 + (c - b'0')) s in if is_digit c then rest else value

unfoldable pub starts_with_digit : Text → Bool
unfolding is_digit
starts_with_digit [] = false
starts_with_digit (c ∷ s) = is_digit c

unfoldable pub unsigned_value : Text → Option ℕ
unfolding read_digits starts_with_digit
unsigned_value s = if starts_with_digit s then some (read_digits 0 s) else none

unfoldable pub positive : Option ℕ → Option ℕ
positive none = none
positive (some n) = if ltb n (2 ^ 31) then some n else none

pub negative : Option ℕ → Option ℕ
negative none = none
negative (some n) = if leb n (2 ^ 31) then some ((2 ^ 32 - n) % 2 ^ 32) else none

unfoldable pub read_signed : Text → Option ℕ
unfolding unsigned_value positive negative
read_signed [] = none
read_signed (c ∷ s) =
    if c == b'-'
    then negative (unsigned_value s)
    else (if c == b'+' then positive (unsigned_value s) else positive (unsigned_value (c ∷ s)))

unfoldable pub stoi : Text → Option ℕ
unfolding skip_space read_signed
stoi s = read_signed (skip_space s)

-- The convention, by the first character of what is left.
unfoldable pub convention : Text → Option CallingConvention
convention [] = none
convention (c ∷ s) =
    if c == b'C'
    then some caller_cleanup
    else (if c == b'E' then some callee_cleanup else (if c == b'F' then some fast_call else none))

-- Whether the function does not return.
unfoldable pub no_return : Text → Option Bool
no_return ret =
    if same_text ret (b'N' ∷ [])
    then some false
    else (if same_text ret (b'Y' ∷ []) then some true else none)

-- `rest.substr(0, count)`, and `rest.substr(2)`, which throws behind the end.
unfoldable pub first_chars : (count : ℕ) → Text → Text
first_chars zero s = []
first_chars (suc count) [] = []
first_chars (suc count) (c ∷ s) = c ∷ first_chars count s

unfoldable pub behind_two : Text → Option Text
behind_two [] = none
behind_two (c ∷ []) = none
behind_two (c ∷ d ∷ s) = some s

unfoldable pub finish :
    (symbol : Text)
    → CallingConvention
    → (arg_count : ℕ) → Option Bool
    → (signature : Option Text) → Line
finish symbol cc arg_count none signature = fatal unknown_return
finish symbol cc arg_count (some noret) signature = defined (record {
  symbol_name = symbol;
  cc = cc;
  has_return = not noret;
  arg_count = arg_count;
  is_weak = true;
  signature = signature;
  ea = 0;
  imag_ea = 0;
})

-- What stands behind the convention: whether the function returns, and perhaps a signature.
unfoldable pub with_signature : (symbol : Text) → CallingConvention → ℕ → Text → Option Text → Line
unfolding finish no_return first_chars
with_signature symbol cc arg_count rest none = fatal bad_signature
with_signature symbol cc arg_count rest (some signature) =
    finish symbol cc arg_count (no_return (first_chars 1 rest)) (some signature)

unfoldable pub parse_return :
    (symbol : Text) → CallingConvention → ℕ → (rest : Text) → Option (Text × Text) → Line
unfolding finish no_return with_signature behind_two
parse_return symbol cc arg_count rest none = finish symbol cc arg_count (no_return rest) none
parse_return symbol cc arg_count rest (some parts) =
    with_signature symbol cc arg_count rest (behind_two rest)

unfoldable pub parse_convention :
    (symbol : Text) → ℕ → Option CallingConvention → (rest : Text) → Line
unfolding parse_return split_space
parse_convention symbol arg_count none rest = fatal unknown_convention
parse_convention symbol arg_count (some cc) rest =
    parse_return symbol cc arg_count rest (split_space rest)

-- Behind the number of arguments.
unfoldable pub parse_tail : (symbol : Text) → ℕ → (rest : Text) → Option (Text × Text) → Line
unfolding parse_convention convention
parse_tail symbol arg_count rest none = fatal ill_formed
parse_tail symbol arg_count rest (some (cc, behind)) =
    parse_convention symbol arg_count (convention rest) behind

unfoldable pub parse_number : (symbol : Text) → Option ℕ → (rest : Text) → Line
unfolding parse_tail split_space
parse_number symbol none rest = fatal bad_number
parse_number symbol (some arg_count) rest = parse_tail symbol arg_count rest (split_space rest)

unfoldable pub parse_count : (symbol : Text) → Option (Text × Text) → Line
unfolding parse_number stoi
parse_count symbol none = fatal no_convention
parse_count symbol (some (count, rest)) = parse_number symbol (stoi count) rest

unfoldable pub parse_symbol : Option (Text × Text) → Line
unfolding parse_count split_space
parse_symbol none = fatal ill_formed
parse_symbol (some (symbol, rest)) = parse_count symbol (split_space rest)

-- `s.substr(0, 5) == "DATA:"`
unfoldable pub is_data : Text → Bool
unfolding first_chars
is_data s = same_text (first_chars 5 s) (b'D' ∷ b'A' ∷ b'T' ∷ b'A' ∷ b':' ∷ [])

unfoldable pub is_skipped : Text → Bool
unfolding is_data
is_skipped [] = true
is_skipped (c ∷ s) = if c == b'#' then true else is_data (c ∷ s)

unfoldable pub parse_line : Text → Line
unfolding is_skipped parse_symbol split_space
parse_line s = if is_skipped s then skipped else parse_symbol (split_space s)
