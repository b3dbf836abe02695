-- ===== src/Cfg/Names.antt =====
-- The names of lifted objects: `SaneName` and the `…Name` functions of mcsema/CFG/CFG.cpp. A name
-- is the list of its bytes.
pub mod Sane
pub mod Address
mod Tests
use mcsema.Prelude.{
  ℕ, zero, suc, ◌+◌, ◌-◌, ◌/◌, ◌%◌, Bool, true, false, ◌&&◌, ◌||◌, Option, none, some, List, [],
  ◌∷◌, ◌++◌, map, ltb, leb, ◌==◌, if◌then◌else◌, length,
}

abbrev pub Bytes : Type 0
Bytes = List ℕ

-- `isalnum` in the C locale.
pub is_alnum : ℕ → Bool
is_alnum c =
    (leb b'0' c && leb c b'9') || ((leb b'A' c && leb c b'Z') || (leb b'a' c && leb c b'z'))

pub sane_char : ℕ → ℕ
unfolding is_alnum
sane_char c = if is_alnum c then c else b'_'

-- `SaneName`
pub sane_name : Bytes → Bytes
unfolding sane_char
sane_name name = map sane_char name

-- `ss << std::hex << n`: a word has at most sixteen digits.
pub hex_digit : ℕ → ℕ
hex_digit d = if ltb d 10 then b'0' + d else b'a' + (d - 10)

pub hex_onto : ℕ → ℕ → Bytes → Bytes
hex_onto zero n acc = acc
hex_onto (suc k) n acc =
    let rest : Bytes = hex_onto k (n / 16) (hex_digit (n % 16) ∷ acc) in
    if ltb n 16 then hex_digit n ∷ acc else rest

pub to_hex : ℕ → Bytes
unfolding hex_onto hex_digit
to_hex n = hex_onto 16 n []

-- "_" and the sane name, if there is a name.
pub name_suffix : Option Bytes → Bytes
unfolding sane_name
name_suffix none = []
name_suffix (some name) = b'_' ∷ sane_name name

-- `LiftedFunctionName`: "sub_".
pub lifted_function_name : ℕ → Option Bytes → Bytes
unfolding to_hex name_suffix
lifted_function_name ea name = b's' ∷ b'u' ∷ b'b' ∷ b'_' ∷ (to_hex ea ++ name_suffix name)

-- `LiftedVarName`: "data_".
pub lifted_var_name : ℕ → Option Bytes → Bytes
unfolding to_hex name_suffix
lifted_var_name ea name = b'd' ∷ b'a' ∷ b't' ∷ b'a' ∷ b'_' ∷ (to_hex ea ++ name_suffix name)

-- `ExternalFuncName`: "ext_".
pub external_func_name : ℕ → Bytes → Bytes
unfolding to_hex sane_name
external_func_name ea name = b'e' ∷ b'x' ∷ b't' ∷ b'_' ∷ (to_hex ea ++ b'_' ∷ sane_name name)

pub is_empty : Bytes → Bool
is_empty [] = true
is_empty (c ∷ name) = false

-- "_", the sane name, "_" and the size, which is printed in hexadecimal too.
pub sized_suffix : Bytes → ℕ → Bytes
unfolding sane_name to_hex
sized_suffix name size = b'_' ∷ (sane_name name ++ (b'_' ∷ to_hex size))

-- `LiftedSegmentName`: "seg_var_" or "seg_", unless an exported variable gives its own name.
pub lifted_segment_name :
    (ea size : ℕ) (name : Bytes) (variable_name : Option Bytes) (is_exported : Bool) → Bytes
unfolding to_hex sized_suffix is_empty
lifted_segment_name ea size name none is_exported =
    b's' ∷ b'e' ∷ b'g' ∷ b'_' ∷ (to_hex ea ++ sized_suffix name size)
lifted_segment_name ea size name (some var) is_exported = elim (is_empty var) [
  | false ↦ if is_exported then var else seg_var
  | true ↦ seg_var
]
  where
    seg_var : Bytes
    seg_var =
        b's' ∷ b'e' ∷ b'g' ∷ b'_' ∷ b'v' ∷ b'a' ∷ b'r' ∷ b'_' ∷ (to_hex ea ++ sized_suffix var size)
