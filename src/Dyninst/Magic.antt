-- ===== src/Dyninst/Magic.antt =====
-- The imaginary addresses of external objects: `MagicSection` of
-- tools/mcsema_disass/dyninst/MagicSection.cpp and MagicSection.h. The messages of the protocol
-- buffer are the addresses that they get, `data`, which nothing is written to, is left out; `real_to_imag`, an `unordered_map`, is kept in order.
pub mod Addresses
mod Tests
use mcsema.Prelude.{
  ℕ, zero, suc, ◌+◌, Bool, true, false, Option, none, some, List, [], ◌∷◌, ◌++◌, ◌==◌,
  if◌then◌else◌, add64, and_then,
}
use mcsema.Prelude.Maps.{Map, find?, emplace}

pub record MagicSection : Type 0 where
  pub start_ea : ℕ
  pub size : ℕ
  pub ptr_byte_size : ℕ
  pub ext_vars : List ℕ
  pub ext_funcs : List ℕ
  pub real_to_imag : Map ℕ

-- `init`
pub init : (start_ea ptr_byte_size : ℕ) → MagicSection
init start_ea ptr_byte_size = record {
  start_ea = start_ea;
  size = 0;
  ptr_byte_size = ptr_byte_size;
  ext_vars = [];
  ext_funcs = [];
  real_to_imag = [];
}

-- `AllocSpace`: whatever the width asked for, a pointer is taken. What it writes to `data`, the
-- string "\0", is empty.
pub alloc_space : (byte_width : ℕ) → MagicSection → MagicSection × ℕ
alloc_space byte_width m =
    (record m { size = add64 m.size m.ptr_byte_size }, add64 m.start_ea m.size)

-- `AllocSpace` of an address that is known.
pub alloc_at : (real original : ℕ) → MagicSection → MagicSection
alloc_at real original m = record m { real_to_imag = emplace real original m.real_to_imag }

-- `CHECK(start_ea)`
pub when_started : MagicSection → MagicSection → Option MagicSection
when_started m after = if m.start_ea == 0 then none else some after

-- `WriteExternalVariable`
pub write_external_variable : MagicSection → Option MagicSection
unfolding alloc_space when_started
write_external_variable m =
    let (allocated, unreal_ea) = alloc_space m.ptr_byte_size m in
    when_started m (record allocated { ext_vars = m.ext_vars ++ unreal_ea ∷ [] })

-- `WriteExternalFunction`, for a function at `ea`.
pub add_function : (ea : ℕ) → MagicSection → MagicSection
unfolding alloc_space
add_function ea m =
    let (allocated, unreal_ea) = alloc_space m.ptr_byte_size m in
    record allocated {
      ext_funcs = m.ext_funcs ++ unreal_ea ∷ [];
      real_to_imag = emplace ea unreal_ea m.real_to_imag;
    }

pub write_external_function : (ea : ℕ) → MagicSection → Option MagicSection
unfolding add_function when_started
write_external_function ea m = when_started m (add_function ea m)

-- One function after the other.
pub write_external_functions : List ℕ → MagicSection → Option MagicSection
unfolding write_external_function
write_external_functions [] m = some m
write_external_functions (ea ∷ eas) m =
    and_then (write_external_function ea m) (λ n. write_external_functions eas n)

-- `GetAllocated`: 0 for an address that is not known.
pub or_zero : Option ℕ → ℕ
or_zero none = 0
or_zero (some ea) = ea

pub get_allocated : ℕ → MagicSection → ℕ
unfolding or_zero
get_allocated ea m = or_zero (find? ea m.real_to_imag)

-- `GetExternalFunction`: the function whose address is the imaginary one.
pub find_function : ℕ → List ℕ → Option ℕ
find_function ea [] = none
find_function ea (func ∷ funcs) = if func == ea then some func else find_function ea funcs

pub find_at : Option ℕ → List ℕ → Option ℕ
unfolding find_function
find_at none funcs = none
find_at (some ea) funcs = find_function ea funcs

pub get_external_function : ℕ → MagicSection → Option ℕ
unfolding find_at
get_external_function real_ea m = find_at (find? real_ea m.real_to_imag) m.ext_funcs
