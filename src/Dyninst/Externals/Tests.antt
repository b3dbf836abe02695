-- ===== src/Dyninst/Externals/Tests.antt =====
-- Definitions files on concrete text (tools/mcsema_disass/dyninst/ExternalFunctionManager.cpp).
use mcsema.Prelude.{
  ◌≡◌, refl, true, false, none, some, List, [], ◌∷◌, ◌++◌, arith, same_text, lacks-All,
}
use mcsema.Dyninst.Externals.Definitions.{
  Text, ExternalFunction, caller_cleanup, fast_call, is_skipped, is_data, first_chars,
}
use mcsema.Dyninst.Externals.{Manager, ok, clear_used, get_all_used, add_external_symbols}
use mcsema.Dyninst.Externals.Printed.{print_definition, IsName}
use mcsema.Dyninst.Externals.File.{IsLine, print_file, add_all, add_external_symbols-print}
use mcsema.Dyninst.Externals.Order.{has, IsIncreasing}
use mcsema.Dyninst.Externals.Used.{mark_all, functions_of, known_of, get_all_used_lem}

abbrev exit_def : ExternalFunction
exit_def = record {
  symbol_name = b'e' ∷ b'x' ∷ b'i' ∷ b't' ∷ [];
  cc = caller_cleanup;
  has_return = false;
  arg_count = 12;
  is_weak = true;
  signature = none;
  ea = 0;
  imag_ea = 0;
}

abbrev puts_def : ExternalFunction
puts_def = record {
  symbol_name = b'p' ∷ b'u' ∷ b't' ∷ b's' ∷ [];
  cc = fast_call;
  has_return = true;
  arg_count = 1;
  is_weak = true;
  signature = some (b'i' ∷ b' ' ∷ b'p' ∷ []);
  ea = 0;
  imag_ea = 0;
}

abbrev funcs : List (Text × ExternalFunction)
funcs = (puts_def.symbol_name, puts_def) ∷ []

abbrev manager : Manager
manager = record {
  external_funcs = funcs;
  used_funcs = exit_def.symbol_name ∷ puts_def.symbol_name ∷ [];
}

puts_IsName : IsName puts_def.symbol_name
unfolding is_skipped is_data first_chars same_text
puts_IsName = (refl, lacks-All b' ' puts_def.symbol_name refl)

puts_IsLine : IsLine puts_def
puts_IsLine =
    (puts_IsName, omega arith, refl, refl, refl, lacks-All b'\n' (print_definition puts_def) refl)

add_external_symbols-print_example :
    add_external_symbols (print_file (puts_def ∷ [])) manager ≡ ok (add_all (puts_def ∷ []) manager)
add_external_symbols-print_example =
    add_external_symbols-print (puts_def ∷ []) manager (puts_IsLine, tt)

-- Marked out of order, one of them twice.
abbrev marked : List Text
marked = puts_def.symbol_name ∷ exit_def.symbol_name ∷ puts_def.symbol_name ∷ []

get_all_used_lem_example :
    (used : List Text) × IsIncreasing used
    × ((t : Text) → has t used ≡ has t marked)
    × (get_all_used (mark_all marked (clear_used manager)) []
        ≡ (functions_of funcs used, [] ++ known_of funcs used))
get_all_used_lem_example = get_all_used_lem manager marked []
