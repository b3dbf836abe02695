-- ===== src/Dyninst/Externals.antt =====
-- External functions: `ExternalFunction` and `ExternalFunctionManager` of
-- tools/mcsema_disass/dyninst/ExternalFunctionManager.cpp and ExternalFunctionManager.h. A line of
-- the definitions file is read by Dyninst/Definitions. A hash table by name is the list of what was
-- put in, newest first; a set of names is kept in order, as `std::set` visits it.
pub mod Definitions
pub mod Numbers
pub mod Printed
pub mod File
pub mod Order
pub mod Used
mod Tests
use mcsema.Prelude.{
  ℕ, Bool, true, false, not, Option, none, some, List, [], ◌∷◌, ◌++◌, ltb, ◌==◌, if◌then◌else◌,
  same_text,
}
use mcsema.Prelude.Maps.{Map}
use Definitions.{
  Text, ExternalFunction, Line, skipped, defined, fatal, Mistake, parse_line, CallingConvention,
  caller_cleanup, callee_cleanup, fast_call,
}

-- The messages that `Write` adds to the module; the protocol buffer has the same conventions.
pub record CfgFunction : Type 0 where
  pub name : Text
  pub ea : ℕ
  pub cc : CallingConvention
  pub has_return : Bool
  pub no_return : Bool
  pub argument_count : ℕ
  pub is_weak : Bool

-- `WriteHelper` and `Write`: one message for the address, and one for the imaginary address.
pub write_helper : ExternalFunction → (ea : ℕ) → CfgFunction
write_helper f ea = record {
  name = f.symbol_name;
  ea = ea;
  cc = f.cc;
  has_return = f.has_return;
  no_return = not f.has_return;
  argument_count = f.arg_count;
  is_weak = f.is_weak;
}

pub write : ExternalFunction → List CfgFunction → List CfgFunction
unfolding write_helper
write f messages = messages ++ write_helper f f.ea ∷ write_helper f f.imag_ea ∷ []

pub record Manager : Type 0 where
  pub external_funcs : List (Text × ExternalFunction)
  pub used_funcs : List Text

-- `find`, `erase` and `operator[]` of the table.
unfoldable pub find_func : Text → List (Text × ExternalFunction) → Option ExternalFunction
find_func name [] = none
find_func name ((other, f) ∷ funcs) = if same_text other name then some f else find_func name funcs

unfoldable pub erase_func : Text → List (Text × ExternalFunction) → List (Text × ExternalFunction)
erase_func name [] = []
erase_func name ((other, f) ∷ funcs) =
    let rest = erase_func name funcs in if same_text other name then rest else (other, f) ∷ rest

-- `<` on std::string, and `insert` and `erase` of the set.
pub text_less : Text → Text → Bool
text_less s [] = false
text_less [] (d ∷ t) = true
text_less (c ∷ s) (d ∷ t) = if ltb c d then true else (if c == d then text_less s t else false)

unfoldable pub insert_name : Text → List Text → List Text
unfolding text_less
insert_name name [] = name ∷ []
insert_name name (other ∷ names) =
    let rest = insert_name name names in
    if same_text other name
    then other ∷ names
    else (if text_less name other then name ∷ other ∷ names else other ∷ rest)

pub erase_name : Text → List Text → List Text
erase_name name [] = []
erase_name name (other ∷ names) =
    let rest = erase_name name names in if same_text other name then names else other ∷ rest

-- `AddExternalSymbol`
unfoldable pub add_external_symbol : Text → ExternalFunction → Manager → Manager
add_external_symbol name f m = record m { external_funcs = (name, f) ∷ m.external_funcs }

-- `AddExternalSymbol` for a line; a mistake ends the program.
pub data Added : Type 0 where
  ok : Manager → Added
  stopped : Mistake → Added

unfoldable pub add_parsed : Line → Manager → Added
unfolding add_external_symbol
add_parsed skipped m = ok m
add_parsed (defined f) m = ok (add_external_symbol f.symbol_name f m)
add_parsed (fatal why) m = stopped why

unfoldable pub add_line : Text → Manager → Added
unfolding parse_line add_parsed
add_line s m = add_parsed (parse_line s) m

-- `std::getline` until the end: what stands behind the last newline is a line if it is not empty.
unfoldable pub push_line : Text → List Text → List Text
push_line [] rest = rest
push_line (c ∷ s) rest = (c ∷ s) ∷ rest

unfoldable pub split_lines : (line : Text) → Text → List Text
unfolding push_line
split_lines line [] = push_line line []
split_lines line (c ∷ s) =
    if c == b'\n' then line ∷ split_lines [] s else split_lines (line ++ c ∷ []) s

-- `AddExternalSymbols`
abbrev pub after_line : Added → (Manager → Added) → Added
after_line (ok m) next = next m
after_line (stopped why) next = stopped why

unfoldable pub add_lines : List Text → Manager → Added
unfolding add_line
add_lines [] m = ok m
add_lines (line ∷ lines) m = after_line (add_line line m) (λ n. add_lines lines n)

unfoldable pub add_external_symbols : Text → Manager → Added
unfolding split_lines add_lines
add_external_symbols s m = add_lines (split_lines [] s) m

-- `RemoveExternalSymbol`
unfoldable pub remove_external_symbol : Text → Manager → Manager
unfolding erase_func erase_name
remove_external_symbol name m = record {
  external_funcs = erase_func name m.external_funcs;
  used_funcs = erase_name name m.used_funcs;
}

-- `IsExternal`
unfoldable pub is_some : Option ExternalFunction → Bool
is_some none = false
is_some (some f) = true

unfoldable pub is_external : Manager → Text → Bool
unfolding find_func is_some
is_external m name = is_some (find_func name m.external_funcs)

-- `GetExternalFunction`: `none` is the CHECK.
unfoldable pub get_external_function : Manager → Text → Option ExternalFunction
unfolding find_func
get_external_function m name = find_func name m.external_funcs

-- `ClearUsed`, `MarkAsUsed`
pub clear_used : Manager → Manager
clear_used m = record m { used_funcs = [] }

unfoldable pub mark_as_used : Text → Manager → Manager
unfolding insert_name
mark_as_used name m = record m { used_funcs = insert_name name m.used_funcs }

-- `GetAllUsed`: the functions, one that is not known with its name only, and what goes to
-- `unknowns`.
pub nameless : Text → ExternalFunction
nameless name = record {
  symbol_name = name;
  cc = caller_cleanup;
  has_return = true;
  arg_count = 0;
  is_weak = false;
  signature = none;
  ea = 0;
  imag_ea = 0;
}

unfoldable pub use_one :
    Text
    → Option ExternalFunction
    → List ExternalFunction × List Text
    → List ExternalFunction × List Text
unfolding nameless
use_one name none (result, unknowns) = (result ++ nameless name ∷ [], unknowns)
use_one name (some f) (result, unknowns) = (result ++ f ∷ [], unknowns ++ name ∷ [])

unfoldable pub use_all :
    List (Text × ExternalFunction)
    → List Text
    → List ExternalFunction × List Text
    → List ExternalFunction × List Text
unfolding find_func use_one
use_all funcs [] out = out
use_all funcs (name ∷ names) out = use_all funcs names (use_one name (find_func name funcs) out)

unfoldable pub get_all_used : Manager → (unknowns : List Text) → List ExternalFunction × List Text
unfolding use_all
get_all_used m unknowns = use_all m.external_funcs m.used_funcs ([], unknowns)
