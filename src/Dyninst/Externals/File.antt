-- ===== src/Dyninst/Externals/File.antt =====
-- A whole file of definitions, written down and read back
-- (tools/mcsema_disass/dyninst/ExternalFunctionManager.cpp).
use mcsema.Prelude.{
  ℕ, ◌^◌, ◌<◌, ◌≡◌, ◌≢◌, refl, ap, ◌∙◌, true, List, [], ◌∷◌, ◌++◌, All, ==_ne, append_assoc,
  append-nil,
}
use mcsema.Dyninst.Externals.Definitions.{Text, ExternalFunction}
use mcsema.Dyninst.Externals.{
  Manager, ok, add_external_symbol, add_parsed, add_line, push_line, split_lines, add_lines,
  add_external_symbols,
}
use mcsema.Dyninst.Externals.Printed.{IsName, print_definition, parse_line-print}

abbrev NotNewline : ℕ → Type 0
NotNewline c = c ≢ b'\n'

-- What a definition needs to stand on one line of the file.
abbrev pub IsLine : ExternalFunction → Type 0
IsLine f =
    IsName f.symbol_name
    × (f.arg_count < 2 ^ 31)
    × (f.is_weak ≡ true)
    × (f.ea ≡ 0)
    × (f.imag_ea ≡ 0)
    × All NotNewline (print_definition f)

abbrev pub print_file : List ExternalFunction → Text
print_file [] = []
print_file (f ∷ fs) = print_definition f ++ b'\n' ∷ print_file fs

abbrev print_lines : List ExternalFunction → List Text
print_lines [] = []
print_lines (f ∷ fs) = print_definition f ∷ print_lines fs

abbrev pub add_all : List ExternalFunction → Manager → Manager
add_all [] m = m
add_all (f ∷ fs) m = add_all fs (add_external_symbol f.symbol_name f m)

split_lines-append :
    (line s t : Text)
    → All NotNewline s
    → split_lines line (s ++ b'\n' ∷ t) ≡ (line ++ s) ∷ split_lines [] t
unfolding split_lines
split_lines-append line [] t all = rw (append-nil line) refl
split_lines-append line (c ∷ s) t all =
    rw
      (
        ==_ne c 10 all.0,
        split_lines-append (line ++ c ∷ []) s t all.1,
        append_assoc line (c ∷ []) s,
      )
      refl

split_lines-print :
    (fs : List ExternalFunction) → All IsLine fs → split_lines [] (print_file fs) ≡ print_lines fs
unfolding split_lines push_line
split_lines-print [] all = refl
split_lines-print (f ∷ fs) ((name, count, weak, ea, imag, line), all) =
    split_lines-append [] (print_definition f) (print_file fs) line
    ∙ ap (λ rest. print_definition f ∷ rest) (split_lines-print fs all)

add_line-print :
    (f : ExternalFunction) (m : Manager)
    → IsLine f
    → add_line (print_definition f) m ≡ ok (add_external_symbol f.symbol_name f m)
unfolding add_line add_parsed
add_line-print f m (name, count, weak, ea, imag, line) =
    ap (λ read. add_parsed read m) (parse_line-print f name count weak ea imag)

add_lines-print :
    (fs : List ExternalFunction) (m : Manager)
    → All IsLine fs
    → add_lines (print_lines fs) m ≡ ok (add_all fs m)
unfolding add_lines
add_lines-print [] m all = refl
add_lines-print (f ∷ fs) m all =
    rw (add_line-print f m all.0) (add_lines-print fs (add_external_symbol f.symbol_name f m) all.1)

-- A file with one definition on each line, each of them a line's, is read to its end, and leaves the
-- manager that adding the definitions one by one, in their order, leaves.
pub add_external_symbols-print :
    (fs : List ExternalFunction) (m : Manager)
    → All IsLine fs
    → add_external_symbols (print_file fs) m ≡ ok (add_all fs m)
unfolding add_external_symbols
add_external_symbols-print fs m all = rw (split_lines-print fs all) (add_lines-print fs m all)
