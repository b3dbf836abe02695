-- ===== src/Dyninst/Magic/Tests.antt =====
-- Two functions, one of them written twice (tools/mcsema_disass/dyninst/MagicSection.cpp).
use mcsema.Prelude.{ℕ, ◌≡◌, some, List, [], ◌∷◌, arith}
use mcsema.Dyninst.Magic.{
  MagicSection, init, write_external_functions, or_zero, get_allocated, get_external_function,
}
use mcsema.Dyninst.Magic.Addresses.{slots, slot_of, write_external_functions_lem}

abbrev functions : List ℕ
functions = 0x400 ∷ 0x500 ∷ 0x400 ∷ []

write_external_functions_lem_example :
    (m : MagicSection) × (write_external_functions functions (init 0x8000 8) ≡ some m)
    × (m.ext_funcs ≡ slots 0x8000 8 functions)
    × ((real : ℕ)
        → (get_allocated real m ≡ or_zero (slot_of real 0x8000 8 functions))
          × (get_external_function real m ≡ slot_of real 0x8000 8 functions))
write_external_functions_lem_example =
    write_external_functions_lem 0x8000 8 functions (λ e. omega (arith, e)) (omega arith)
