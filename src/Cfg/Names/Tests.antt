-- ===== src/Cfg/Names/Tests.antt =====
-- Lifted names of some objects (mcsema/CFG/CFG.cpp).
use mcsema.Prelude.{ℕ, ◌≡◌, refl, ◌⊎◌, true, none, some, [], ◌∷◌, arith, length, All}
use mcsema.Cfg.Names.{
  Bytes, is_alnum, sane_name, lifted_function_name, lifted_var_name, external_func_name,
  lifted_segment_name,
}
use mcsema.Cfg.Names.Sane.{sane_name_lem}
use mcsema.Cfg.Names.Address.{lifted_names_injective}

-- ".got"
abbrev got : Bytes
got = b'.' ∷ b'g' ∷ b'o' ∷ b't' ∷ []

-- "seg_4f0__got_20", for a segment of 32 bytes.
lifted_segment_run :
    lifted_segment_name 0x4f0 32 got none true
    ≡ b's' ∷ b'e' ∷ b'g' ∷ b'_' ∷ b'4' ∷ b'f' ∷ b'0' ∷ b'_' ∷ b'_' ∷ b'g' ∷ b'o' ∷ b't' ∷ b'_'
      ∷ b'2' ∷ b'0' ∷ []
unfolding lifted_segment_name
lifted_segment_run = refl

sane_name_lem_example :
    (length (sane_name got) ≡ 4)
    × All (λ (c : ℕ). (is_alnum c ≡ true) ⊎ (c ≡ b'_')) (sane_name got)
    × (sane_name (sane_name got) ≡ sane_name got)
sane_name_lem_example = sane_name_lem got

lifted_names_injective_example :
    (lifted_function_name 0x4f0 none ≡ lifted_function_name 0x4f1 (some got)
      → ◌≡◌ {A = ℕ} 0x4f0 0x4f1)
    × (lifted_var_name 0x4f0 none ≡ lifted_var_name 0x4f1 (some got) → ◌≡◌ {A = ℕ} 0x4f0 0x4f1)
    × (external_func_name 0x4f0 got ≡ external_func_name 0x4f1 got → ◌≡◌ {A = ℕ} 0x4f0 0x4f1)
lifted_names_injective_example =
    lifted_names_injective 0x4f0 0x4f1 none (some got) got got (omega arith) (omega arith)
