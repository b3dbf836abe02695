-- ===== src/Cfg/Names/Sane.antt =====
-- Sane names (mcsema/CFG/CFG.cpp, `SaneName`).
use mcsema.Prelude.{ℕ, ◌≡◌, refl, ◌⊎◌, true, [], ◌∷◌, arith, length, All}
use mcsema.Cfg.Names.{Bytes, is_alnum, sane_char, sane_name}

sane_char_lem :
    (c : ℕ)
    → ((is_alnum (sane_char c) ≡ true) ⊎ (sane_char c ≡ b'_'))
      × (sane_char (sane_char c) ≡ sane_char c)
unfolding sane_char
sane_char_lem c = (ground arith, ground arith)

-- A sane name has the length of the name, is made of letters, digits and underscores, and is its
-- own sane name.
pub sane_name_lem :
    (name : Bytes)
    → (length (sane_name name) ≡ length name)
      × All (λ (c : ℕ). (is_alnum c ≡ true) ⊎ (c ≡ b'_')) (sane_name name)
      × (sane_name (sane_name name) ≡ sane_name name)
unfolding sane_name
sane_name_lem [] = (refl, tt, refl)
sane_name_lem (c ∷ name) =
    let ih = sane_name_lem name in
    let head = sane_char_lem c in (omega (arith, ih.0), (head.0, ih.1), cc (head.1, ih.2))
