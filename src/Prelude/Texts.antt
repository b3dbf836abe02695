-- ===== src/Prelude/Texts.antt =====
-- Equality of strings, which are lists of bytes.
use Prim.Native.Nat.{ℕ}
use mathlib.Core.Path.{◌≡◌, refl, sym, ◌∙◌}
use mathlib.Core.Logic.{◌≢◌, inl, inr}
use mathlib.Core.Bool.{Bool, true, false}
use mathlib.Core.List.{List, [], ◌∷◌}
use mcsema.Prelude.Lists.{All}
use mcsema.Prelude.Tests.{◌==◌, if◌then◌else◌, ==_iff, ==_refl, if_cases, true_not_false}

-- `==` on std::string
unfoldable pub same_text : List ℕ → List ℕ → Bool
same_text [] [] = true
same_text [] (d ∷ t) = false
same_text (c ∷ s) [] = false
same_text (c ∷ s) (d ∷ t) = if c == d then same_text s t else false

pub same_text_eq : (s t : List ℕ) → same_text s t ≡ true → s ≡ t
unfolding same_text
same_text_eq [] [] h = refl
same_text_eq [] (d ∷ t) h = absurd (true_not_false (sym h))
same_text_eq (c ∷ s) [] h = absurd (true_not_false (sym h))
same_text_eq (c ∷ s) (d ∷ t) h = elim (if_cases (c == d) _ _ h) [
  | inl (e, h1) ↦ rw ((==_iff c d).0 e, same_text_eq s t h1) refl
  | inr (f, h1) ↦ absurd (true_not_false (sym h1))
]

pub same_text_refl : (s : List ℕ) → same_text s s ≡ true
unfolding same_text
same_text_refl [] = refl
same_text_refl (c ∷ s) = rw (==_refl c) (same_text_refl s)

-- A byte that does not occur in a string.
abbrev pub lacks : ℕ → List ℕ → Bool
lacks c [] = true
lacks c (d ∷ s) = if d == c then false else lacks c s

pub lacks-All : (c : ℕ) (s : List ℕ) → lacks c s ≡ true → All (λ d. d ≢ c) s
lacks-All c [] h = tt
lacks-All c (d ∷ s) h = elim (if_cases (d == c) _ _ h) [
  | inl (e, h1) ↦ absurd (true_not_false (sym h1))
  | inr (f, h1) ↦ ((λ same. true_not_false (sym ((==_iff d c).1 same) ∙ f)), lacks-All c s h1)
]
