-- ===== src/Cfg/Forward/Fuel.antt =====
-- More fuel for `Get` and `ForwardTo` (mcsema/CFG/CFG.cpp).
use mcsema.Prelude.{
  ℕ, zero, suc, ◌+◌, ◌-◌, ◌≤◌, ◌≡◌, refl, sym, ◌∙◌, subst, inl, inr, Bool, true, false, Option,
  none, some, ◌==◌, if◌then◌else◌, Option-cases, none_not_some, and_then, arith,
}
use mcsema.Cfg.Forward.{Forwards, set_forward, get, forward_to}

abbrev shorten : ℕ → Forwards × ℕ → Option (Forwards × ℕ)
shorten a (f, r) = some (set_forward f a r, r)

get-suc :
    (k : ℕ) (f : Forwards) (a : ℕ)
    → get (suc k) f a ≡ (if f a == a then some (f, a) else and_then (get k f (f a)) (shorten a))
unfolding get
get-suc k f a = elim (Option-cases (get k f (f a))) [
  | inl e ↦ rw (e) refl
  | inr (found, e) ↦ rw (e) refl
]

forward_to-suc :
    (k : ℕ) (f : Forwards) (a dest : ℕ)
    → forward_to (suc k) f a dest ≡ (
        if f a == a
        then and_then (get k f dest) (λ got. some (set_forward got.0 a got.1))
        else and_then (forward_to k f (f a) dest) (λ g. some (set_forward g a dest)))
unfolding forward_to
forward_to-suc k f a dest = elim (Option-cases (get k f dest)) [
  | inl e ↦ elim (Option-cases (forward_to k f (f a) dest)) [
    | inl e1 ↦ rw (e, e1) refl
    | inr (g, e1) ↦ rw (e, e1) refl
  ]
  | inr (found, e) ↦ elim (Option-cases (forward_to k f (f a) dest)) [
    | inl e1 ↦ rw (e, e1) refl
    | inr (g, e1) ↦ rw (e, e1) refl
  ]
]

-- A step that has a result has the same if what it starts from has.
and_then_more {ι κ} :
    {A : Type ι} {B : Type κ} (less more : Option A) (next : A → Option B) {out : B}
    → ((a : A) → less ≡ some a → more ≡ some a)
    → and_then less next ≡ some out
    → and_then more next ≡ some out
and_then_more none more next h e = absurd (none_not_some e)
and_then_more (some a) more next h e = rw (h a refl) e

if_more {ℓ} :
    {A : Type ℓ} (b : Bool) {x y x1 y1 : Option A} {out : A}
    → (x ≡ some out → x1 ≡ some out)
    → (y ≡ some out → y1 ≡ some out)
    → (if b then x else y) ≡ some out
    → (if b then x1 else y1) ≡ some out
if_more true f g e = f e
if_more false f g e = g e

get_more :
    (k : ℕ) (f : Forwards) (a : ℕ) (out : Forwards × ℕ)
    → get k f a ≡ some out
    → get (suc k) f a ≡ some out
get_more zero f a out e = absurd (none_not_some {a = out} (unfold get in e))
get_more (suc k) f a out e =
    get-suc (suc k) f a
    ∙ if_more (f a == a) (λ x. x)
        (and_then_more (get k f (f a)) (get (suc k) f (f a)) (shorten a) (get_more k f (f a)))
        (sym (get-suc k f a) ∙ e)

forward_to_more :
    (k : ℕ) (f : Forwards) (a dest : ℕ) (out : Forwards)
    → forward_to k f a dest ≡ some out
    → forward_to (suc k) f a dest ≡ some out
forward_to_more zero f a dest out e = absurd (none_not_some {a = out} (unfold forward_to in e))
forward_to_more (suc k) f a dest out e =
    forward_to-suc (suc k) f a dest
    ∙ if_more (f a == a) (and_then_more (get k f dest) (get (suc k) f dest) _ (get_more k f dest))
        (and_then_more (forward_to k f (f a) dest) (forward_to (suc k) f (f a) dest) _
          (forward_to_more k f (f a) dest))
        (sym (forward_to-suc k f a dest) ∙ e)

after_more :
    (k more : ℕ) (f : Forwards) (a dest : ℕ) (out : Forwards)
    → forward_to k f a dest ≡ some out
    → forward_to (k + more) f a dest ≡ some out
after_more k zero f a dest out e =
    let same : k ≡ k + 0 = omega arith in subst (λ n. forward_to n f a dest ≡ some out) same e
after_more k (suc more) f a dest out e =
    let same : suc (k + more) ≡ k + suc more = omega arith in
    subst (λ n. forward_to n f a dest ≡ some out) same
      (forward_to_more (k + more) f a dest out (after_more k more f a dest out e))

-- A result stays the same with more fuel.
pub forward_to_later :
    (k j : ℕ) (f : Forwards) (a dest : ℕ) (out : Forwards)
    → k ≤ j
    → forward_to k f a dest ≡ some out
    → forward_to j f a dest ≡ some out
forward_to_later k j f a dest out le e =
    let same : k + (j - k) ≡ j = omega (arith, le) in
    subst (λ n. forward_to n f a dest ≡ some out) same (after_more k (j - k) f a dest out e)

get_after :
    (k more : ℕ) (f : Forwards) (a : ℕ) (out : Forwards × ℕ)
    → get k f a ≡ some out
    → get (k + more) f a ≡ some out
get_after k zero f a out e =
    let same : k ≡ k + 0 = omega arith in subst (λ n. get n f a ≡ some out) same e
get_after k (suc more) f a out e =
    let same : suc (k + more) ≡ k + suc more = omega arith in
    subst (λ n. get n f a ≡ some out) same
      (get_more (k + more) f a out (get_after k more f a out e))

pub get_later :
    (k j : ℕ) (f : Forwards) (a : ℕ) (out : Forwards × ℕ)
    → k ≤ j
    → get k f a ≡ some out
    → get j f a ≡ some out
get_later k j f a out le e =
    let same : k + (j - k) ≡ j = omega (arith, le) in
    subst (λ n. get n f a ≡ some out) same (get_after k (j - k) f a out e)
