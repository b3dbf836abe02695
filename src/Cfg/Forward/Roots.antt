-- ===== src/Cfg/Forward/Roots.antt =====
-- What the forwarding pointers of mcsema/CFG/CFG.cpp mean: each object has one representative,
-- `Get` finds it and changes nobody's, `ForwardTo` joins two classes.
use mcsema.Prelude.{
  ℕ, suc, ◌≡◌, refl, sym, ◌∙◌, subst, ◌≢◌, inl, inr, ◌==◌, if◌then◌else◌, ==_refl, ==_ne, eq_cases,
}
use mcsema.Cfg.Forward.{Forwards, set_forward}

-- The chain from `a` ends at `r` after `d` hops.
pub data Root (f : Forwards) : ℕ → ℕ → ℕ → Type 0 where
  here : {a : ℕ} → f a ≡ a → Root f a a 0
  hop : {a r d : ℕ} → f a ≢ a → Root f (f a) r d → Root f a r (suc d)

set_forward_self : (f : Forwards) (a b : ℕ) → set_forward f a b a ≡ b
unfolding set_forward
set_forward_self f a b = rw (==_refl a)

set_forward_other : (f : Forwards) {a x : ℕ} (b : ℕ) → x ≢ a → set_forward f a b x ≡ f x
unfolding set_forward
set_forward_other f {a} {x} b h = rw (==_ne x a h)

pub Root-end : {f : Forwards} {a r d : ℕ} → Root f a r d → f r ≡ r
Root-end (here e) = e
Root-end (hop ne t) = Root-end t

pub Root-unique : {f : Forwards} {a r d : ℕ} → Root f a r d → (s e : ℕ) → Root f a s e → r ≡ s
Root-unique (here e) s n (here e') = refl
Root-unique (here e) s n (hop ne t) = absurd (ne e)
Root-unique (hop ne t) s n (here e) = absurd (ne e)
Root-unique (hop ne t) s n (hop ne' t') = Root-unique t s _ t'

-- The representative of `a`.
abbrev pub Ends : Forwards → ℕ → ℕ → Type 0
Ends f a r = (d : ℕ) × Root f a r d

-- Every chain ends.
abbrev pub IsForest : Forwards → Type 0
IsForest f = (a : ℕ) → (r : ℕ) × Ends f a r

-- The same representatives.
abbrev pub SameRoots : Forwards → Forwards → Type 0
SameRoots f g = (x r : ℕ) → (Ends f x r → Ends g x r) × (Ends g x r → Ends f x r)

hop-Ends : (f : Forwards) (a b r : ℕ) → f a ≡ b → b ≢ a → Ends f b r → Ends f a r
hop-Ends f a b r e ne t = (suc t.0, hop (rw e ne) (subst (λ z. Root f z r t.0) (sym e) t.1))

-- What both uses of a redirection share: the target `r` is a root, and `a` is redirected to it.
module _ (f : Forwards) (a r : ℕ) (r_root : f r ≡ r) where
  redirect_root : Ends (set_forward f a r) r r
  redirect_root = elim (eq_cases r a) [
    | inl same ↦
        (0, here (subst (λ z. set_forward f a r z ≡ r) (sym same) (set_forward_self f a r)))
    | inr other ↦ (0, here (set_forward_other f r other ∙ r_root))
  ]

  redirect_self : Ends (set_forward f a r) a r
  redirect_self = elim (eq_cases r a) [
    | inl same ↦ subst (λ z. Ends (set_forward f a r) z r) same redirect_root
    | inr other ↦ hop-Ends _ a r r (set_forward_self f a r) other redirect_root
  ]

  -- An object that is no root is pointed at its own root: nobody's representative changes.
  pub compress-Ends :
      {n x y d : ℕ} → Root f a r n → f a ≢ a → Root f x y d → Ends (set_forward f a r) x y
  compress-Ends {x = x} t ne (here e) = elim (eq_cases x a) [
    | inl same ↦ absurd (ne (subst (λ z. f z ≡ z) same e))
    | inr other ↦ (0, here (set_forward_other f r other ∙ e))
  ]
  compress-Ends {n} {x} {y} t ne (hop ne' u) = elim (eq_cases x a) [
    | inl same ↦
        let y_is_r : y ≡ r = Root-unique (hop ne' u) r n (subst (λ z. Root f z r n) (sym same) t) in
        subst (λ z. Ends (set_forward f a r) z y) (sym same)
          (subst (λ z. Ends (set_forward f a r) a z) (sym y_is_r) redirect_self)
    | inr other ↦ hop-Ends _ x (f x) y (set_forward_other f r other) ne' (compress-Ends t ne u)
  ]

  -- A root is pointed at another root: its class now has that one's representative.
  pub link-Ends :
      {x y d : ℕ} → f a ≡ a → Root f x y d → Ends (set_forward f a r) x (if y == a then r else y)
  link-Ends {x} a_root (here e) = elim (eq_cases x a) [
    | inl same ↦ rw (same, ==_refl a) redirect_self
    | inr other ↦ rw (==_ne x a other) (0, here (set_forward_other f r other ∙ e))
  ]
  link-Ends {x} {y} a_root (hop ne u) = elim (eq_cases x a) [
    | inl same ↦ absurd (ne (subst (λ z. f z ≡ z) (sym same) a_root))
    | inr other ↦ hop-Ends _ x (f x) _ (set_forward_other f r other) ne (link-Ends a_root u)
  ]

-- In a forest it is enough to keep representatives in one direction.
pub SameRoots-of_forest :
    (f g : Forwards) → IsForest f → ((x r : ℕ) → Ends f x r → Ends g x r) → SameRoots f g
SameRoots-of_forest f g forest keep x r = (
  keep x r,
  λ t.
      let (s, end) = forest x in
      let same : s ≡ r = Root-unique (keep x s end).1 r t.0 t.1 in subst (λ z. Ends f x z) same end,
)

pub SameRoots-IsForest : (f g : Forwards) → IsForest f → SameRoots f g → IsForest g
SameRoots-IsForest f g forest same a = ((forest a).0, (same a _).0 (forest a).1)
