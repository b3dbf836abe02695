-- ===== src/Cfg/Forward/Kinds.antt =====
-- Forwarding among objects of two kinds, of which each is forwarded to its own kind only
-- (mcsema/CFG/CFG.cpp, `ForwardTo` as `ReadProtoBuf` calls it).
use mcsema.Prelude.{
  ℕ, suc, ◌<◌, ◌≤◌, ◌≡◌, ◌≢◌, refl, sym, ◌∙◌, ap, subst, inl, inr, Bool, true, false, some, ◌==◌,
  if◌then◌else◌, ==_refl, ==_ne, eq_cases, lt_cases, arith,
}
use mcsema.Cfg.Forward.{Forwards, forward_to}
use mcsema.Cfg.Forward.Roots.{here, Ends, IsForest, Root-end, Root-unique}
use mcsema.Cfg.Forward.Classes.{Joined, Joined-dest, Joined-IsForest, forward_to_joins}
use mcsema.Cfg.Forward.Fuel.{forward_to_later}

-- Objects from a number on are not forwarded yet, and those below it end below it, at their kind.
pub record IsKept (kind : ℕ → Bool) (n : ℕ) (f : Forwards) : Type 0 where
  pub forest : IsForest f
  pub fresh : (x : ℕ) → n ≤ x → f x ≡ x
  pub below : (x y : ℕ) → x < n → Ends f x y → (y < n) × (kind y ≡ kind x)

-- The kinds of two new objects.
abbrev pub with_new : (ℕ → Bool) → ℕ → ℕ → Bool
with_new kind n x = if x == n then true else if x == suc n then false else kind x

with_new_old : (kind : ℕ → Bool) (n x : ℕ) → x < n → with_new kind n x ≡ kind x
with_new_old kind n x h =
    rw (==_ne x n (λ e. omega (arith, h, e)), ==_ne x (suc n) (λ e. omega (arith, h, e))) refl

Ends-fresh : (f : Forwards) (x y : ℕ) → f x ≡ x → Ends f x y → y ≡ x
Ends-fresh f x y e u = Root-unique u.1 x 0 (here e)

pub IsKept-with_new :
    (kind : ℕ → Bool) (n : ℕ) (f : Forwards)
    → IsKept kind n f
    → IsKept (with_new kind n) (suc (suc n)) f
IsKept-with_new kind n f h = record {
  forest = h.forest;
  fresh = λ x l. h.fresh x (omega (arith, l));
  below = λ x y l u. elim (lt_cases x n) [
    | inl old ↦
        let (less, same) = h.below x y old u in
        (omega (arith, less), with_new_old kind n y less ∙ same ∙ sym (with_new_old kind n x old))
    | inr new ↦
        let same = Ends-fresh f x y (h.fresh x new) u in
        (subst (λ z. z < suc (suc n)) (sym same) l, ap (with_new kind n) same)
  ];
}

-- What `ForwardTo` leaves, for each fuel that is enough.
pub record Forwarded (kind : ℕ → Bool) (n : ℕ) (f : Forwards) (a dest : ℕ) : Type 0 where
  pub fuel : ℕ
  pub out : Forwards
  pub ends : (j : ℕ) → fuel ≤ j → forward_to j f a dest ≡ some out
  pub kept : IsKept kind n out
  pub dest_root : out dest ≡ dest
  pub other_roots : (x : ℕ) → f x ≡ x → kind x ≢ kind dest → out x ≡ x

module _ (kind : ℕ → Bool) (n : ℕ) (f : Forwards) (a dest : ℕ) (h : IsKept kind n f) where
  root_stays : (g : Forwards) (r x : ℕ) → Joined f g r dest → f x ≡ x → x ≢ r → g x ≡ x
  root_stays g r x joined root ne =
      Root-end (subst (λ z. Ends g x z) (rw (==_ne x r ne)) (joined x x (0, here root))).1

  Joined-below :
      (g : Forwards) (r x y : ℕ)
      → Joined f g r dest
      → dest < n
      → kind r ≡ kind dest
      → x < n
      → Ends g x y
      → (y < n) × (kind y ≡ kind x)
  Joined-below g r x y joined l same in_n u =
      let (z, end) = h.forest x in
      let (less, like) = h.below x z in_n end in
      let now : Ends g x (if z == r then dest else z) = joined x z end in
      let is_y : y ≡ (if z == r then dest else z) = Root-unique u.1 _ now.0 now.1 in
      elim (eq_cases z r) [
        | inl e ↦
            let y_dest : y ≡ dest = is_y ∙ rw (e, ==_refl r) refl in
            (subst (λ w. w < n) (sym y_dest) l, ap kind y_dest ∙ sym same ∙ sym (ap kind e) ∙ like)
        | inr ne ↦
            let y_z : y ≡ z = is_y ∙ rw (==_ne z r ne) refl in
            (subst (λ w. w < n) (sym y_z) less, ap kind y_z ∙ like)
      ]

  -- `ForwardTo` from an object to one of its kind that stands for itself.
  pub forward_to_Forwarded :
      a < n → dest < n → f dest ≡ dest → kind a ≡ kind dest → Forwarded kind n f a dest
  forward_to_Forwarded in_n dest_in_n root same =
      let (r, (d, chain)) = h.forest a in
      let (less, like) = h.below a r in_n (d, chain) in
      let (g, e, joined) = forward_to_joins (suc (suc d)) f h.forest root chain (omega arith) in
      record {
        fuel = suc (suc d);
        out = g;
        ends = λ j l. forward_to_later (suc (suc d)) j f a dest g l e;
        kept = record {
          forest = Joined-IsForest f g r dest h.forest joined;
          fresh = λ x l. root_stays g r x joined (h.fresh x l) (λ q. omega (arith, less, l, q));
          below = λ x y l u. Joined-below g r x y joined dest_in_n (like ∙ same) l u;
        };
        dest_root = Root-end (Joined-dest f g r dest root joined).1;
        other_roots =
            λ x is_root ne. root_stays g r x joined is_root (λ q. ne (ap kind q ∙ like ∙ same));
      }
