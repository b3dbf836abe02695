-- ===== src/Cfg/Forward/Classes.antt =====
-- `Get` and `ForwardTo` of mcsema/CFG/CFG.cpp as operations on the classes of duplicate objects.
use mcsema.Prelude.{
  ℕ, zero, suc, ◌<◌, ◌≡◌, refl, subst, ◌≢◌, some, arith, ◌==◌, if◌then◌else◌, ==_refl, ==_ne,
}
use mcsema.Cfg.Forward.{Forwards, fresh_forwards, set_forward, get, forward_to}
use mcsema.Cfg.Forward.Roots.{
  Root, here, hop, Ends, IsForest, SameRoots, Root-end, Root-unique, compress-Ends, link-Ends,
  SameRoots-of_forest,
}

pub fresh-IsForest : IsForest fresh_forwards
unfolding fresh_forwards
fresh-IsForest a = (a, (0, here refl))

hop_moves : {f : Forwards} {a r d : ℕ} → f a ≢ a → Root f a r d → r ≢ a
hop_moves {f} ne t e = ne (subst (λ z. f z ≡ z) e (Root-end t))

-- A forest in which `a` still ends elsewhere does not point `a` at itself.
still_not_root : (f g : Forwards) (a r : ℕ) → r ≢ a → Ends g a r → g a ≢ a
still_not_root f g a r ne t e = ne (Root-unique t.1 a 0 (here e))

set_same_class :
    (f : Forwards) (a r : ℕ) (g : Forwards)
    → IsForest f
    → SameRoots f g
    → Ends f a r
    → r ≢ a
    → SameRoots f (set_forward g a r)
set_same_class f a r g forest same t ne = SameRoots-of_forest f (set_forward g a r) forest λ x y u.
    compress-Ends g a r (Root-end in_g.1) in_g.1 (still_not_root f g a r ne in_g) ((same x y).0 u).1
  where
    in_g : Ends g a r
    in_g = (same a r).0 t

-- In a forest, with more fuel than the chain of `a` has hops, `Get` returns the representative of
-- `a`, and the pointers that it shortens leave every object's representative as it was.
pub get_finds :
    (k : ℕ) (f : Forwards) {a r d : ℕ}
    → IsForest f
    → Root f a r d
    → d < k
    → (g : Forwards) × (get k f a ≡ some (g, r)) × SameRoots f g
unfolding get
get_finds zero f forest t h = elim h [ ]
get_finds (suc k) f {a = a} forest (here e) h = (f, rw (e, ==_refl a), λ x r. (λ u. u, λ u. u))
get_finds (suc k) f {a = a} {r = r} forest (hop ne t) h =
    let (g, e, same) = get_finds k f forest t (omega arith) in
    (
      set_forward g a r,
      rw (==_ne (f a) a ne, e),
      set_same_class f a r g forest same (suc _, hop ne t) (hop_moves ne (hop ne t)),
    )

-- What `a->ForwardTo(dest)` does to the class of `r`, the representative of `a`.
abbrev pub Joined : Forwards → Forwards → ℕ → ℕ → Type 0
Joined f g r dest = (x y : ℕ) → Ends f x y → Ends g x (if y == r then dest else y)

if_same : (b : ℕ) (c : ℕ) → (if b == c then b else b) ≡ b
if_same b c = ground arith

pub Joined-dest :
    (f g : Forwards) (r dest : ℕ) → f dest ≡ dest → Joined f g r dest → Ends g dest dest
Joined-dest f g r dest e j = subst (λ z. Ends g dest z) (if_same dest r) (j dest dest (0, here e))

join_here :
    (k : ℕ) (f : Forwards) {a dest : ℕ}
    → IsForest f
    → f a ≡ a
    → f dest ≡ dest
    → (g : Forwards) × (forward_to (suc (suc k)) f a dest ≡ some g) × Joined f g a dest
unfolding forward_to get
join_here k f {a} {dest} forest a_root dest_root = (
  set_forward f a dest,
  rw (a_root, ==_refl a, dest_root, ==_refl dest),
  λ x y u. link-Ends f a dest dest_root a_root u.1,
)

join_hop :
    (f g : Forwards) (a r dest : ℕ)
    → f a ≢ a
    → f dest ≡ dest
    → Ends f a r
    → Joined f g r dest
    → Joined f (set_forward g a dest) r dest
join_hop f g a r dest ne dest_root t j x y u =
    compress-Ends g a dest (Root-end dest_ends.1) a_ends.1 (still_not_root f g a dest far a_ends)
      (j x y u).1
  where
    far : dest ≢ a
    far e = ne (subst (λ z. f z ≡ z) e dest_root)

    dest_ends : Ends g dest dest
    dest_ends = Joined-dest f g r dest dest_root j

    a_ends : Ends g a dest
    a_ends = subst (λ z. Ends g a z) (rw (==_refl r)) (j a r t)

-- In a forest, with fuel for the chain of `a` and one more hop, `ForwardTo` to an object `dest` that
-- stands for itself ends, and joins the classes: what `a`'s representative stood for, `dest` now
-- stands for, and everything else keeps its representative.
pub forward_to_joins :
    (k : ℕ) (f : Forwards) {a r d dest : ℕ}
    → IsForest f
    → f dest ≡ dest
    → Root f a r d
    → suc d < k
    → (g : Forwards) × (forward_to k f a dest ≡ some g) × Joined f g r dest
unfolding forward_to
forward_to_joins zero f forest dest_root t h = elim h [ ]
forward_to_joins (suc zero) f forest dest_root t h = absurd (omega arith)
forward_to_joins (suc (suc k)) f forest dest_root (here e) h = join_here k f forest e dest_root
forward_to_joins (suc (suc k)) f {a} {r} {dest = dest} forest dest_root (hop ne t) h =
    let (g, e, j) = forward_to_joins (suc k) f forest dest_root t (omega arith) in
    (
      set_forward g a dest,
      rw (==_ne (f a) a ne, e),
      join_hop f g a r dest ne dest_root (suc _, hop ne t) j,
    )

-- The result is a forest again.
pub Joined-IsForest : (f g : Forwards) (r dest : ℕ) → IsForest f → Joined f g r dest → IsForest g
Joined-IsForest f g r dest forest j a = (_, j a (forest a).0 (forest a).1)
