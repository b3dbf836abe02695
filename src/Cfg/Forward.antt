-- ===== src/Cfg/Forward.antt =====
-- `NativeObject::forward`, `ForwardTo` and `Get` of mcsema/CFG/CFG.cpp: pointers that resolve
-- duplicate objects. An object is a number, and the forwarding pointers of all objects are one
-- function; an object that forwards to itself stands for its class.
pub mod Roots
pub mod Classes
pub mod Fuel
pub mod Kinds
mod Tests
use mcsema.Prelude.{ℕ, zero, suc, ◌≡◌, ◌≢◌, Option, none, some, ◌==◌, if◌then◌else◌}

abbrev pub Forwards : Type 0
Forwards = ℕ → ℕ

-- The constructor points each object at itself.
unfoldable pub fresh_forwards : Forwards
fresh_forwards a = a

-- `a->forward = b`.
pub set_forward : Forwards → ℕ → ℕ → Forwards
set_forward f a b x = if x == a then b else f x

-- `a->Get()`: the end of the chain, to which every object on the way is pointed. `none` means that
-- the fuel, which bounds the depth of the recursion, ran out.
unfoldable pub get : ℕ → Forwards → ℕ → Option (Forwards × ℕ)
get zero f a = none
get (suc k) f a =
    let rest : Option (Forwards × ℕ) = get k f (f a) in
    if f a == a
    then some (f, a)
    else elim rest [ none ↦ none | some (f', r) ↦ some (set_forward f' a r, r) ]

-- `a->ForwardTo(dest)`.
unfoldable pub forward_to : ℕ → Forwards → ℕ → ℕ → Option Forwards
forward_to zero f a dest = none
forward_to (suc k) f a dest =
    let chained : Option Forwards = forward_to k f (f a) dest in
    if f a == a
    then elim (get k f dest) [ none ↦ none | some (f', r) ↦ some (set_forward f' a r) ]
    else elim chained [ none ↦ none | some f' ↦ some (set_forward f' a dest) ]
