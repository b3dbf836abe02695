-- ===== src/Prelude/Options.antt =====
-- Chains of steps that may have no result.
use mathlib.Core.Path.{◌≡◌, refl}
use mathlib.Core.Option.{Option, none, some}
use mathlib.Core.List.{List, [], ◌∷◌}

abbrev pub and_then {ι κ} :
    {Before : Type ι} {After : Type κ} → Option Before → (Before → Option After) → Option After
and_then none next = none
and_then (some value) next = next value

-- One step for each item, if all have a result.
abbrev pub map_all {ι κ} :
    {Before : Type ι} {After : Type κ} → (Before → Option After) → List Before → Option (List After)
map_all step [] = some []
map_all step (item ∷ items) =
    and_then (step item) (λ first. and_then (map_all step items) (λ rest. some (first ∷ rest)))

pub some_eq {ι} : {Value : Type ι} {left right : Value} → some left ≡ some right → left ≡ right
some_eq same = cc

pub and_then-inverts {ι κ} :
    {Before : Type ι} {After : Type κ} (step : Option Before) (next : Before → Option After)
    {last : After}
    → and_then step next ≡ some last
    → (value : Before) × (step ≡ some value) × (next value ≡ some last)
and_then-inverts (some value) next passed = (value, refl, passed)
and_then-inverts none next passed = cc
