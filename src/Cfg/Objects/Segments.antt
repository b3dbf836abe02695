-- ===== src/Cfg/Objects/Segments.antt =====
-- The segment of an address and of a name (mcsema/CFG/CFG.cpp, `NativeModule::TryGetSegment`).
mod Tests
use mcsema.Prelude.{
  ℕ, suc, ◌≤◌, ◌≡◌, refl, sym, ◌∙◌, ap, inl, inr, Bool, true, false, Option, none, some, List, [],
  ◌∷◌, max, if◌then◌else◌, Bool-cases, same_text, arith, and_then,
}
use mcsema.Prelude.Maps.{Map, find?}
use mcsema.Cfg.Types.{NativeSegment}
use mcsema.Cfg.Names.{Bytes}
use mcsema.Cfg.Forward.{Forwards, get}
use mcsema.Cfg.Forward.Roots.{Ends, IsForest, SameRoots}
use mcsema.Cfg.Forward.Classes.{get_finds}
use mcsema.Cfg.Forward.Fuel.{get_later}
use mcsema.Cfg.Objects.{segment_named, holds_address, segment_at}

-- Which object stands for each.
abbrev pub StandsFor : Forwards → (ℕ → ℕ) → Type 0
StandsFor f rep = (x : ℕ) → Ends f x (rep x)

-- The first segment whose representative holds the address, and the first of a name.
abbrev pub first_at :
    (rep : ℕ → ℕ) → (all : Map NativeSegment) → (ea : ℕ) → List (ℕ × NativeSegment) → Option ℕ
first_at rep all ea [] = none
first_at rep all ea ((id, seg) ∷ segs) =
    if holds_address ea (find? (rep id) all) then some (rep id) else first_at rep all ea segs

abbrev pub first_named : (rep : ℕ → ℕ) → Bytes → List (ℕ × NativeSegment) → Option ℕ
first_named rep name [] = none
first_named rep name ((id, seg) ∷ segs) =
    if same_text name seg.lifted_name then some (rep id) else first_named rep name segs

-- A lookup that settles on a result, and keeps what stands for each object.
pub record Found (f : Forwards) (look : ℕ → Option (Forwards × Option ℕ)) (result : Option ℕ)
    : Type 0 where
  pub fuel : ℕ
  pub out : Forwards
  pub ends : (j : ℕ) → fuel ≤ j → look j ≡ some (out, result)
  pub same : SameRoots f out

module _ (f : Forwards) (rep : ℕ → ℕ) (stands : StandsFor f rep) where
  IsForest-of : IsForest f
  IsForest-of x = (rep x, stands x)

  same_roots : SameRoots f f
  same_roots x r = (λ u. u, λ u. u)

  pub segment_named-Found :
      (name : Bytes) (segs : List (ℕ × NativeSegment))
      → Found f (λ j. segment_named j f name segs) (first_named rep name segs)
  unfolding segment_named
  segment_named-Found name [] = record { fuel = 0; out = f; ends = λ j l. refl; same = same_roots }
  segment_named-Found name ((id, seg) ∷ segs) = elim (Bool-cases (same_text name seg.lifted_name)) [
    | inl e ↦
        let (d, chain) = stands id in
        let (g, got, same) = get_finds (suc d) f IsForest-of chain (omega arith) in
        record {
          fuel = suc d;
          out = g;
          ends = λ j l. rw (e, get_later (suc d) j f id (g, rep id) l got) refl;
          same = same;
        }
    | inr e ↦
        let rest = segment_named-Found name segs in
        record {
          fuel = rest.fuel;
          out = rest.out;
          ends = λ j l. rw (e) (rest.ends j l);
          same = rest.same;
        }
  ]

segment_at-Found :
    (f : Forwards) (rep : ℕ → ℕ) (stands : StandsFor f rep) (all : Map NativeSegment) (ea : ℕ)
    (segs : List (ℕ × NativeSegment))
    → Found f (λ j. segment_at j f all ea segs) (first_at rep all ea segs)
unfolding segment_at
segment_at-Found f rep stands all ea [] = record {
  fuel = 0;
  out = f;
  ends = λ j l. refl;
  same = same_roots f rep stands;
}
segment_at-Found f rep stands all ea ((id, seg) ∷ segs) =
    let (d, chain) = stands id in
    let (g, got, same) = get_finds (suc d) f (IsForest-of f rep stands) chain (omega arith) in
    elim (Bool-cases (holds_address ea (find? (rep id) all))) [
      | inl e ↦ record {
        fuel = suc d;
        out = g;
        ends = λ j l. rw (get_later (suc d) j f id (g, rep id) l got, e) refl;
        same = same;
      }
      | inr e ↦
          let rest = segment_at-Found g rep (λ x. (same x (rep x)).0 (stands x)) all ea segs in
          record {
            fuel = max (suc d) rest.fuel;
            out = rest.out;
            ends = λ j l.
                rw (get_later (suc d) j f id (g, rep id) (omega (arith, l)) got, e)
                  (rest.ends j (omega (arith, l)));
            same = λ x r.
                (λ u. (rest.same x r).0 ((same x r).0 u), λ u. (same x r).1 ((rest.same x r).1 u));
          }
    ]

-- If every object has one that stands for it, both lookups of a segment end, with any fuel from some
-- amount on, and what stands for each object stays the same. By name it is what stands for the first
-- segment that has the name in the bitcode; by address it is the first of what stands for the
-- segments, in their order, that holds the address; and nothing if there is none.
pub try_get_segment_lem :
    (f : Forwards) (rep : ℕ → ℕ) (all : Map NativeSegment) (segs : List (ℕ × NativeSegment))
    (name : Bytes) (ea : ℕ)
    → StandsFor f rep
    → Found f (λ j. segment_named j f name segs) (first_named rep name segs)
      × Found f (λ j. segment_at j f all ea segs) (first_at rep all ea segs)
try_get_segment_lem f rep all segs name ea stands =
    (segment_named-Found f rep stands name segs, segment_at-Found f rep stands all ea segs)
