-- ===== src/Cfg/Loader/Redirected.antt =====
-- An external variable and its segment take the place of older ones (mcsema/CFG/CFG.cpp, `ReadProtoBuf`).
use mcsema.Prelude.{
  ℕ, suc, ◌<◌, ◌≡◌, ◌≢◌, refl, sym, ◌∙◌, subst, inl, inr, Bool, true, false, Option, none, some,
  ◌∷◌, ◌==◌, if_cases, ==_refl, ==_ne, arith, same_text, some_eq, true_not_false, Bool-cases,
}
use mcsema.Prelude.Maps.{Map, Each, Each-assign}
use mcsema.Cfg.Types.{NativeSegment, ok}
use mcsema.Cfg.Names.{Bytes}
use mcsema.Cfg.Forward.{Forwards, forward_to}
use mcsema.Cfg.Forward.Kinds.{IsKept, with_new, Forwarded, forward_to_Forwarded}
use mcsema.Cfg.Objects.{Objects}
use mcsema.Cfg.Loader.Settled.{IsFine, Settles, Settles-at, Settles-then}
use mcsema.Cfg.Loader.Externals.{ByName, find_name, or_fuel, other_address, forward_older}
use mcsema.Cfg.Loader.Variables.{
  CfgExternalVariable, forward_variable, forward_segment, replace_segment, new_external_segment,
  enter_external_variable,
}

-- A segment, and the variable of an external one, are old objects of their kinds.
pub record IsOldSegment (kind : ℕ → Bool) (n : ℕ) (id : ℕ) (seg : NativeSegment) : Type 0 where
  pub old : id < n
  pub is_segment : kind id ≡ true
  pub variable : (v : ℕ) → seg.as_extern_var ≡ some v → (v < n) × (kind v ≡ false)

abbrev pub OldNames : (ℕ → Bool) → ℕ → ByName → Type 0
OldNames kind n by_name =
    (name : Bytes) (id : ℕ) → find_name name by_name ≡ some id → (id < n) × (kind id ≡ false)

-- Segments are of one kind, external variables of the other.
pub record Ready (by_name : ByName) (o : Objects) : Type 0 where
  pub kind : ℕ → Bool
  pub kept : IsKept kind o.next_id o.forwards
  pub segs : Each (IsOldSegment kind o.next_id) o.segments
  pub names : OldNames kind o.next_id by_name

Settles-forward :
    (kind : ℕ → Bool) (n : ℕ) (f : Forwards) (a dest : ℕ) (Good : Forwards → Type 0)
    (r : Forwarded kind n f a dest)
    → Good r.out
    → Settles (λ j. or_fuel (forward_to j f a dest)) Good
unfolding or_fuel
Settles-forward kind n f a dest Good r good = record {
  fuel = r.fuel;
  out = ok r.out;
  ends = λ j l. rw (r.ends j l) refl;
  fine = good;
}

-- The pointers while a new variable and its segment are put in.
abbrev pub KeepsBoth : (ℕ → Bool) → ℕ → Forwards → Type 0
KeepsBoth kind n f = IsKept (with_new kind n) (suc (suc n)) f × (f n ≡ n) × (f (suc n) ≡ suc n)

abbrev pub KeepsVariable : (ℕ → Bool) → ℕ → Forwards → Type 0
KeepsVariable kind n f = IsKept (with_new kind n) (suc (suc n)) f × (f (suc n) ≡ suc n)

module _ (kind : ℕ → Bool) (n : ℕ) where
  new_segment_kind : with_new kind n n ≡ true
  new_segment_kind = rw (==_refl n) refl

  new_variable_kind : with_new kind n (suc n) ≡ false
  new_variable_kind = rw (==_ne (suc n) n (λ e. omega (arith, e)), ==_refl (suc n)) refl

  kinds_differ : with_new kind n n ≢ with_new kind n (suc n)
  kinds_differ e = true_not_false (sym new_segment_kind ∙ e ∙ new_variable_kind)

  old_kind : (x : ℕ) (b : Bool) → x < n → kind x ≡ b → with_new kind n x ≡ b
  old_kind x b l e =
      rw (==_ne x n (λ q. omega (arith, l, q)), ==_ne x (suc n) (λ q. omega (arith, l, q))) e

  forward_variable-Settles :
      (f : Forwards) (old : Option ℕ)
      → ((v : ℕ) → old ≡ some v → (v < n) × (kind v ≡ false))
      → KeepsBoth kind n f
      → Settles (λ j. forward_variable j old (suc n) f) (KeepsBoth kind n)
  unfolding forward_variable
  forward_variable-Settles f none is_old both = Settles-at _ _ (ok f) (λ j. refl) both
  forward_variable-Settles f (some v) is_old both =
      let (l, e) = is_old v refl in
      let r =
        forward_to_Forwarded (with_new kind n) (suc (suc n)) f v (suc n) both.0 (omega (arith, l))
          (omega arith) both.2 (old_kind v false l e ∙ sym new_variable_kind) in
      Settles-forward (with_new kind n) (suc (suc n)) f v (suc n) _ r
        (r.kept, r.other_roots n both.1 kinds_differ, r.dest_root)

  pub forward_segment-Settles :
      (f : Forwards) (old : Option (ℕ × NativeSegment))
      → ((id : ℕ) (seg : NativeSegment) → old ≡ some (id, seg) → IsOldSegment kind n id seg)
      → KeepsBoth kind n f
      → Settles (λ j. forward_segment j old n (suc n) f) (KeepsVariable kind n)
  unfolding forward_segment
  forward_segment-Settles f none is_old both = Settles-at _ _ (ok f) (λ j. refl) (both.0, both.2)
  forward_segment-Settles f (some (id, seg)) is_old both =
      let old = is_old id seg refl in
      Settles-then (KeepsBoth kind n) (KeepsVariable kind n)
        (λ j. forward_variable j seg.as_extern_var (suc n) f) (λ j g. or_fuel (forward_to j g id n))
        (forward_variable-Settles f seg.as_extern_var old.variable both)
        (λ g kept.
          let r =
            forward_to_Forwarded (with_new kind n) (suc (suc n)) g id n kept.0
              (omega (arith, old.old)) (omega arith) kept.1
              (old_kind id true old.old old.is_segment ∙ sym new_segment_kind) in
          Settles-forward (with_new kind n) (suc (suc n)) g id n _ r
            (r.kept, r.other_roots (suc n) kept.2 (λ e. kinds_differ (sym e))))

  -- The older variable of the same name.
  other_address-IsFine :
      (dup_ea : Option ℕ) (ea : ℕ) (g : Forwards) (Good : Forwards → Type 0)
      → Good g
      → IsFine Good (other_address dup_ea ea g)
  unfolding other_address
  other_address-IsFine none ea g Good good = good
  other_address-IsFine (some dup_ea) ea g Good good = elim (Bool-cases (dup_ea == ea)) [
    | inl e ↦ rw (e) (λ q. cc)
    | inr e ↦ rw (e) good
  ]

  pub forward_older-Settles :
      (f : Forwards) (older : Option ℕ) (ea : ℕ) (ea_of : ℕ → Option ℕ)
      → ((id : ℕ) → older ≡ some id → (id < n) × (kind id ≡ false))
      → KeepsVariable kind n f
      → Settles
          (λ j. forward_older j older (suc n) ea ea_of f)
          (IsKept (with_new kind n) (suc (suc n)))
  unfolding forward_older
  forward_older-Settles f none ea ea_of is_old kept = Settles-at _ _ (ok f) (λ j. refl) kept.0
  forward_older-Settles f (some dup) ea ea_of is_old kept =
      let (l, e) = is_old dup refl in
      let r =
        forward_to_Forwarded (with_new kind n) (suc (suc n)) f dup (suc n) kept.0 (omega (arith, l))
          (omega arith) kept.1 (old_kind dup false l e ∙ sym new_variable_kind) in
      record {
        fuel = r.fuel;
        out = other_address (ea_of dup) ea r.out;
        ends = λ j l. rw (r.ends j l) refl;
        fine = other_address-IsFine (ea_of dup) ea r.out _ r.kept;
      }

later_segment :
    (kind : ℕ → Bool) (n id : ℕ) (seg : NativeSegment)
    → IsOldSegment kind n id seg
    → IsOldSegment (with_new kind n) (suc (suc n)) id seg
later_segment kind n id seg h = record {
  old = omega (arith, h.old);
  is_segment = old_kind kind n id true h.old h.is_segment;
  variable = λ v e. let (l, k) = h.variable v e in (omega (arith, l), old_kind kind n v false l k);
}

new_variable_old :
    (kind : ℕ → Bool) (n v : ℕ)
    → some (suc n) ≡ some v
    → (v < suc (suc n)) × (with_new kind n v ≡ false)
new_variable_old kind n v e =
    subst (λ w. (w < suc (suc n)) × (with_new kind n w ≡ false)) (some_eq e)
      (omega arith, new_variable_kind kind n)

-- The segments while the new ones are put in.
replaced_segments :
    (kind : ℕ → Bool) (n : ℕ) (old : Option (ℕ × NativeSegment)) (segments : Map NativeSegment)
    → ((id : ℕ) (seg : NativeSegment) → old ≡ some (id, seg) → IsOldSegment kind n id seg)
    → Each (IsOldSegment kind n) segments
    → Each (IsOldSegment (with_new kind n) (suc (suc n))) (replace_segment old (suc n) segments)
unfolding replace_segment
replaced_segments kind n none segments is_old each =
    λ id seg e. later_segment kind n id seg (each id seg e)
replaced_segments kind n (some (id, seg)) segments is_old each =
    let old = later_segment kind n id seg (is_old id seg refl) in
    Each-assign (IsOldSegment (with_new kind n) (suc (suc n))) id
      (record seg { as_extern_var = some (suc n) }) segments
      (record { old = old.old; is_segment = old.is_segment; variable = new_variable_old kind n })
      (λ id seg e. later_segment kind n id seg (each id seg e))

pub enter_external_variable-Ready :
    (cfg : CfgExternalVariable) (name : Bytes) (by_name : ByName) (o : Objects) (g : Forwards)
    (old : Option (ℕ × NativeSegment)) (older : Option ℕ) (r : Ready by_name o)
    → ((id : ℕ) (seg : NativeSegment) → old ≡ some (id, seg) → IsOldSegment r.kind o.next_id id seg)
    → IsKept (with_new r.kind o.next_id) (suc (suc o.next_id)) g
    → Ready ((name, suc o.next_id) ∷ by_name) (enter_external_variable cfg name older old g o)
unfolding enter_external_variable new_external_segment find_name
enter_external_variable-Ready cfg name by_name o g old older r is_old kept = record {
  kind = with_new r.kind o.next_id;
  kept = kept;
  segs =
      Each-assign (IsOldSegment (with_new r.kind o.next_id) (suc (suc o.next_id))) o.next_id _ _
        (record {
          old = omega arith;
          is_segment = new_segment_kind r.kind o.next_id;
          variable = new_variable_old r.kind o.next_id;
        })
        (replaced_segments r.kind o.next_id old o.segments is_old r.segs);
  names = λ word id e. elim (if_cases (same_text name word) _ _ e) [
    | inl (same, found) ↦ new_variable_old r.kind o.next_id id found
    | inr (other, found) ↦
        let (l, k) = r.names word id found in
        (omega (arith, l), old_kind r.kind o.next_id id false l k)
  ];
}
