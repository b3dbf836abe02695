-- ===== src/Cfg/Registers/Adds.antt =====
-- What the loops over the sets of registers add (mcsema/CFG/CFG.cpp, `ReadProtoBuf`).
use mcsema.Prelude.Maps.{
  or_else, or_else_assoc, or_else-none, find?-emplace, Map, find?, emplace, IsSorted,
  emplace-IsSorted,
}
use mcsema.Prelude.{
  append-nil, append_assoc, ℕ, suc, ◌≡◌, inl, inr, refl, sym, ap, subst, ◌∙◌, ◌++◌, Option, none,
  some, true, Bool-cases, Option-cases, Bool, false, ◌||◌, List, [], ◌∷◌, ◌==◌, if◌then◌else◌,
}
use mcsema.Cfg.Names.{Bytes}
use mcsema.Cfg.Registers.{
  RegisterSets, add_preserved_range, add_preserved_ranges, add_preserved, push_names,
  PreservationRange, PreservedRegisters, is_none,
}

-- The set's ranges name the single instruction at `ea`.
abbrev pub names_inst : ℕ → List PreservationRange → Bool
names_inst ea [] = false
names_inst ea (r ∷ rs) = (if is_none r.end_ea then r.begin_ea == ea else false) || names_inst ea rs

-- The registers of the first set that names the instruction.
abbrev pub first_set : ℕ → List PreservedRegisters → List Bytes
first_set ea [] = []
first_set ea (s ∷ ss) = if names_inst ea s.ranges then s.registers else first_set ea ss

-- The place of that set, when the first has place `i`.
abbrev pub first_index : ℕ → ℕ → List PreservedRegisters → Option ℕ
first_index ea i [] = none
first_index ea i (s ∷ ss) = if names_inst ea s.ranges then some i else first_index ea (suc i) ss

abbrev pub registers_of : List PreservedRegisters → List (List Bytes)
registers_of [] = []
registers_of (s ∷ ss) = s.registers ∷ registers_of ss

pub or_else_if :
    (b c : Bool) (i : ℕ)
    → or_else (if b then some i else none) (if c then some i else none)
      ≡ (if b || c then some i else none)
unfolding or_else
or_else_if true c i = refl
or_else_if false c i = refl

-- What a set, the `i`-th, adds to a map of instructions.
abbrev pub index_if : ℕ → ℕ → List PreservationRange → Option ℕ
index_if ea i ranges = if names_inst ea ranges then some i else none

pub first_index_step :
    (ea i : ℕ) (s : PreservedRegisters) (ss : List PreservedRegisters)
    → first_index ea i (s ∷ ss) ≡ or_else (index_if ea i s.ranges) (first_index ea (suc i) ss)
unfolding or_else
first_index_step ea i s ss = elim (Bool-cases (names_inst ea s.ranges)) [
  | inl t ↦ rw t
  | inr f ↦ rw f
]

-- What a part of the loops does: sets of registers are added, and one map, `touched`, finds what it
-- found and else what is new.
pub record Adds (touched kept : RegisterSets → Map ℕ) (names : List (List Bytes))
    (new : ℕ → Option ℕ) (s t : RegisterSets) : Type 0 where
  pub sorted : IsSorted (touched t)
  pub same : kept t ≡ kept s
  pub named : t.preserved_regs ≡ s.preserved_regs ++ names
  pub finds : (ea : ℕ) → find? ea (touched t) ≡ or_else (find? ea (touched s)) (new ea)

pub Adds-nothing :
    (touched kept : RegisterSets → Map ℕ) (s : RegisterSets)
    → IsSorted (touched s)
    → Adds touched kept [] (λ ea. none) s s
Adds-nothing touched kept s o = record {
  sorted = o;
  same = refl;
  named = sym (append-nil s.preserved_regs);
  finds = λ ea. sym (or_else-none (find? ea (touched s)));
}

pub Adds-trans :
    (touched kept : RegisterSets → Map ℕ) (a b : List (List Bytes)) (f g h : ℕ → Option ℕ)
    (s t u : RegisterSets)
    → Adds touched kept a f s t
    → Adds touched kept b g t u
    → ((ea : ℕ) → or_else (f ea) (g ea) ≡ h ea)
    → Adds touched kept (a ++ b) h s u
Adds-trans touched kept a b f g h s t u x y e = record {
  sorted = y.sorted;
  same = y.same ∙ x.same;
  named = y.named ∙ ap (λ l. l ++ b) x.named ∙ append_assoc s.preserved_regs a b;
  finds = λ ea.
      y.finds ea
      ∙ ap (λ o. or_else o (g ea)) (x.finds ea)
      ∙ or_else_assoc (find? ea (touched s)) (f ea) (g ea)
      ∙ ap (or_else (find? ea (touched s))) (e ea);
}

abbrev pub preserved : RegisterSets → Map ℕ
preserved s = s.inst_preserved

abbrev pub killed : RegisterSets → Map ℕ
killed s = s.inst_killed

-- An instruction put into a map.
put_preserved :
    (i ea : ℕ) (s : RegisterSets)
    → IsSorted s.inst_preserved
    → Adds preserved killed []
        (λ k. if ea == k then some i else none)
        s
        (record s { inst_preserved = emplace ea i s.inst_preserved })
put_preserved i ea s o = record {
  sorted = emplace-IsSorted ea i s.inst_preserved o;
  same = refl;
  named = sym (append-nil s.preserved_regs);
  finds = λ k. find?-emplace k ea i s.inst_preserved o;
}

pub put_killed :
    (i ea : ℕ) (s : RegisterSets)
    → IsSorted s.inst_killed
    → Adds killed preserved []
        (λ k. if ea == k then some i else none)
        s
        (record s { inst_killed = emplace ea i s.inst_killed })
put_killed i ea s o = record {
  sorted = emplace-IsSorted ea i s.inst_killed o;
  same = refl;
  named = sym (append-nil s.preserved_regs);
  finds = λ k. find?-emplace k ea i s.inst_killed o;
}

-- Whether one range names the instruction.
abbrev names_one : ℕ → PreservationRange → Bool
names_one ea r = if is_none r.end_ea then r.begin_ea == ea else false

-- A range with an end is kept apart.
put_range :
    (i begin_ea end_ea : ℕ) (s : RegisterSets)
    → IsSorted s.inst_preserved
    → Adds preserved killed []
        (λ ea. none)
        s
        (record s { range_preserved = s.range_preserved ++ (begin_ea, end_ea, i) ∷ [] })
put_range i begin_ea end_ea s o = record {
  sorted = o;
  same = refl;
  named = sym (append-nil s.preserved_regs);
  finds = λ ea. sym (or_else-none (find? ea s.inst_preserved));
}

add_preserved_range-Adds :
    (i : ℕ) (r : PreservationRange) (s : RegisterSets)
    → IsSorted s.inst_preserved
    → Adds preserved killed []
        (λ ea. if names_one ea r then some i else none)
        s
        (add_preserved_range i r s)
unfolding add_preserved_range is_none
add_preserved_range-Adds i r s o = elim (Option-cases r.end_ea) [
  | inl e ↦ rw e (put_preserved i r.begin_ea s o)
  | inr (b, e) ↦ rw e (put_range i r.begin_ea b s o)
]

add_preserved_ranges-Adds :
    (i : ℕ) (rs : List PreservationRange) (s : RegisterSets)
    → IsSorted s.inst_preserved
    → Adds preserved killed [] (λ ea. index_if ea i rs) s (add_preserved_ranges i rs s)
unfolding add_preserved_ranges
add_preserved_ranges-Adds i [] s o = Adds-nothing preserved killed s o
add_preserved_ranges-Adds i (r ∷ rs) s o =
    let one = add_preserved_range-Adds i r s o in
    Adds-trans preserved killed [] [] _ _ _ s _ _ one
      (add_preserved_ranges-Adds i rs (add_preserved_range i r s) one.sorted)
      (λ ea. or_else_if (names_one ea r) (names_inst ea rs) i)

-- Only the names of a set are added.
pub push_names-Adds :
    (touched kept : RegisterSets → Map ℕ) (names : List Bytes) (s : RegisterSets)
    → IsSorted (touched s)
    → touched (push_names names s) ≡ touched s
    → kept (push_names names s) ≡ kept s
    → Adds touched kept (names ∷ []) (λ ea. none) s (push_names names s)
unfolding push_names
push_names-Adds touched kept names s o e f = record {
  sorted = subst IsSorted (sym e) o;
  same = f;
  named = refl;
  finds = λ ea. ap (find? ea) e ∙ sym (or_else-none (find? ea (touched s)));
}

pub or_else_nothing : (a : Option ℕ) → or_else none a ≡ a
unfolding or_else
or_else_nothing a = refl

pub add_preserved-Adds :
    (i : ℕ) (sets : List PreservedRegisters) (s : RegisterSets)
    → IsSorted s.inst_preserved
    → Adds preserved killed
        (registers_of sets)
        (λ ea. first_index ea i sets)
        s
        (add_preserved i sets s)
unfolding add_preserved
add_preserved-Adds i [] s o = Adds-nothing preserved killed s o
add_preserved-Adds i (set ∷ sets) s o =
    let names =
      push_names-Adds preserved killed set.registers s o (unfold push_names in refl)
        (unfold push_names in refl) in
    let ranges = add_preserved_ranges-Adds i set.ranges (push_names set.registers s) names.sorted in
    let rest = add_preserved-Adds (suc i) sets _ ranges.sorted in
    Adds-trans preserved killed (set.registers ∷ []) (registers_of sets) _ _ _ s _ _
      (Adds-trans preserved killed (set.registers ∷ []) [] _ _ _ s _ _ names ranges
        (λ ea. or_else_nothing (index_if ea i set.ranges)))
      rest (λ ea. sym (first_index_step ea i set sets))
