-- ===== src/Cfg/Registers/Visits.antt =====
-- Which registers a visit names (mcsema/CFG/CFG.cpp and CFG.h).
use mcsema.Prelude.Maps.{or_else, find?, IsSorted}
use mcsema.Prelude.{
  append-nil, append_assoc, ℕ, suc, ◌≡◌, ◌⊎◌, inl, inr, refl, sym, ap, ◌∙◌, ◌++◌, Option, none,
  some, true, false, arith, length, length-append, subst, get_elem?, All, Bool-cases, none_not_some,
  ◌==◌, List, [], ◌∷◌,
}
use mcsema.Cfg.Types.{Checked, ok, failed, killed_range}
use mcsema.Cfg.Names.{Bytes}
use mcsema.Cfg.Registers.{
  PreservationRange, PreservedRegisters, RegisterSets, is_none, push_names, add_preserved,
  add_killed_ranges, add_killed, no_registers, load_registers, names_of, inst_preserved_registers,
  inst_killed_registers,
}
use mcsema.Cfg.Registers.Adds.{
  names_inst, first_set, first_index, registers_of, index_if, or_else_if, first_index_step,
  or_else_nothing, Adds, Adds-nothing, Adds-trans, preserved, killed, put_killed, push_names-Adds,
  add_preserved-Adds,
}

-- A range without an end, so a single instruction.
abbrev pub IsSingle : PreservationRange → Type 0
IsSingle r = r.end_ea ≡ none

-- The outcome of a loop over dead sets.
data Outcome (Good : Type 0) (names : List (List Bytes)) (new : ℕ → Option ℕ) (s : RegisterSets)
    (c : Checked RegisterSets) : Type 0 where
  added :
      (t : RegisterSets)
      → Good
      → c ≡ ok t
      → Adds killed preserved names new s t
      → Outcome Good names new s c
  refused : ¬ Good → c ≡ failed killed_range → Outcome Good names new s c

is_none_cases :
    (o : Option ℕ) → ((o ≡ none) × (is_none o ≡ true)) ⊎ (¬ (o ≡ none) × (is_none o ≡ false))
unfolding is_none
is_none_cases none = inl (refl, refl)
is_none_cases (some a) = inr (λ e. none_not_some (sym e), refl)

add_killed_ranges_cases :
    (i : ℕ) (rs : List PreservationRange) (s : RegisterSets)
    → IsSorted s.inst_killed
    → Outcome (All IsSingle rs) [] (λ ea. index_if ea i rs) s (add_killed_ranges i rs s)
unfolding add_killed_ranges
add_killed_ranges_cases i [] s o = added s tt refl (Adds-nothing killed preserved s o)
add_killed_ranges_cases i (r ∷ rs) s o = elim (is_none_cases r.end_ea) [
  | inr (some_end, e) ↦ refused (λ h. some_end h.0) (rw e)
  | inl (no_end, e) ↦
      let one = put_killed i r.begin_ea s o in
      elim (add_killed_ranges_cases i rs _ one.sorted) [
        | refused bad q ↦ refused (λ h. bad h.1) (rw (e, q))
        | added t good q rest ↦
            added t (no_end, good) (rw (e, q))
              (Adds-trans killed preserved [] [] _ _ _ s _ t one rest
                (λ ea. rw e (or_else_if (r.begin_ea == ea) (names_inst ea rs) i)))
      ]
]

add_killed_cases :
    (i : ℕ) (sets : List PreservedRegisters) (s : RegisterSets)
    → IsSorted s.inst_killed
    → Outcome
        (All (λ (set : PreservedRegisters). All IsSingle set.ranges) sets)
        (registers_of sets)
        (λ ea. first_index ea i sets)
        s
        (add_killed i sets s)
unfolding add_killed
add_killed_cases i [] s o = added s tt refl (Adds-nothing killed preserved s o)
add_killed_cases i (set ∷ sets) s o =
    let names =
      push_names-Adds killed preserved set.registers s o (unfold push_names in refl)
        (unfold push_names in refl) in
    elim (add_killed_ranges_cases i set.ranges (push_names set.registers s) names.sorted) [
      | refused bad q ↦ refused (λ h. bad h.0) (rw q)
      | added t good q ranges ↦ elim (add_killed_cases (suc i) sets t ranges.sorted) [
        | refused bad q' ↦ refused (λ h. bad h.1) (rw (q, q'))
        | added u good' q' rest ↦
            added u (good, good') (rw (q, q'))
              (Adds-trans killed preserved (set.registers ∷ []) (registers_of sets) _ _ _ s _ u
                (Adds-trans killed preserved (set.registers ∷ []) [] _ _ _ s _ t names ranges
                  (λ ea. or_else_nothing (index_if ea i set.ranges)))
                rest (λ ea. sym (first_index_step ea i set sets)))
      ]
    ]

get_elem?_last :
    (before : List (List Bytes)) (x : List Bytes) (after : List (List Bytes))
    → get_elem? (before ++ x ∷ after) (length before) ≡ some x
get_elem?_last [] x after = refl
get_elem?_last (y ∷ before) x after = get_elem?_last before x after

named_last :
    (before : List (List Bytes)) (x : List Bytes) (after : List (List Bytes))
    → names_of (some (length before)) (before ++ x ∷ after) ≡ x
unfolding names_of
named_last before x after = rw (names_of, get_elem?_last before x after)

length_snoc :
    (before : List (List Bytes)) (x : List Bytes) → length (before ++ x ∷ []) ≡ suc (length before)
length_snoc before x = omega (arith, length-append before (x ∷ []))

-- The names at the place of the first set are those of the set.
names_of-first_index :
    (ea : ℕ) (before : List (List Bytes)) (sets : List PreservedRegisters)
    (after : List (List Bytes))
    → names_of (first_index ea (length before) sets) (before ++ (registers_of sets ++ after))
      ≡ first_set ea sets
names_of-first_index ea before [] after = unfold names_of in refl
names_of-first_index ea before (s ∷ ss) after = elim (Bool-cases (names_inst ea s.ranges)) [
  | inl t ↦ rw t (named_last before s.registers (registers_of ss ++ after))
  | inr f ↦
      let later = names_of-first_index ea (before ++ s.registers ∷ []) ss after in
      rw f (
        subst
          (λ n.
            names_of (first_index ea n ss) (before ++ s.registers ∷ (registers_of ss ++ after))
            ≡ first_set ea ss)
          (length_snoc before s.registers)
          (subst
            (λ l.
              names_of (first_index ea (length (before ++ s.registers ∷ [])) ss) l
              ≡ first_set ea ss)
            (append_assoc before (s.registers ∷ []) (registers_of ss ++ after)) later))
]

-- What a visit of an instruction is given.
pub record Visited (preserved dead : List PreservedRegisters) (s : RegisterSets) : Type 0 where
  pub preserves : (ea : ℕ) → inst_preserved_registers s ea ≡ first_set ea preserved
  pub kills : (ea : ℕ) → inst_killed_registers s ea ≡ first_set ea dead

length-registers_of : (sets : List PreservedRegisters) → length (registers_of sets) ≡ length sets
length-registers_of [] = refl
length-registers_of (s ∷ sets) = ap suc (length-registers_of sets)

names_of_eq :
    {o p : Option ℕ} {l m : List (List Bytes)} → o ≡ p → l ≡ m → names_of o l ≡ names_of p m
names_of_eq e f = cc

load_registers-Visited :
    (saved dead : List PreservedRegisters) (s t : RegisterSets)
    → Adds preserved killed (registers_of saved) (λ ea. first_index ea 0 saved) no_registers s
    → Adds killed preserved (registers_of dead) (λ ea. first_index ea (length saved) dead) s t
    → Visited saved dead t
unfolding inst_preserved_registers inst_killed_registers
load_registers-Visited saved dead s t x y = record {
  preserves = λ ea.
      names_of_eq (saved_found ea) regs ∙ names_of-first_index ea [] saved (registers_of dead);
  kills = λ ea.
      names_of_eq (dead_found ea)
        (regs ∙ ap (λ l. registers_of saved ++ l) (sym (append-nil (registers_of dead))))
      ∙ names_of-first_index ea (registers_of saved) dead [];
}
  where
    regs : t.preserved_regs ≡ registers_of saved ++ registers_of dead
    regs = y.named ∙ ap (λ l. l ++ registers_of dead) x.named ∙ (unfold no_registers in refl)

    saved_found : (ea : ℕ) → find? ea (preserved t) ≡ first_index ea 0 saved
    saved_found ea = ap (find? ea) y.same ∙ x.finds ea ∙ (unfold no_registers find? or_else in refl)

    dead_found : (ea : ℕ) → find? ea (killed t) ≡ first_index ea (length (registers_of saved)) dead
    dead_found ea =
        y.finds ea
        ∙ ap (λ m. or_else (find? ea m) (first_index ea (length saved) dead)) x.same
        ∙ (unfold no_registers find? or_else in
            ap (λ n. first_index ea n dead) (sym (length-registers_of saved)))

-- Loading the sets fails exactly if a range of a dead set has an end. Else a visit of an instruction
-- names the registers of the first set, preserved or dead, that names the instruction.
pub load_registers_cases :
    (saved dead : List PreservedRegisters)
    → (All (λ (set : PreservedRegisters). All IsSingle set.ranges) dead
        × ((s : RegisterSets) × (load_registers saved dead ≡ ok s) × Visited saved dead s))
      ⊎ (¬ (All (λ (set : PreservedRegisters). All IsSingle set.ranges) dead)
          × (load_registers saved dead ≡ failed killed_range))
unfolding load_registers
load_registers_cases saved dead =
    let x = add_preserved-Adds 0 saved no_registers (unfold no_registers in tt) in
    elim (add_killed_cases (length saved) dead (add_preserved 0 saved no_registers)
      (subst IsSorted (sym x.same) (unfold no_registers in tt))) [
        | refused bad q ↦ inr (bad, q)
        | added t good q y ↦ inl (good, (t, q, load_registers-Visited saved dead _ t x y))
      ]
