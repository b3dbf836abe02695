-- ===== src/Dyninst/OffsetTables/Blind.antt =====
-- The search for a start without cross-references: `BlindMatch` of
-- tools/mcsema_disass/dyninst/OffsetTable.cpp.
use mcsema.Prelude.{
  ℕ, zero, suc, ◌+◌, ◌*◌, ◌^◌, ◌%◌, ◌≤◌, ◌<◌, ◌≡◌, ◌≢◌, refl, sym, ◌∙◌, ap, subst, inl, inr, true,
  false, some, List, arith, ==_refl, ==_ne, eq_cases, if◌then◌else◌, Bool-cases, add64, add64-eq,
}
use mcsema.Dyninst.OffsetTables.{
  OffsetTable, moved, recompute, match_succs, Search, found, not_found, try_start, try_table,
  blind_loop, blind_match,
}

recomputed : (t : OffsetTable) (ea : ℕ) → ea % 4 ≡ 0 → recompute ea t ≡ some (moved ea t)
unfolding recompute
recomputed t ea a = ground arith

try_start_lem :
    (t : OffsetTable) (succs : List ℕ) (ea : ℕ) (rest : Search)
    → ea % 4 ≡ 0
    → try_start t succs ea rest ≡ (if match_succs (moved ea t) succs then found ea else rest)
unfolding try_start
try_start_lem t succs ea rest a =
    ap (λ o. try_table o succs ea rest) (recomputed t ea a) ∙ (unfold try_table in refl)

-- No start in [from, to) matches.
pub NoneMatches : OffsetTable → List ℕ → (from to : ℕ) → Type 0
NoneMatches t succs from to =
    (ea : ℕ) → from ≤ ea → ea < to → ea % 4 ≡ 0 → match_succs (moved ea t) succs ≡ false

-- The first start in [from, to) that matches, or that there is none.
pub data FirstMatch (t : OffsetTable) (succs : List ℕ) (from to : ℕ) (s : Search) : Type 0 where
  first :
      (ea : ℕ)
      → s ≡ found ea
      → from ≤ ea
      → ea < to
      → ea % 4 ≡ 0
      → match_succs (moved ea t) succs ≡ true
      → NoneMatches t succs from ea
      → FirstMatch t succs from to s
  nowhere : s ≡ not_found → NoneMatches t succs from to → FirstMatch t succs from to s

NoneMatches-step :
    (t : OffsetTable) (succs : List ℕ) (it to : ℕ)
    → it % 4 ≡ 0
    → match_succs (moved it t) succs ≡ false
    → NoneMatches t succs (it + 4) to
    → NoneMatches t succs it to
unfolding NoneMatches
NoneMatches-step t succs it to a none_here n ea lo hi b = elim (eq_cases ea it) [
  | inl e ↦ subst (λ z. match_succs (moved z t) succs ≡ false) (sym e) none_here
  | inr ne ↦ n ea (omega arith) hi b
]

blind_loop_stop :
    (k : ℕ) (t : OffsetTable) (succs : List ℕ) (it : ℕ)
    → it ≡ add64 t.start_ea t.size
    → blind_loop (suc k) t succs it ≡ not_found
unfolding blind_loop
blind_loop_stop k t succs it e = rw (e, ==_refl (add64 t.start_ea t.size)) refl

blind_loop_step :
    (k : ℕ) (t : OffsetTable) (succs : List ℕ) (it : ℕ)
    → it ≢ add64 t.start_ea t.size
    → it % 4 ≡ 0
    → blind_loop (suc k) t succs it
      ≡ (if match_succs (moved it t) succs then found it else blind_loop k t succs (add64 it 4))
unfolding blind_loop
blind_loop_step k t succs it ne a =
    rw (==_ne it (add64 t.start_ea t.size) ne)
      (try_start_lem t succs it (blind_loop k t succs (add64 it 4)) a)

blind_loop-FirstMatch :
    (k : ℕ) (t : OffsetTable) (succs : List ℕ) (it to : ℕ)
    → add64 t.start_ea t.size ≡ to
    → to + 4 < 2 ^ 64
    → it % 4 ≡ 0
    → to % 4 ≡ 0
    → it ≤ to
    → to < it + 4 * k
    → FirstMatch t succs it to (blind_loop k t succs it)
blind_loop-FirstMatch zero t succs it to e w a b l f = absurd (omega arith)
blind_loop-FirstMatch (suc k) t succs it to e w a b l f = elim (eq_cases it to) [
  | inl same ↦
      nowhere (blind_loop_stop k t succs it (same ∙ sym e))
        (unfold NoneMatches in λ ea lo hi c. absurd (omega arith))
  | inr ne ↦
      let step = blind_loop_step k t succs it (λ q. ne (q ∙ e)) a in
      elim (Bool-cases (match_succs (moved it t) succs)) [
        | inl yes_here ↦
            first it (step ∙ rw yes_here refl) (omega arith) (omega arith) a yes_here
              (unfold NoneMatches in λ ea lo hi c. absurd (omega arith))
        | inr not_here ↦
            elim (blind_loop-FirstMatch k t succs (it + 4) to e w (omega arith) b (omega arith)
              (omega arith)) [
                | nowhere q n ↦
                    nowhere
                      (step
                        ∙ rw not_here (ap (blind_loop k t succs) (add64-eq it 4 (omega arith)) ∙ q))
                      (NoneMatches-step t succs it to a not_here n)
                | first ea q lo hi c m n ↦
                    first ea
                      (step
                        ∙ rw not_here (ap (blind_loop k t succs) (add64-eq it 4 (omega arith)) ∙ q))
                      (omega arith) hi c m (NoneMatches-step t succs it ea a not_here n)
              ]
      ]
]

-- For a table that starts at a multiple of four and has a multiple of four bytes, BlindMatch ends,
-- with fuel for its words and one more: it returns the first start in the table that matches, and
-- nothing if there is none.
pub blind_match-FirstMatch :
    (k : ℕ) (t : OffsetTable) (succs : List ℕ)
    → t.start_ea % 4 ≡ 0
    → t.size % 4 ≡ 0
    → t.start_ea + t.size + 4 < 2 ^ 64
    → t.size < 4 * k
    → FirstMatch t succs t.start_ea (t.start_ea + t.size) (blind_match k t succs)
unfolding blind_match
blind_match-FirstMatch k t succs a b w f =
    blind_loop-FirstMatch k t succs t.start_ea (t.start_ea + t.size)
      (add64-eq t.start_ea t.size (omega arith)) (omega arith) a (omega arith) (omega arith)
      (omega arith)
