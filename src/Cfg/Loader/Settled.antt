-- ===== src/Cfg/Loader/Settled.antt =====
-- Computations on fuel whose result is settled once there is enough of it
-- (mcsema/CFG/CFG.cpp, `ReadProtoBuf`).
use mcsema.Prelude.{ℕ, ◌≤◌, ◌≡◌, ◌≢◌, refl, max, arith}
use mcsema.Cfg.Types.{Checked, ok, failed, ◌>>=◌, out_of_fuel}

module _ {ℓ} {A : Type ℓ} where
  -- A result as the predicate says, or a CHECK that failed.
  abbrev pub IsFine : (A → Type 0) → Checked A → Type 0
  IsFine Good (ok a) = Good a
  IsFine Good (failed why) = why ≢ out_of_fuel

  pub record Settles (run : ℕ → Checked A) (Good : A → Type 0) : Type ℓ where
    pub fuel : ℕ
    pub out : Checked A
    pub ends : (j : ℕ) → fuel ≤ j → run j ≡ out
    pub fine : IsFine Good out

  pub Settles-at :
      (run : ℕ → Checked A) (Good : A → Type 0) (out : Checked A)
      → ((j : ℕ) → run j ≡ out)
      → IsFine Good out
      → Settles run Good
  Settles-at run Good out same fine = record {
    fuel = 0;
    out = out;
    ends = λ j l. same j;
    fine = fine;
  }

module _ {ι κ} {A : Type ι} {B : Type κ} (Good : A → Type 0) (Last : B → Type 0) where
  settled_then :
      (run : ℕ → Checked A) (next : ℕ → A → Checked B) (k : ℕ) (out : Checked A)
      → ((j : ℕ) → k ≤ j → run j ≡ out)
      → IsFine Good out
      → ((a : A) → Good a → Settles (λ j. next j a) Last)
      → Settles (λ j. run j >>= next j) Last
  settled_then run next k (ok a) ends fine later =
      let t = later a fine in
      record {
        fuel = max k t.fuel;
        out = t.out;
        ends = λ j l. rw (ends j (omega (arith, l))) (t.ends j (omega (arith, l)));
        fine = t.fine;
      }
  settled_then run next k (failed why) ends fine later = record {
    fuel = k;
    out = failed why;
    ends = λ j l. rw (ends j l) refl;
    fine = fine;
  }

  pub Settles-then :
      (run : ℕ → Checked A) (next : ℕ → A → Checked B)
      → Settles run Good
      → ((a : A) → Good a → Settles (λ j. next j a) Last)
      → Settles (λ j. run j >>= next j) Last
  Settles-then run next s later = settled_then run next s.fuel s.out s.ends s.fine later
