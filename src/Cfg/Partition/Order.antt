-- ===== src/Cfg/Partition/Order.antt =====
-- From a tiling to the map of entries, and the check at its end (mcsema/CFG/CFG.cpp,
-- `ReadProtoBuf`).
use mcsema.Prelude.{
  ℕ, ◌≤◌, ◌<◌, ◌≡◌, refl, sym, subst, ◌∙◌, ◌↔◌, some, List, [], ◌∷◌, ◌++◌, arith, ==_refl, lt→ltb,
  All,
}
use mcsema.Prelude.Maps.{
  find?, Below, emplace-Below, find?-emplace_old, emplace-IsSorted, IsSorted, emplace-append,
}
use mcsema.Cfg.Types.{Entry, Entries, ok}
use mcsema.Cfg.Partition.{emplace_blobs, verify}
use mcsema.Cfg.Partition.Cover.{IsPartition, Cover, start, blob, entry}

pub IsPartition-bound : (lo hi : ℕ) (p : Entries) → IsPartition lo hi p → lo ≤ hi
IsPartition-bound lo hi [] h = omega arith
IsPartition-bound lo hi ((k, e) ∷ p) h = omega (arith, IsPartition-bound e.next_ea hi p h.3)

pub IsPartition-Below : (lo hi : ℕ) (p : Entries) → IsPartition lo hi p → Below hi p
IsPartition-Below lo hi [] h = tt
IsPartition-Below lo hi ((k, e) ∷ p) h =
    (omega (arith, IsPartition-bound e.next_ea hi p h.3), IsPartition-Below e.next_ea hi p h.3)

pub IsPartition-snoc :
    (lo m n : ℕ) (p : Entries) (e : Entry)
    → IsPartition lo m p
    → e.ea ≡ m
    → m < n
    → e.next_ea ≡ n
    → IsPartition lo n (p ++ (m, e) ∷ [])
IsPartition-snoc lo m n [] e h a l b = (sym h, a ∙ sym h, omega arith, b)
IsPartition-snoc lo m n ((k, e') ∷ p) e h a l b =
    (h.0, h.1, h.2, IsPartition-snoc e'.next_ea m n p e h.3 a l b)

-- The entries in the order of the map.
pub restore : Entries → Entries
restore [] = []
restore (x ∷ es) = restore es ++ x ∷ []

unfoldable pub rev_onto : Entries → Entries → Entries
rev_onto [] done = done
rev_onto (x ∷ es) done = rev_onto es (x ∷ done)

weaken_below :
    {a z : ℕ} (bs : List Entry)
    → a < z
    → All (λ (b : Entry). b.ea < a) bs
    → All (λ (b : Entry). b.ea < z) bs
weaken_below [] h v = tt
weaken_below (b ∷ bs) h v = (omega arith, weaken_below bs h v.1)

Cover-below :
    {lo m : ℕ} {blobs : List Entry} {entries : Entries}
    → Cover lo m blobs entries
    → All (λ (b : Entry). b.ea < m) blobs
Cover-below start = tt
Cover-below (blob b c e h n) = (omega arith, weaken_below _ h (Cover-below c))
Cover-below (entry b c e h n) = weaken_below _ h (Cover-below c)

emplace_blobs-append :
    (blobs : List Entry) (m : ℕ) (e : Entry) (p : Entries)
    → All (λ (b : Entry). b.ea < m) blobs
    → emplace_blobs blobs (p ++ (m, e) ∷ []) ≡ emplace_blobs blobs p ++ (m, e) ∷ []
unfolding emplace_blobs
emplace_blobs-append [] m e p h = refl
emplace_blobs-append (b ∷ blobs) m e p h =
    rw (emplace_blobs-append blobs m e p h.1) (emplace-append b.ea m b e _ h.0)

-- Filling the blobs of a cover into the entries gives a partition.
pub Cover-IsPartition :
    {lo m : ℕ} {blobs : List Entry} {entries : Entries}
    → Cover lo m blobs entries
    → IsPartition lo m (emplace_blobs blobs (restore entries))
unfolding emplace_blobs restore
Cover-IsPartition start = refl
Cover-IsPartition {lo} {m} (blob {m = m'} {blobs = bs} {entries = es} b c e h n) =
    let p : Entries = emplace_blobs bs (restore es) in
    let ih : IsPartition lo b.ea p =
      subst (λ z. IsPartition lo z p) (sym e) (Cover-IsPartition c) in
    subst (IsPartition lo m) (sym (emplace-Below b.ea b p (IsPartition-Below lo b.ea p ih)))
      (IsPartition-snoc lo b.ea m p b ih refl (omega arith) n)
Cover-IsPartition {lo} {m} {blobs} (entry {m = m'} {entries = es} e c a h n) =
    rw (emplace_blobs-append blobs m' e (restore es) (Cover-below c))
      (IsPartition-snoc lo m' m _ e (Cover-IsPartition c) a h n)

append_assoc_entries : (a b c : Entries) → (a ++ b) ++ c ≡ a ++ (b ++ c)
append_assoc_entries [] b c = refl
append_assoc_entries (x ∷ a) b c = rw (append_assoc_entries a b c)

append_nil_entries : (a : Entries) → a ++ [] ≡ a
append_nil_entries [] = refl
append_nil_entries (x ∷ a) = rw (append_nil_entries a)

restore-rev_onto : (es done : Entries) → restore (rev_onto es done) ≡ restore done ++ es
unfolding restore rev_onto
restore-rev_onto [] done = sym (append_nil_entries (restore done))
restore-rev_onto (x ∷ es) done =
    restore-rev_onto es (x ∷ done) ∙ append_assoc_entries (restore done) (x ∷ []) es

pub restore-reverse : (es : Entries) → restore (rev_onto es []) ≡ es
unfolding restore
restore-reverse es = restore-rev_onto es []

-- The final check accepts exactly the partitions.
pub verify_iff : (lo hi : ℕ) (p : Entries) → (verify lo hi p ≡ ok tt) ↔ IsPartition lo hi p
unfolding verify
verify_iff lo hi [] = (λ h. ground arith, λ h. ground arith)
verify_iff lo hi ((k, e) ∷ p) = (
  λ h. ground (arith, (verify_iff e.next_ea hi p).0),
  λ h.
      rw (h.0, ==_refl lo, h.1, ==_refl lo, lt→ltb lo e.next_ea h.2)
        ((verify_iff e.next_ea hi p).1 h.3),
)

pub emplace_blobs-IsSorted :
    (blobs : List Entry) (p : Entries) → IsSorted p → IsSorted (emplace_blobs blobs p)
unfolding emplace_blobs
emplace_blobs-IsSorted [] p o = o
emplace_blobs-IsSorted (b ∷ blobs) p o =
    emplace-IsSorted b.ea b (emplace_blobs blobs p) (emplace_blobs-IsSorted blobs p o)

pub find?-emplace_blobs :
    (k : ℕ) (e : Entry) (blobs : List Entry) (p : Entries)
    → IsSorted p
    → find? k p ≡ some e
    → find? k (emplace_blobs blobs p) ≡ some e
unfolding emplace_blobs
find?-emplace_blobs k e [] p o h = h
find?-emplace_blobs k e (b ∷ blobs) p o h =
    find?-emplace_old k b.ea e b (emplace_blobs blobs p) (emplace_blobs-IsSorted blobs p o)
      (find?-emplace_blobs k e blobs p o h)
