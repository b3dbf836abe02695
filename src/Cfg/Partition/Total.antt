-- ===== src/Cfg/Partition/Total.antt =====
-- The blob stage of `ReadProtoBuf` (mcsema/CFG/CFG.cpp) as a whole.
use mcsema.Prelude.{
  ℕ, suc, ◌+◌, ◌-◌, ◌≤◌, ◌<◌, ◌^◌, ◌≡◌, refl, sym, subst, inl, inr, Bool, true, false, none, some,
  List, [], ◌∷◌, ◌++◌, max, arith, ==_refl, ==_ne, Option-cases, All, add64, add64-eq,
}
use mcsema.Prelude.Maps.{find?, erase, Below, assign-Below, erase-append_self, Above, IsSorted}
use mcsema.Cfg.Types.{Entry, Entries, Failure, ok, failed, >>=-inverts, ok-eq}
use mcsema.Cfg.Partition.{
  ByteRange, fill_gap, fill_entries, emplace_blobs, verify, add_sentinel, fill_with_sentinel,
  fill_blobs,
}
use mcsema.Cfg.Partition.Cover.{IsPartition, start, entry}
use mcsema.Cfg.Partition.Bytes.{IsBlob}
use mcsema.Cfg.Partition.Gaps.{Tiled, Cut, fill_gap-Gap}
use mcsema.Cfg.Partition.Order.{
  rev_onto, Cover-IsPartition, restore-reverse, verify_iff, find?-emplace_blobs,
}

-- The entries lie apart, in order, inside [lo, hi), each under its own address.
abbrev pub Fits : ℕ → ℕ → Entries → Type 0
Fits lo hi [] = lo ≤ hi
Fits lo hi ((key, e) ∷ es) = (lo ≤ key) × (e.ea ≡ key) × (key < e.next_ea) × Fits e.next_ea hi es

Fits-bound : (lo hi : ℕ) (es : Entries) → Fits lo hi es → lo ≤ hi
Fits-bound lo hi [] f = f
Fits-bound lo hi ((k, e) ∷ es) f = omega (arith, Fits-bound e.next_ea hi es f.3)

Fits-Below : (lo hi : ℕ) (es : Entries) → Fits lo hi es → Below hi es
Fits-Below lo hi [] f = tt
Fits-Below lo hi ((k, e) ∷ es) f =
    (omega (arith, Fits-bound e.next_ea hi es f.3), Fits-Below e.next_ea hi es f.3)

fill_entries_end :
    (is_var : ℕ → Bool) (range : ByteRange) (hi ea : ℕ) (blobs out : List Entry) (s : Entry)
    → s.ea ≡ hi
    → fill_gap (suc (hi - ea)) is_var range hi hi ea blobs ≡ ok (hi, out)
    → fill_entries is_var range hi ea blobs ((hi, s) ∷ []) ≡ ok out
unfolding fill_entries
fill_entries_end is_var range hi ea blobs out s a e = rw (a, e, ==_refl hi)

fill_entries_next :
    (is_var : ℕ → Bool) (range : ByteRange) (hi ea : ℕ) (blobs out : List Entry) (e : Entry)
    (es : Entries)
    → e.ea < e.next_ea
    → e.next_ea ≤ hi
    → hi + 4 < 2 ^ 64
    → fill_gap (suc (e.ea - ea)) is_var range hi e.ea ea blobs ≡ ok (e.ea, out)
    → fill_entries is_var range hi ea blobs ((e.ea, e) ∷ es)
      ≡ fill_entries is_var range hi e.next_ea out es
unfolding fill_entries
fill_entries_next is_var range hi ea blobs out e es l b w h =
    let skip : max (add64 e.ea 1) e.next_ea ≡ e.next_ea =
      rw (add64-eq e.ea 1 (omega arith)) (omega arith) in
    rw (h, ==_refl e.ea, ==_ne e.ea hi (omega arith), skip)

Tiled-entry :
    (range : ByteRange) (lo m n : ℕ) (blobs : List Entry) (done : Entries) (e : Entry)
    → Tiled range lo m blobs done
    → e.ea ≡ m
    → m < n
    → e.next_ea ≡ n
    → Tiled range lo n blobs ((m, e) ∷ done)
Tiled-entry range lo m n blobs done e t a h b = record {
  cover = entry e t.cover a h b;
  described = t.described;
}

fill_entries-Cut :
    (is_var : ℕ → Bool) (range : ByteRange) (lo hi ea : ℕ) (blobs : List Entry) (es done : Entries)
    (s : Entry)
    → hi + 4 < 2 ^ 64
    → hi < lo + 2 ^ 32
    → lo ≤ ea
    → s.ea ≡ hi
    → Fits ea hi es
    → Tiled range lo ea blobs done
    → Cut range lo hi
        (rev_onto es done)
        (fill_entries is_var range hi ea blobs (es ++ (hi, s) ∷ []))
unfolding rev_onto
fill_entries-Cut is_var range lo hi ea blobs [] done s w z l a f t =
    let (out, e, tiled) =
      fill_gap-Gap (suc (hi - ea)) is_var range lo hi hi ea blobs done w (omega arith) f
        (omega arith) (omega arith) t in
    (out, fill_entries_end is_var range hi ea blobs out s a e, tiled)
fill_entries-Cut is_var range lo hi ea blobs ((k, e) ∷ es) done s w z l a f t =
    let bound : e.next_ea ≤ hi = Fits-bound e.next_ea hi es f.3 in
    let (out, filled, tiled) =
      fill_gap-Gap (suc (e.ea - ea)) is_var range lo hi e.ea ea blobs done w (omega arith)
        (omega arith) (omega arith) (omega arith) t in
    subst (Cut range lo hi (rev_onto es ((k, e) ∷ done)))
      (sym (
        rw (← f.1) (
          fill_entries_next is_var range hi ea blobs out e (es ++ (hi, s) ∷ []) (omega arith) bound
            w filled)))
      (fill_entries-Cut is_var range lo hi e.next_ea out es ((k, e) ∷ done) s w z (omega arith) a
        f.3
        (Tiled-entry range lo k e.next_ea out done e
          (subst (λ m. Tiled range lo m out done) f.1 tiled) f.1 f.2 refl))

-- The sentinel goes behind the last entry, and leaves again.
sentinel_last :
    (hi : ℕ) (es : Entries)
    → Below hi es
    → (s : Entry) × (add_sentinel hi es ≡ es ++ (hi, s) ∷ []) × (s.ea ≡ hi)
unfolding add_sentinel
sentinel_last hi es b = elim (Option-cases (find? hi es)) [
  | inl e ↦
      let s : Entry = record { ea = hi; next_ea = hi; xref = none; blob = none } in
      (s, rw e (assign-Below hi s es b), refl)
  | inr (x, e) ↦
      let s : Entry = record x { ea = hi; next_ea = hi } in (s, rw e (assign-Below hi s es b), refl)
]

-- What the blob stage returns for a segment at `ea` of `size` bytes.
pub record Filled (range : ByteRange) (ea size : ℕ) (es : Entries) (filled : Entries) : Type 0 where
  pub partition : IsPartition ea (ea + size) filled
  pub kept : (k : ℕ) (e : Entry) → find? k es ≡ some e → find? k filled ≡ some e
  pub blobs : List Entry
  pub described : All (IsBlob range) blobs
  pub made_of : filled ≡ emplace_blobs blobs es

Fits-Above : (b lo hi : ℕ) (es : Entries) → Fits lo hi es → b < lo → Above b es
Fits-Above b lo hi [] f h = tt
Fits-Above b lo hi ((k, e) ∷ es) f h = (omega arith, Fits-Above b e.next_ea hi es f.3 (omega arith))

Fits-IsSorted : (lo hi : ℕ) (es : Entries) → Fits lo hi es → IsSorted es
Fits-IsSorted lo hi [] f = tt
Fits-IsSorted lo hi ((k, e) ∷ es) f =
    (Fits-Above k e.next_ea hi es f.3 f.2, Fits-IsSorted e.next_ea hi es f.3)

fill_with_sentinel-ok :
    (is_var : ℕ → Bool) (range : ByteRange) (ea size : ℕ) (es with_end : Entries)
    (blobs : List Entry)
    → ea + size < 2 ^ 64
    → fill_entries is_var range (ea + size) ea [] with_end ≡ ok blobs
    → erase (ea + size) with_end ≡ es
    → verify ea (ea + size) (emplace_blobs blobs es) ≡ ok tt
    → fill_with_sentinel is_var range ea size (ea + size) with_end ≡ ok (emplace_blobs blobs es)
unfolding fill_with_sentinel
fill_with_sentinel-ok is_var range ea size es with_end blobs w f d v =
    rw (add64-eq ea size w, f, d, v)

fill_blobs-ok :
    (is_var : ℕ → Bool) (range : ByteRange) (ea size : ℕ) (es with_end out : Entries)
    → ea + size < 2 ^ 64
    → add_sentinel (ea + size) es ≡ with_end
    → fill_with_sentinel is_var range ea size (ea + size) with_end ≡ ok out
    → fill_blobs true is_var range ea size es ≡ ok out
unfolding fill_blobs
fill_blobs-ok is_var range ea size es with_end out w a f = rw (add64-eq ea size w, a, f)

-- Every segment of less than 4 GB that ends more than four bytes below 2^64, whose range is mapped and
-- whose cross-references lie apart and inside it, is filled up: none of the CHECKs of the stage fails,
-- the entries partition the segment, each cross-reference keeps its entry, and the rest are blobs
-- whose size and `is_zero` describe the bytes under them.
pub fill_blobs-Filled :
    (is_var : ℕ → Bool) (range : ByteRange) (ea size : ℕ) (es : Entries)
    → ea + size + 4 < 2 ^ 64
    → size < 2 ^ 32
    → Fits ea (ea + size) es
    → (filled : Entries) × (fill_blobs true is_var range ea size es ≡ ok filled)
      × Filled range ea size es filled
fill_blobs-Filled is_var range ea size es w z f =
    let (s, with_end, at) = sentinel_last (ea + size) es (Fits-Below ea (ea + size) es f) in
    let (blobs, e, tiled) =
      fill_entries-Cut is_var range ea (ea + size) ea [] es [] s w (omega arith) (omega arith) at f
        (record { cover = start; described = tt }) in
    let whole : IsPartition ea (ea + size) (emplace_blobs blobs es) =
      subst (λ x. IsPartition ea (ea + size) (emplace_blobs blobs x)) (restore-reverse es)
        (Cover-IsPartition tiled.cover) in
    (
      emplace_blobs blobs es,
      fill_blobs-ok is_var range ea size es (es ++ (ea + size, s) ∷ []) _ (omega arith) with_end (
          fill_with_sentinel-ok is_var range ea size es (es ++ (ea + size, s) ∷ []) blobs
            (omega arith) e (erase-append_self (ea + size) s es (Fits-Below ea (ea + size) es f))
            ((verify_iff ea (ea + size) (emplace_blobs blobs es)).1 whole)),
      record {
        partition = whole;
        kept = λ k x h. find?-emplace_blobs k x blobs es (Fits-IsSorted ea (ea + size) es f) h;
        blobs = blobs;
        described = tiled.described;
        made_of = refl;
      },
    )

failed_not_ok {ℓ} : {A : Type ℓ} {e : Failure} {a : A} → failed e ≡ ok a → ⊥
failed_not_ok h = cc

fill_with_sentinel-IsPartition :
    (is_var : ℕ → Bool) (range : ByteRange) (ea size hi : ℕ) (es filled : Entries)
    → fill_with_sentinel is_var range ea size hi es ≡ ok filled
    → IsPartition ea (add64 ea size) filled
unfolding fill_with_sentinel
fill_with_sentinel-IsPartition is_var range ea size hi es filled h =
    let (blobs, e, h') = >>=-inverts (fill_entries is_var range hi ea [] es) _ h in
    let (u, e', h'') =
      >>=-inverts (verify ea (add64 ea size) (emplace_blobs blobs (erase hi es))) _ h' in
    subst (IsPartition ea (add64 ea size)) (ok-eq h'') ((verify_iff ea (add64 ea size) _).0 e')

-- Whatever the entries were, a result of the stage is a partition.
pub fill_blobs-IsPartition :
    (mapped : Bool) (is_var : ℕ → Bool) (range : ByteRange) (ea size : ℕ) (es filled : Entries)
    → fill_blobs mapped is_var range ea size es ≡ ok filled
    → (mapped ≡ true) × IsPartition ea (add64 ea size) filled
unfolding fill_blobs
fill_blobs-IsPartition false is_var range ea size es filled h = absurd (failed_not_ok h)
fill_blobs-IsPartition true is_var range ea size es filled h =
    (refl, fill_with_sentinel-IsPartition is_var range ea size (add64 ea size) _ filled h)
