-- ===== src/Cfg/Partition/Gaps.antt =====
-- The loops that fill the gaps of a segment end, and their blobs tile the gaps
-- (mcsema/CFG/CFG.cpp, `ReadProtoBuf`).
use mcsema.Prelude.{
  ℕ, zero, suc, ◌+◌, ◌-◌, ◌≤◌, ◌<◌, ◌^◌, ◌≡◌, refl, sym, subst, ◌∙◌, ◌⊎◌, inl, inr, Bool, true,
  false, List, min, arith, Bool-cases, lt→ltb, le→ltb, All, add64, add64-eq, to_u32-eq, lt_cases,
  eq_cases, ==_ne,
}
use mcsema.Cfg.Types.{Entry, Entries, Checked, ok}
use mcsema.Cfg.Partition.{ByteRange, find_size, make_blob, push_blob, cut_blobs, fill_gap}
use mcsema.Cfg.Partition.Cover.{Cover, push_blob-Cover}
use mcsema.Cfg.Partition.Bytes.{IsBlob, push_blob-IsBlob}

-- The blobs and entries so far tile [lo, m), and each blob describes its bytes.
pub record Tiled (range : ByteRange) (lo m : ℕ) (blobs : List Entry) (entries : Entries)
    : Type 0 where
  pub cover : Cover lo m blobs entries
  pub described : All (IsBlob range) blobs

push_blob-Tiled :
    (range : ByteRange) (lo m n : ℕ) (blobs : List Entry) (entries : Entries)
    → m < n
    → n < 2 ^ 64
    → Tiled range lo m blobs entries
    → Tiled range lo n (push_blob (make_blob range m n) m n blobs) entries
push_blob-Tiled range lo m n blobs entries h w t = record {
  cover = push_blob-Cover (make_blob range m n) n h t.cover;
  described = push_blob-IsBlob range m n blobs h w t.described;
}

min_left : (a b : ℕ) → a < b → min a b ≡ a
min_left a b h = omega arith

min_right : (a b : ℕ) → b ≤ a → min a b ≡ b
min_right a b h = omega arith

-- A loop that returns blobs which tile [lo, hi) with the entries.
abbrev pub Cut : ByteRange → (lo hi : ℕ) → Entries → Checked (List Entry) → Type 0
Cut range lo hi entries r = (blobs : List Entry) × (r ≡ ok blobs) × Tiled range lo hi blobs entries

cut_blobs_next :
    (k : ℕ) (range : ByteRange) (m hi : ℕ) (blobs : List Entry)
    → hi + 4 < 2 ^ 64
    → m < hi
    → cut_blobs (suc k) range m hi blobs
      ≡ cut_blobs k range
          (m + 4)
          hi
          (push_blob (make_blob range m (min (m + 4) hi)) m (min (m + 4) hi) blobs)
unfolding cut_blobs
cut_blobs_next k range m hi blobs w h = rw (lt→ltb m hi h, add64-eq m 4 (omega arith))

-- Cutting [m, hi) into chunks ends, and covers it.
pub cut_blobs-Tiled :
    (k : ℕ) (range : ByteRange) (lo m hi : ℕ) (blobs : List Entry) (entries : Entries)
    → hi + 4 < 2 ^ 64
    → hi - m < k
    → Tiled range lo (min m hi) blobs entries
    → Cut range lo hi entries (cut_blobs k range m hi blobs)
cut_blobs-Tiled zero range lo m hi blobs entries w h t = elim h [ ]
cut_blobs-Tiled (suc k) range lo m hi blobs entries w h t = elim (lt_cases m hi) [
  | inr past ↦ (
    blobs,
    unfold cut_blobs in rw (le→ltb m hi past),
    subst (λ z. Tiled range lo z blobs entries) (min_right m hi past) t,
  )
  | inl more ↦ subst (Cut range lo hi entries) (sym (cut_blobs_next k range m hi blobs w more)) (
      cut_blobs-Tiled k range lo (m + 4) hi
        (push_blob (make_blob range m (min (m + 4) hi)) m (min (m + 4) hi) blobs) entries w
        (omega arith)
        (push_blob-Tiled range lo m (min (m + 4) hi) blobs entries (omega arith) (omega arith)
          (subst (λ z. Tiled range lo z blobs entries) (min_left m hi more) t)))
]

-- The size found is at least the one tried, stays within the gap, and is the first that meets a
-- variable or fills the gap.
pub record FoundSize (is_var : ℕ → Bool) (ea entry_ea size r : ℕ) : Type 0 where
  pub at_least : size ≤ r
  pub within : ea + r ≤ entry_ea
  pub stops : (is_var (ea + r) ≡ true) ⊎ (ea + r ≡ entry_ea)
  pub first : (s : ℕ) → size ≤ s → s < r → is_var (ea + s) ≡ false

-- The search for the next variable, with fuel for the gap, stops at the first variable behind the
-- address that it starts from, or at the end of the gap, and never beyond it.
pub find_size-FoundSize :
    (k : ℕ) (is_var : ℕ → Bool) (ea entry_ea size : ℕ)
    → entry_ea < 2 ^ 64
    → ea + size ≤ entry_ea
    → entry_ea ≤ ea + size + k
    → FoundSize is_var ea entry_ea size (find_size k is_var ea entry_ea size)
unfolding find_size
find_size-FoundSize zero is_var ea entry_ea size w h f = record {
  at_least = omega arith;
  within = h;
  stops = inr (omega arith);
  first = λ s a b. absurd (omega arith);
}
find_size-FoundSize (suc k) is_var ea entry_ea size w h f =
    let here : add64 ea size ≡ ea + size = add64-eq ea size (omega arith) in
    elim (lt_cases (ea + size) entry_ea) [
      | inr past ↦
          rw (here, le→ltb (ea + size) entry_ea past)
            (record {
              at_least = omega arith;
              within = h;
              stops = inr (omega arith);
              first = λ s a b. absurd (omega arith);
            })
      | inl more ↦ elim (Bool-cases (is_var (ea + size))) [
        | inl var ↦
            rw (here, lt→ltb (ea + size) entry_ea more, var)
              (record {
                at_least = omega arith;
                within = h;
                stops = inl var;
                first = λ s a b. absurd (omega arith);
              })
        | inr plain ↦
            let next : add64 size 1 ≡ suc size = add64-eq size 1 (omega arith) ∙ omega arith in
            let ih =
              find_size-FoundSize k is_var ea entry_ea (suc size) w (omega arith) (omega arith) in
            rw (here, lt→ltb (ea + size) entry_ea more, plain, next)
              (record {
                at_least = omega (arith, ih.at_least);
                within = ih.within;
                stops = ih.stops;
                first = λ s a b. elim (eq_cases s size) [
                  | inl e ↦ subst (λ z. is_var (ea + z) ≡ false) (sym e) plain
                  | inr ne ↦ ih.first s (omega arith) b
                ];
              })
      ]
    ]

abbrev pub Gap : ByteRange → (lo hi : ℕ) → Entries → Checked (ℕ × List Entry) → Type 0
Gap range lo hi entries r =
    (blobs : List Entry) × (r ≡ ok (hi, blobs)) × Tiled range lo hi blobs entries

-- One round of `while (ea < entry.ea)`.
fill_gap_next :
    (k : ℕ) (is_var : ℕ → Bool) (range : ByteRange) (end_ea hi ea size : ℕ) (blobs cut : List Entry)
    → end_ea + 4 < 2 ^ 64
    → hi ≤ end_ea
    → ea < hi
    → hi < ea + 2 ^ 32
    → find_size (hi - ea) is_var ea hi 1 ≡ size
    → ea + size ≤ hi
    → cut_blobs (suc size) range ea (ea + size) blobs ≡ ok cut
    → fill_gap (suc k) is_var range end_ea hi ea blobs
      ≡ fill_gap k is_var range end_ea hi (ea + size) cut
unfolding fill_gap
fill_gap_next k is_var range end_ea hi ea size blobs cut w b h s found fits e = rw (
  lt→ltb ea hi h,
  ==_ne ea end_ea (omega arith),
  found,
  to_u32-eq size (omega arith),
  add64-eq ea size (omega arith),
  e,
)

fill_gap_round :
    (k : ℕ) (is_var : ℕ → Bool) (range : ByteRange) (lo end_ea hi ea size : ℕ) (blobs : List Entry)
    (entries : Entries)
    → end_ea + 4 < 2 ^ 64
    → hi ≤ end_ea
    → ea < hi
    → hi < ea + 2 ^ 32
    → find_size (hi - ea) is_var ea hi 1 ≡ size
    → FoundSize is_var ea hi 1 size
    → Tiled range lo ea blobs entries
    → ((cut : List Entry)
        → Tiled range lo (ea + size) cut entries
        → Gap range lo hi entries (fill_gap k is_var range end_ea hi (ea + size) cut))
    → Gap range lo hi entries (fill_gap (suc k) is_var range end_ea hi ea blobs)
fill_gap_round k is_var range lo end_ea hi ea size blobs entries w b more s e found t ih =
    let (cut, done, tiled) =
      cut_blobs-Tiled (suc size) range lo ea (ea + size) blobs entries (omega (arith, found.within))
        (omega arith)
        (subst (λ z. Tiled range lo z blobs entries)
          (sym (min_left ea (ea + size) (omega (arith, found.at_least)))) t) in
    subst (Gap range lo hi entries)
      (sym
        (fill_gap_next k is_var range end_ea hi ea size blobs cut w b more s e found.within done))
      (ih cut tiled)

-- The bytes between `ea` and the entry at `hi` are covered, whatever variables stand there.
pub fill_gap-Gap :
    (k : ℕ) (is_var : ℕ → Bool) (range : ByteRange) (lo end_ea hi ea : ℕ) (blobs : List Entry)
    (entries : Entries)
    → end_ea + 4 < 2 ^ 64
    → hi ≤ end_ea
    → ea ≤ hi
    → hi < ea + 2 ^ 32
    → hi - ea < k
    → Tiled range lo ea blobs entries
    → Gap range lo hi entries (fill_gap k is_var range end_ea hi ea blobs)
fill_gap-Gap zero is_var range lo end_ea hi ea blobs entries w b h s f t = elim f [ ]
fill_gap-Gap (suc k) is_var range lo end_ea hi ea blobs entries w b h s f t =
    elim (lt_cases ea hi) [
      | inr past ↦
          let e : ea ≡ hi = omega arith in
          (
            blobs,
            unfold fill_gap in rw (le→ltb ea hi past, e),
            subst (λ z. Tiled range lo z blobs entries) e t,
          )
      | inl more ↦
          let size : ℕ = find_size (hi - ea) is_var ea hi 1 in
          let found : FoundSize is_var ea hi 1 size =
            find_size-FoundSize (hi - ea) is_var ea hi 1 (omega arith) (omega arith)
              (omega arith) in
          fill_gap_round k is_var range lo end_ea hi ea size blobs entries w b more s refl found t
            (λ cut tiled.
              fill_gap-Gap k is_var range lo end_ea hi (ea + size) cut entries w b found.within
                (omega arith) (omega (arith, found.at_least)) tiled)
    ]
