-- ===== src/Cfg/Partition/Cover.antt =====
-- Blobs and cross-references that tile a stretch of a segment (mcsema/CFG/CFG.cpp, `ReadProtoBuf`).
use mcsema.Prelude.{
  ℕ, ◌≤◌, ◌<◌, ◌≡◌, refl, sym, ap, subst, ◌∙◌, inl, inr, true, ◌&&◌, Option, none, some, List, [],
  ◌∷◌, arith, ◌==◌, Bool-cases,
}
use mcsema.Cfg.Types.{NativeBlob, Entry, Entries}
use mcsema.Cfg.Partition.{new_entry, grow, merge_blob, push_blob, same_zero}

-- The entries lie end to end from `lo` to `hi`, none empty, each under its own address.
abbrev pub IsPartition : ℕ → ℕ → Entries → Type 0
IsPartition lo hi [] = lo ≡ hi
IsPartition lo hi ((key, entry) ∷ entries) =
    (key ≡ lo) × (entry.ea ≡ lo) × (lo < entry.next_ea) × IsPartition entry.next_ea hi entries

-- The blobs and the entries, each from the last to the first, together tile [lo, hi).
pub data Cover (lo : ℕ) : ℕ → List Entry → Entries → Type 0 where
  start : Cover lo lo [] []
  blob :
      {m n : ℕ} {blobs : List Entry} {entries : Entries} (b : Entry)
      → Cover lo m blobs entries
      → b.ea ≡ m
      → m < n
      → b.next_ea ≡ n
      → Cover lo n (b ∷ blobs) entries
  entry :
      {m n : ℕ} {blobs : List Entry} {entries : Entries} (e : Entry)
      → Cover lo m blobs entries
      → e.ea ≡ m
      → m < n
      → e.next_ea ≡ n
      → Cover lo n blobs ((m, e) ∷ entries)

pub Cover-bound :
    {lo m : ℕ} {blobs : List Entry} {entries : Entries} → Cover lo m blobs entries → lo ≤ m
Cover-bound start = omega arith
Cover-bound (blob b c e h n) = omega (arith, Cover-bound c)
Cover-bound (entry b c e h n) = omega (arith, Cover-bound c)

next_of : List Entry → ℕ
next_of [] = 0
next_of (b ∷ bs) = b.next_ea

Cover-next_of :
    {lo m : ℕ} {blobs : List Entry} {entries : Entries}
    → Cover lo m blobs entries
    → next_of blobs ≤ m
unfolding next_of
Cover-next_of start = omega arith
Cover-next_of (blob b c e h n) = omega arith
Cover-next_of (entry b c e h n) = omega (arith, Cover-next_of c)

-- The last blob ends where the cover does, so it was the last to be put there.
Cover-back :
    {lo m : ℕ} {blobs : List Entry} {entries : Entries} (back : Entry) (rest : List Entry)
    → Cover lo m blobs entries
    → blobs ≡ back ∷ rest
    → back.next_ea ≡ m
    → Cover lo back.ea rest entries × (back.ea < m)
unfolding next_of
Cover-back back rest start e n = cc
Cover-back {lo} {m} {entries = entries} back rest (blob {m = m'} {blobs = bs} b c e h n) q n' =
    let same : b ≡ back = cc in
    let tails : bs ≡ rest = cc in
    (
      subst (λ z. Cover lo z rest entries) (sym e ∙ ap (λ z. z.ea) same)
          (subst (λ z. Cover lo m' z entries) tails c),
      subst (λ z. z < m) (sym e ∙ ap (λ z. z.ea) same) h,
    )
Cover-back back rest (entry b c e h n) q n' = absurd (omega (arith, Cover-next_of c, ap next_of q))

-- Appending a chunk, or merging it into the last blob.
pub data Pushed (nb : NativeBlob) (m n : ℕ) (back : Entry) (blobs result : List Entry)
    : Type 0 where
  appended : result ≡ new_entry nb m n ∷ back ∷ blobs → Pushed nb m n back blobs result
  merged :
      (old : NativeBlob)
      → back.blob ≡ some old
      → back.next_ea ≡ m
      → same_zero nb.is_zero old.is_zero ≡ true
      → result ≡ grow back old nb n ∷ blobs
      → Pushed nb m n back blobs result

merge_blob-Pushed :
    (o : Option NativeBlob) (nb : NativeBlob) (m n : ℕ) (back : Entry) (blobs : List Entry)
    → back.blob ≡ o
    → Pushed nb m n back blobs (merge_blob o nb m n back blobs)
unfolding merge_blob
merge_blob-Pushed none nb m n back blobs e = appended refl
merge_blob-Pushed (some old) nb m n back blobs e =
    elim (Bool-cases (back.next_ea == m && same_zero nb.is_zero old.is_zero)) [
      | inl t ↦ merged old e (ground arith) (ground arith) (rw t)
      | inr t ↦ appended (rw t)
    ]

pub push_blob-Pushed :
    (nb : NativeBlob) (m n : ℕ) (back : Entry) (blobs : List Entry)
    → Pushed nb m n back blobs (push_blob nb m n (back ∷ blobs))
unfolding push_blob
push_blob-Pushed nb m n back blobs = merge_blob-Pushed back.blob nb m n back blobs refl

pub push_blob-Cover :
    {lo m : ℕ} {blobs : List Entry} {entries : Entries} (nb : NativeBlob) (n : ℕ)
    → m < n
    → Cover lo m blobs entries
    → Cover lo n (push_blob nb m n blobs) entries
push_blob-Cover {m = m} {blobs = []} nb n h c = unfold push_blob in blob _ c refl h refl
push_blob-Cover {lo} {m} {blobs = back ∷ blobs} {entries = entries} nb n h c =
    elim (push_blob-Pushed nb m n back blobs) [
      | appended e ↦ rw e (unfold push_blob in blob _ c refl h refl)
      | merged old e next_eq z r ↦
          let (rest, fits) = Cover-back back blobs c refl next_eq in
          rw r (unfold push_blob in blob {n = n} _ rest refl (omega arith) refl)
    ]
