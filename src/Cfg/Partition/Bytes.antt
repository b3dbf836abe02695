-- ===== src/Cfg/Partition/Bytes.antt =====
-- What a blob says of the bytes under it (mcsema/CFG/CFG.cpp, `ReadProtoBuf`).
use mcsema.Prelude.{
  sub64-eq, ℕ, zero, suc, ◌+◌, ◌-◌, ◌≤◌, ◌<◌, ◌^◌, ◌≡◌, refl, sym, ap, subst, ◌∙◌, ◌≢◌, ◌⊎◌, inl,
  inr, Bool, true, false, none, some, List, [], ◌∷◌, arith, lt→ltb, le→ltb, All, sub64, add64,
  add64-eq, to_u32, lt_cases, eq_cases, ==_ne, true_not_false,
}
use mcsema.Cfg.Types.{NativeBlob, Entry}
use mcsema.Cfg.Partition.{
  ByteRange, is_zero_range, new_entry, make_blob, push_blob, grow, same_zero,
}
use mcsema.Cfg.Partition.Cover.{appended, merged, push_blob-Pushed}

-- The byte of the segment's data for the address `i`.
abbrev pub byte_at : ByteRange → ℕ → ℕ
byte_at range i = range.begin (sub64 i range.address)

abbrev pub AllZero : ByteRange → ℕ → ℕ → Type 0
AllZero range lo hi = (i : ℕ) → lo ≤ i → i < hi → byte_at range i ≡ 0

abbrev pub SomeSet : ByteRange → ℕ → ℕ → Type 0
SomeSet range lo hi = (i : ℕ) × (lo ≤ i) × (i < hi) × (byte_at range i ≢ 0)

AllZero-cons :
    (range : ByteRange) (lo hi : ℕ)
    → byte_at range lo ≡ 0
    → AllZero range (suc lo) hi
    → AllZero range lo hi
AllZero-cons range lo hi z rest i h l = elim (eq_cases i lo) [
  | inl e ↦ subst (λ j. byte_at range j ≡ 0) (sym e) z
  | inr ne ↦ rest i (omega arith) l
]

AllZero-append :
    (range : ByteRange) (lo mid hi : ℕ)
    → AllZero range lo mid
    → AllZero range mid hi
    → AllZero range lo hi
AllZero-append range lo mid hi a b i h l = elim (lt_cases i mid) [
  | inl p ↦ a i h p
  | inr p ↦ b i p l
]

is_zero_range_cases :
    (k : ℕ) (range : ByteRange) (i hi : ℕ)
    → hi < 2 ^ 64
    → hi ≤ i + k
    → ((is_zero_range k range i hi ≡ true) × AllZero range i hi)
      ⊎ ((is_zero_range k range i hi ≡ false) × SomeSet range i hi)
unfolding is_zero_range
is_zero_range_cases zero range i hi w h = inl (refl, λ j a b. absurd (omega arith))
is_zero_range_cases (suc k) range i hi w h = elim (lt_cases i hi) [
  | inr past ↦ inl (rw (le→ltb i hi past), λ j a b. absurd (omega arith))
  | inl more ↦
      let next : add64 i 1 ≡ suc i = add64-eq i 1 (omega arith) ∙ omega arith in
      elim (eq_cases (byte_at range i) 0) [
        | inr set ↦ inr (rw (lt→ltb i hi more, ==_ne _ 0 set), (i, omega arith, more, set))
        | inl z ↦ elim (is_zero_range_cases k range (suc i) hi w (omega arith)) [
          | inl (e, a) ↦ inl (rw (lt→ltb i hi more, z, next) e, AllZero-cons range i hi z a)
          | inr (e, (j, l, u, s)) ↦ inr (rw (lt→ltb i hi more, z, next) e, (j, omega arith, u, s))
        ]
      ]
]

-- A blob entry describes the bytes from its `ea` to its `next_ea`.
pub record IsBlob (range : ByteRange) (b : Entry) : Type 0 where
  pub contents : NativeBlob
  pub holds : b.blob ≡ some contents
  pub no_xref : b.xref ≡ none
  pub starts : contents.ea ≡ b.ea
  pub sized : contents.size ≡ to_u32 (b.next_ea - b.ea)
  pub ordered : b.ea < b.next_ea
  pub zero_blob : contents.is_zero ≡ true → AllZero range b.ea b.next_ea
  pub set_blob : contents.is_zero ≡ false → SomeSet range b.ea b.next_ea

make_blob_cases :
    (range : ByteRange) (m n : ℕ)
    → n < 2 ^ 64
    → (((make_blob range m n).is_zero ≡ true) × AllZero range m n)
      ⊎ (((make_blob range m n).is_zero ≡ false) × SomeSet range m n)
unfolding make_blob
make_blob_cases range m n w = is_zero_range_cases (n - m) range m n w (omega arith)

make_blob-size :
    (range : ByteRange) (m n : ℕ) → m < n → n < 2 ^ 64 → (make_blob range m n).size ≡ to_u32 (n - m)
unfolding make_blob
make_blob-size range m n h w = ap to_u32 (sub64-eq n m (omega arith) w)

new_entry-IsBlob :
    (range : ByteRange) (m n : ℕ)
    → m < n
    → n < 2 ^ 64
    → IsBlob range (new_entry (make_blob range m n) m n)
unfolding new_entry
new_entry-IsBlob range m n h w = record {
  contents = make_blob range m n;
  holds = refl;
  no_xref = refl;
  starts = unfold make_blob in refl;
  sized = make_blob-size range m n h w;
  ordered = h;
  zero_blob = λ z. elim (make_blob_cases range m n w) [
    | inl (e, a) ↦ a
    | inr (e, s) ↦ absurd (true_not_false (sym z ∙ e))
  ];
  set_blob = λ z. elim (make_blob_cases range m n w) [
    | inl (e, a) ↦ absurd (true_not_false (sym e ∙ z))
    | inr (e, s) ↦ s
  ];
}

some-eq : {a b : NativeBlob} → some a ≡ some b → a ≡ b
some-eq e = cc

same_zero-eq : (a b : Bool) → same_zero a b ≡ true → a ≡ b
unfolding same_zero
same_zero-eq a b h = ground arith

make_blob-zero :
    (range : ByteRange) (m n : ℕ)
    → n < 2 ^ 64
    → (make_blob range m n).is_zero ≡ true
    → AllZero range m n
make_blob-zero range m n w z = elim (make_blob_cases range m n w) [
  | inl (e, a) ↦ a
  | inr (e, s) ↦ absurd (true_not_false (sym z ∙ e))
]

sizes_add :
    (s t a m n : ℕ)
    → s ≡ to_u32 (m - a)
    → t ≡ to_u32 (n - m)
    → a ≤ m
    → m ≤ n
    → to_u32 (s + t) ≡ to_u32 (n - a)
unfolding to_u32
sizes_add s t a m n hs ht h k = omega arith

grow-IsBlob :
    (range : ByteRange) (m n : ℕ) (back : Entry) (old : NativeBlob)
    → m < n
    → n < 2 ^ 64
    → IsBlob range back
    → back.blob ≡ some old
    → back.next_ea ≡ m
    → same_zero (make_blob range m n).is_zero old.is_zero ≡ true
    → IsBlob range (grow back old (make_blob range m n) n)
unfolding grow
grow-IsBlob range m n back old h w v e next_eq z = record {
  contents = record old { size = to_u32 (old.size + (make_blob range m n).size) };
  holds = refl;
  no_xref = v.no_xref;
  starts = ap (λ (b : NativeBlob). b.ea) same ∙ v.starts;
  sized =
      sizes_add old.size (make_blob range m n).size back.ea m n
        (ap (λ (b : NativeBlob). b.size) same ∙ v.sized ∙ ap (λ x. to_u32 (x - back.ea)) next_eq)
        (make_blob-size range m n h w) (omega (arith, v.ordered)) (omega arith);
  ordered = omega (arith, v.ordered);
  zero_blob = λ zero_old.
      AllZero-append range back.ea m n
        (subst (λ x. AllZero range back.ea x) next_eq
          (v.zero_blob (ap (λ (b : NativeBlob). b.is_zero) (sym same) ∙ zero_old)))
        (make_blob-zero range m n w
          (same_zero-eq (make_blob range m n).is_zero old.is_zero z ∙ zero_old));
  set_blob = λ set_old.
      let (i, l, u, s) = v.set_blob (ap (λ (b : NativeBlob). b.is_zero) (sym same) ∙ set_old) in
      (i, l, omega arith, s);
}
  where
    same : old ≡ v.contents
    same = some-eq (sym e ∙ v.holds)

-- A chunk keeps the description of the blobs right, merged or not.
pub push_blob-IsBlob :
    (range : ByteRange) (m n : ℕ) (blobs : List Entry)
    → m < n
    → n < 2 ^ 64
    → All (IsBlob range) blobs
    → All (IsBlob range) (push_blob (make_blob range m n) m n blobs)
push_blob-IsBlob range m n [] h w v = unfold push_blob in (new_entry-IsBlob range m n h w, tt)
push_blob-IsBlob range m n (back ∷ blobs) h w v =
    elim (push_blob-Pushed (make_blob range m n) m n back blobs) [
      | appended e ↦ rw e (new_entry-IsBlob range m n h w, v)
      | merged old e next_eq z r ↦ rw r (grow-IsBlob range m n back old h w v.0 e next_eq z, v.1)
    ]
