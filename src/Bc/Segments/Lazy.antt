-- ===== src/Bc/Segments/Lazy.antt =====
-- What the entries of a segment come to (mcsema/BC/Segment.cpp, `FillDataSegment`).
use mcsema.Prelude.{
  subst, ℕ, ap, ◌≤◌, ◌≡◌, refl, ◌∙◌, inl, inr, Bool, true, false, Option, none, some, List, [], ◌∷◌,
  arith, leb, Bool-cases, All, if◌then◌else◌, ◌<◌, ◌*◌, ◌%◌, ◌^◌, sym,
}
use mcsema.Cfg.Types.{NativeXref, NativeBlob, Entry, Entries}
use mcsema.Bc.Segments.{
  Fault, EntryType, EntryValue, Lifted, done, fault, ◌>>=◌, Objects, xref_bits, be_lazy, entry_type,
  entry_types, entry_value, entry_values, add_init, zero_value, bytes_value, address_value,
  is_narrow, Target, xref_type,
}
use mcsema.Bc.Segments.Picks.{
  IsOfType, blob_pick, xref_pick, blob_value-blob_pick, xref_value-xref_pick, blob_pick-IsOfType,
  xref_pick-IsOfType, bits_fit,
}

-- The cross-references that cannot be written down, in order, however their values are made.
pub lazy_before :
    Objects
    → (address_size : ℕ) → Option NativeBlob
    → Option NativeXref
    → List NativeXref
    → List NativeXref
lazy_before o address_size (some b) x later = later
lazy_before o address_size none none later = later
lazy_before o address_size none (some x) later =
    if be_lazy o (xref_type address_size x) address_size x then x ∷ later else later

pub lazy_xrefs : Objects → (address_size : ℕ) → Entries → List NativeXref
unfolding lazy_before
lazy_xrefs o address_size [] = []
lazy_xrefs o address_size ((key, e) ∷ es) =
    lazy_before o address_size e.blob e.xref (lazy_xrefs o address_size es)

-- No cross-reference of the entry is wider than an address, in bytes that do not wrap around.
abbrev pub IsNarrow : (address_size : ℕ) → ℕ × Entry → Type 0
IsNarrow address_size x = (r : NativeXref) → x.1.xref ≡ some r → r.width * 8 ≤ address_size

-- An address is not cut.
abbrev pub IsUnshortened : EntryValue → Type 0
IsUnshortened zero_value = Unit
IsUnshortened (bytes_value ea size) = Unit
IsUnshortened (address_value target truncated) = truncated ≡ false

-- Values of their types, one for each.
abbrev pub AllOfType : (address_size : ℕ) → List EntryValue → List EntryType → Type 0
AllOfType address_size [] [] = Unit
AllOfType address_size (v ∷ vs) (t ∷ ts) = IsOfType address_size v t × AllOfType address_size vs ts
AllOfType address_size _ _ = ⊥

-- What an entry comes to.
record Valued (o : Objects) (force_embed : Bool) (type : EntryType) (address_size : ℕ)
    (b : Option NativeBlob) (x : Option NativeXref) : Type 0 where
  made : EntryValue × Option NativeXref
  is_made : entry_value o force_embed type address_size b x ≡ done made
  typed : IsOfType address_size made.0 type
  forced : force_embed ≡ true → (later : List NativeXref) → add_init made.1 later ≡ later
  unshortened : force_embed ≡ false → IsUnshortened made.0
  unforced :
      force_embed ≡ false
      → (later : List NativeXref) → add_init made.1 later ≡ lazy_before o address_size b x later

le→leb : (a b : ℕ) → a ≤ b → leb a b ≡ true
le→leb a b h = ground arith

pub done_eq {ℓ} : {A : Type ℓ} {a b : A} → done a ≡ done b → a ≡ b
done_eq h = cc

pub >>=-inverts {ι κ} :
    {A : Type ι} {B : Type κ} (first : Lifted A) (rest : A → Lifted B) {out : B}
    → (first >>= rest) ≡ done out
    → (made : A) × (first ≡ done made) × (rest made ≡ done out)
>>=-inverts (done made) rest h = (made, refl, h)
>>=-inverts (fault why) rest h = cc

blob_pick-IsUnshortened : (o : Objects) (b : NativeBlob) → IsUnshortened (blob_pick o b)
blob_pick-IsUnshortened o b = elim (Bool-cases b.is_zero) [
  | inl z ↦ rw z tt
  | inr s ↦ elim (Bool-cases (o.has_bytes b.ea b.size)) [
    | inl h ↦ rw (s, h) tt
    | inr h ↦ rw (s, h) tt
  ]
]

xref_pick_forced :
    (o : Objects) (force_embed : Bool) (address_size : ℕ) (x : NativeXref) (later : List NativeXref)
    → force_embed ≡ true
    → add_init (xref_pick o force_embed address_size x).1 later ≡ later
unfolding add_init
xref_pick_forced o force_embed address_size x later f =
    elim (Bool-cases (be_lazy o (xref_type address_size x) address_size x)) [
      | inl e ↦ rw (e, f)
      | inr e ↦ rw e
    ]

xref_pick_unforced :
    (o : Objects) (force_embed : Bool) (address_size : ℕ) (x : NativeXref) (later : List NativeXref)
    → force_embed ≡ false
    → add_init (xref_pick o force_embed address_size x).1 later
      ≡ lazy_before o address_size none (some x) later
unfolding add_init lazy_before
xref_pick_unforced o force_embed address_size x later f =
    elim (Bool-cases (be_lazy o (xref_type address_size x) address_size x)) [
      | inl e ↦ rw (e, f)
      | inr e ↦ rw e
    ]

not_narrow :
    (o : Objects) (address_size : ℕ) (x : NativeXref)
    → be_lazy o (xref_type address_size x) address_size x ≡ false
    → is_narrow (xref_type address_size x) address_size x ≡ false
unfolding be_lazy
not_narrow o address_size x e = ground arith

xref_pick-IsUnshortened :
    (o : Objects) (force_embed : Bool) (address_size : ℕ) (x : NativeXref)
    → force_embed ≡ false
    → IsUnshortened (xref_pick o force_embed address_size x).0
xref_pick-IsUnshortened o force_embed address_size x f =
    elim (Bool-cases (be_lazy o (xref_type address_size x) address_size x)) [
      | inl e ↦ rw (e, f) tt
      | inr e ↦ rw e (not_narrow o address_size x e)
    ]

pub fault_not_done {ℓ} : {A : Type ℓ} {why : Fault} {a : A} → fault why ≡ done a → ⊥
fault_not_done h = cc

entry_value-Valued :
    (o : Objects) (force_embed : Bool) (address_size : ℕ) (b : Option NativeBlob)
    (x : Option NativeXref) (t : EntryType)
    → ((target : Target) → o.is_pointer target ≡ true)
    → address_size % 8 ≡ 0
    → address_size < 2 ^ 32
    → entry_type address_size b x ≡ done t
    → ((r : NativeXref) → x ≡ some r → r.width * 8 ≤ address_size)
    → Valued o force_embed t address_size b x
unfolding entry_type entry_value add_init lazy_before
entry_value-Valued o force_embed address_size (some b) x t p whole small h n = record {
  made = (blob_pick o b, none);
  is_made = rw (sym (done_eq h), blob_value-blob_pick o b) refl;
  typed =
      subst (IsOfType address_size (blob_pick o b)) (done_eq h)
        (blob_pick-IsOfType o address_size b);
  forced = λ f later. refl;
  unshortened = λ f. blob_pick-IsUnshortened o b;
  unforced = λ f later. refl;
}
entry_value-Valued o force_embed address_size none none t p whole small h n =
    absurd (fault_not_done h)
entry_value-Valued o force_embed address_size none (some x) t p whole small h n = record {
  made = xref_pick o force_embed address_size x;
  is_made =
      rw
        (
          sym (done_eq h),
          le→leb (xref_bits x) address_size (bits_fit address_size x small (n x refl)),
        )
        (xref_value-xref_pick o force_embed address_size x p whole small (n x refl));
  typed =
      subst (IsOfType address_size (xref_pick o force_embed address_size x).0) (done_eq h)
        (xref_pick-IsOfType o force_embed address_size x whole small (n x refl));
  forced = λ f later. xref_pick_forced o force_embed address_size x later f;
  unshortened = λ f. xref_pick-IsUnshortened o force_embed address_size x f;
  unforced = λ f later. xref_pick_unforced o force_embed address_size x later f;
}

-- What the entries of a segment come to, for entries of which `types` are the types.
pub record AllValued (o : Objects) (force_embed : Bool) (address_size : ℕ) (es : Entries)
    (types : List EntryType) : Type 0 where
  pub values : List EntryValue
  pub inits : List NativeXref
  pub are_made : entry_values o force_embed address_size es types ≡ done (values, inits)
  pub typed : AllOfType address_size values types
  pub unshortened : force_embed ≡ false → All IsUnshortened values
  pub forced : force_embed ≡ true → inits ≡ []
  pub unforced : force_embed ≡ false → inits ≡ lazy_xrefs o address_size es

pub entry_values-AllValued :
    (o : Objects) (force_embed : Bool) (address_size : ℕ) (es : Entries) (types : List EntryType)
    → ((target : Target) → o.is_pointer target ≡ true)
    → address_size % 8 ≡ 0
    → address_size < 2 ^ 32
    → entry_types address_size es ≡ done types
    → All (IsNarrow address_size) es
    → AllValued o force_embed address_size es types
unfolding entry_types entry_values lazy_xrefs
entry_values-AllValued o force_embed address_size [] types p whole small h n = record {
  values = [];
  inits = [];
  are_made = refl;
  typed = subst (AllOfType address_size []) (done_eq h) tt;
  unshortened = λ f. tt;
  forced = λ f. refl;
  unforced = λ f. refl;
}
entry_values-AllValued o force_embed address_size ((k, e) ∷ es) types p whole small h n =
    let (t, ht, h') = >>=-inverts (entry_type address_size e.blob e.xref) _ h in
    let (ts, hts, hs) = >>=-inverts (entry_types address_size es) _ h' in
    let first =
      entry_value-Valued o force_embed address_size e.blob e.xref t p whole small ht n.0 in
    let rest = entry_values-AllValued o force_embed address_size es ts p whole small hts n.1 in
    record {
      values = first.made.0 ∷ rest.values;
      inits = add_init first.made.1 rest.inits;
      are_made = rw (sym (done_eq hs), first.is_made, rest.are_made) refl;
      typed =
          subst (AllOfType address_size (first.made.0 ∷ rest.values)) (done_eq hs)
            (first.typed, rest.typed);
      unshortened = λ f. (first.unshortened f, rest.unshortened f);
      forced = λ f. first.forced f rest.inits ∙ rest.forced f;
      unforced = λ f.
          first.unforced f rest.inits
          ∙ ap (lazy_before o address_size e.blob e.xref) (rest.unforced f);
    }
