-- ===== src/Cfg/Merge/Whole.antt =====
-- Merging keeps every internal segment a partition of its bytes, loses none of them, and ends
-- (mcsema/CFG/CFG.cpp, `ReadProtoBuf`).
use mcsema.Prelude.{
  ℕ, ◌+◌, ◌≤◌, ◌<◌, ◌^◌, ◌≡◌, refl, sym, subst, ◌∙◌, ◌≢◌, inl, inr, Bool, true, false, some, List,
  [], ◌∷◌, ap, arith, Bool-cases, ==_ne, All, add64, add64-eq,
}
use mcsema.Prelude.Maps.{emplace, emplace-Below}
use mcsema.Cfg.Types.{Entries, NativeSegment}
use mcsema.Cfg.Partition.Cover.{IsPartition}
use mcsema.Cfg.Partition.Order.{IsPartition-Below, IsPartition-snoc}
use mcsema.Cfg.Forward.{Forwards, forward_to}
use mcsema.Cfg.Forward.Roots.{here, Ends, IsForest, Root-end}
use mcsema.Cfg.Forward.Classes.{Joined, Joined-dest, Joined-IsForest, forward_to_joins}
use mcsema.Cfg.Merge.{
  insert_entries, can_merge, grow_segment, empty_segment, Merging, merge_into, merge_segments,
}

insert_entries-IsPartition :
    (lo m hi : ℕ) (q p : Entries)
    → IsPartition lo m p
    → IsPartition m hi q
    → IsPartition lo hi (insert_entries q p)
unfolding insert_entries
insert_entries-IsPartition lo m hi [] p hp hq = subst (λ z. IsPartition lo z p) hq hp
insert_entries-IsPartition lo m hi ((k, e) ∷ q) p hp hq =
    insert_entries-IsPartition lo e.next_ea hi q (emplace k e p)
      (subst (λ z. IsPartition lo e.next_ea (emplace z e p)) (sym hq.0)
        (subst (IsPartition lo e.next_ea) (sym (emplace-Below m e p (IsPartition-Below lo m p hp)))
          (IsPartition-snoc lo m e.next_ea p e hp hq.1 hq.2 refl)))
      hq.3

-- An internal segment lies in the address space, and its entries partition it.
abbrev pub IsWhole : NativeSegment → Type 0
IsWhole s =
    s.is_external ≡ false → (s.ea + s.size < 2 ^ 64) × IsPartition s.ea (s.ea + s.size) s.entries

-- The bytes of all the segments.
abbrev pub total : List NativeSegment → ℕ
total [] = 0
total (s ∷ ss) = s.size + total ss

can_merge_lem :
    (p s : NativeSegment)
    → can_merge p s ≡ true
    → (add64 p.ea p.size ≡ s.ea) × (p.is_external ≡ false) × (s.is_external ≡ false)
unfolding can_merge
can_merge_lem p s h = ground arith

grow_segment-IsWhole :
    (p s : NativeSegment)
    → can_merge p s ≡ true
    → IsWhole p
    → IsWhole s
    → IsWhole (grow_segment p s) × ((grow_segment p s).size ≡ p.size + s.size)
unfolding grow_segment
grow_segment-IsWhole p s h hp hs =
    let (touch, p_in, s_in) = can_merge_lem p s h in
    let (p_fits, p_parts) = hp p_in in
    let (s_fits, s_parts) = hs s_in in
    let meet : p.ea + p.size ≡ s.ea = sym (add64-eq p.ea p.size p_fits) ∙ touch in
    let sizes : add64 p.size s.size ≡ p.size + s.size = add64-eq p.size s.size (omega arith) in
    (
      λ e. (
        omega arith,
        insert_entries-IsPartition p.ea (p.ea + p.size) (p.ea + add64 p.size s.size) s.entries
            p.entries p_parts
            (subst (λ z. IsPartition z (p.ea + add64 p.size s.size) s.entries) (sym meet)
              (subst (λ z. IsPartition s.ea z s.entries) (omega arith) s_parts)),
      ),
      sizes,
    )

empty_segment-IsWhole : (s : NativeSegment) → IsWhole s → IsWhole (empty_segment s)
unfolding empty_segment
empty_segment-IsWhole s h e = (omega (arith, (h e).0), omega arith)

-- The segments stand for themselves, and are different objects.
abbrev pub AreRoots : Forwards → List NativeSegment → Type 0
AreRoots f = All (λ (s : NativeSegment). f s.id ≡ s.id)

abbrev pub ids : List NativeSegment → List ℕ
ids [] = []
ids (s ∷ ss) = s.id ∷ ids ss

abbrev pub NoneIs : ℕ → List ℕ → Type 0
NoneIs x [] = Unit
NoneIs x (i ∷ is) = (x ≢ i) × NoneIs x is

abbrev pub AreDistinct : List ℕ → Type 0
AreDistinct [] = Unit
AreDistinct (i ∷ is) = NoneIs i is × AreDistinct is

abbrev pub HeadRoot : Forwards → List NativeSegment → Type 0
HeadRoot f [] = Unit
HeadRoot f (s ∷ ss) = f s.id ≡ s.id

-- What the loop leaves behind: `f` and `segs` are those before it.
pub record Merged (f : Forwards) (segs : List NativeSegment) (m : Merging) : Type 0 where
  pub forest : IsForest m.forwards
  pub whole : All IsWhole m.segs
  pub same_total : total m.segs ≡ total segs
  pub same_ids : ids m.segs ≡ ids segs
  pub roots : (x : ℕ) → f x ≡ x → NoneIs x (ids segs) → m.forwards x ≡ x
  pub head_root : HeadRoot m.forwards m.segs

Joined-root : (f g : Forwards) (r dest x : ℕ) → Joined f g r dest → f x ≡ x → x ≢ r → g x ≡ x
Joined-root f g r dest x j e ne =
    Root-end (subst (λ z. Ends g x z) (rw (==_ne x r ne)) (j x x (0, here e))).1

Joined-stays : (f g : Forwards) (r dest : ℕ) → Joined f g r dest → f dest ≡ dest → g dest ≡ dest
Joined-stays f g r dest j e = Root-end (Joined-dest f g r dest e j).1

merge_into_ok :
    (k : ℕ) (p s : NativeSegment) (ss : List NativeSegment) (f h : Forwards) (merged : Bool)
    → can_merge p s ≡ true
    → forward_to k f s.id p.id ≡ some h
    → merge_into k p (s ∷ ss) f merged
      ≡ some
          (record { segs = grow_segment p s ∷ empty_segment s ∷ ss; forwards = h; merged = true })
unfolding merge_into
merge_into_ok k p s ss f h merged c e = rw (c, e)

merge_into-Merged :
    (k : ℕ) (p : NativeSegment) (segs : List NativeSegment) (f : Forwards) (merged : Bool)
    → 2 ≤ k
    → IsForest f
    → f p.id ≡ p.id
    → HeadRoot f segs
    → AreDistinct (p.id ∷ ids segs)
    → All IsWhole (p ∷ segs)
    → (m : Merging) × (merge_into k p segs f merged ≡ some m) × Merged f (p ∷ segs) m
merge_into-Merged k p [] f merged k2 forest p_root head d w = (
  record { segs = p ∷ []; forwards = f; merged = merged },
  unfold merge_into in refl,
  record {
    forest = forest;
    whole = w;
    same_total = refl;
    same_ids = refl;
    roots = λ x e n. e;
    head_root = p_root;
  },
)
merge_into-Merged k p (s ∷ ss) f merged k2 forest p_root head d w =
    elim (Bool-cases (can_merge p s)) [
      | inr apart ↦ (
        record { segs = p ∷ s ∷ ss; forwards = f; merged = merged },
        unfold merge_into in rw apart,
        record {
          forest = forest;
          whole = w;
          same_total = refl;
          same_ids = refl;
          roots = λ x e n. e;
          head_root = p_root;
        },
      )
      | inl touch ↦
          let (h, e, j) =
            forward_to_joins k f {dest = p.id} forest p_root (here head) (omega arith) in
          let (grown, size) = grow_segment-IsWhole p s touch w.0 w.1.0 in
          (
            record { segs = grow_segment p s ∷ empty_segment s ∷ ss; forwards = h; merged = true },
            merge_into_ok k p s ss f h merged touch e,
            record {
              forest = Joined-IsForest f h s.id p.id forest j;
              whole = (grown, (empty_segment-IsWhole s w.1.0, w.1.1));
              same_total = unfold empty_segment in omega (arith, size);
              same_ids = unfold grow_segment empty_segment in refl;
              roots = λ x e' n. Joined-root f h s.id p.id x j e' n.1.0;
              head_root = unfold grow_segment in Joined-stays f h s.id p.id j p_root;
            },
          )
    ]

merge_segments_step :
    (k : ℕ) (p : NativeSegment) (ss : List NativeSegment) (f : Forwards) (m : Merging)
    → merge_segments k ss f ≡ some m
    → merge_segments k (p ∷ ss) f ≡ merge_into k p m.segs m.forwards m.merged
unfolding merge_segments
merge_segments_step k p ss f m e = rw (e, merge_segments)

-- The loop ends: from segments that stand for themselves it always comes to a result. Every
-- internal segment is still partitioned by its entries, together they have the bytes they had, the
-- objects are the same ones in the same order, and objects outside the loop still stand for
-- themselves.
pub merge_segments-Merged :
    (k : ℕ) (segs : List NativeSegment) (f : Forwards)
    → 2 ≤ k
    → IsForest f
    → AreRoots f segs
    → AreDistinct (ids segs)
    → All IsWhole segs
    → (m : Merging) × (merge_segments k segs f ≡ some m) × Merged f segs m
merge_segments-Merged k [] f k2 forest r d w = (
  record { segs = []; forwards = f; merged = false },
  unfold merge_segments in refl,
  record {
    forest = forest;
    whole = tt;
    same_total = refl;
    same_ids = refl;
    roots = λ x e n. e;
    head_root = tt;
  },
)
merge_segments-Merged k (p ∷ ss) f k2 forest r d w =
    let (m, e, v) = merge_segments-Merged k ss f k2 forest r.1 d.1 w.1 in
    let (m', e', v') =
      merge_into-Merged k p m.segs m.forwards m.merged k2 v.forest (v.roots p.id r.0 d.0)
        v.head_root (subst (λ z. AreDistinct (p.id ∷ z)) (sym v.same_ids) d) (w.0, v.whole) in
    (
      m',
      merge_segments_step k p ss f m e ∙ e',
      record {
        forest = v'.forest;
        whole = v'.whole;
        same_total = omega (arith, v'.same_total, v.same_total);
        same_ids = v'.same_ids ∙ ap (λ z. p.id ∷ z) v.same_ids;
        roots = λ x e n. v'.roots x (v.roots x e n.1) (n.0, subst (NoneIs x) (sym v.same_ids) n.1);
        head_root = v'.head_root;
      },
    )
