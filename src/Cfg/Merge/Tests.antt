-- ===== src/Cfg/Merge/Tests.antt =====
-- A read-only segment and the one that follows it (mcsema/CFG/CFG.cpp).
use mcsema.Prelude.{ℕ, ◌≡◌, refl, ◌+◌, Bool, true, false, none, some, List, [], ◌∷◌, arith}
use mcsema.Cfg.Types.{Entry, NativeSegment}
use mcsema.Cfg.Forward.{fresh_forwards}
use mcsema.Cfg.Forward.Classes.{fresh-IsForest}
use mcsema.Cfg.Merge.{Merging, merge_segments}
use mcsema.Cfg.Merge.Whole.{Merged, merge_segments-Merged}

abbrev blob_of : ℕ → ℕ → Entry
blob_of ea size = record {
  ea = ea;
  next_ea = ea + size;
  xref = none;
  blob = some (record { ea = ea; size = size; is_zero = true });
}

abbrev segment_of : ℕ → ℕ → ℕ → Bool → NativeSegment
segment_of id ea size read_only = record {
  id = id;
  ea = ea;
  size = size;
  padding = 0;
  name = [];
  lifted_name = [];
  is_external = false;
  is_exported = false;
  is_thread_local = false;
  is_read_only = read_only;
  as_extern_var = none;
  entries = (ea, blob_of ea size) ∷ [];
}

abbrev segments : List NativeSegment
segments = segment_of 4 0x1000 16 true ∷ segment_of 5 0x1010 8 false ∷ []

merge_segments-Merged_example :
    (m : Merging) × (merge_segments 2 segments fresh_forwards ≡ some m)
    × Merged fresh_forwards segments m
merge_segments-Merged_example =
    merge_segments-Merged 2 segments fresh_forwards (omega arith) fresh-IsForest
      (unfold fresh_forwards in (refl, (refl, tt)))
      (((λ (e : ◌≡◌ {A = ℕ} 4 5). omega arith), tt), (tt, tt))
      (
        (λ e. (omega arith, (refl, refl, omega arith, refl))),
        ((λ e. (omega arith, (refl, refl, omega arith, refl))), tt),
      )
