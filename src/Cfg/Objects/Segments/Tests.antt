-- ===== src/Cfg/Objects/Segments/Tests.antt =====
-- Two segments of which one is forwarded to the other (mcsema/CFG/CFG.cpp, `TryGetSegment`).
use mcsema.Prelude.{ℕ, zero, suc, refl, false, none, List, [], ◌∷◌, arith}
use mcsema.Cfg.Types.{NativeSegment}
use mcsema.Cfg.Names.{Bytes}
use mcsema.Cfg.Forward.{Forwards}
use mcsema.Cfg.Forward.Roots.{here, hop}
use mcsema.Cfg.Objects.{segment_named, segment_at}
use mcsema.Cfg.Objects.Segments.{StandsFor, Found, first_named, first_at, try_get_segment_lem}

-- Object 0 is forwarded to object 1.
abbrev pointers : Forwards
pointers zero = 1
pointers (suc x) = suc x

abbrev pointers_stand : StandsFor pointers pointers
pointers_stand zero = (1, hop (λ e. omega (arith, e)) (here refl))
pointers_stand (suc x) = (0, here refl)

abbrev segment : (id ea : ℕ) → Bytes → NativeSegment
segment id ea name = record {
  id = id;
  ea = ea;
  size = 16;
  padding = 0;
  name = name;
  lifted_name = name;
  is_external = false;
  is_exported = false;
  is_thread_local = false;
  is_read_only = false;
  as_extern_var = none;
  entries = [];
}

abbrev segments : List (ℕ × NativeSegment)
segments = (0, segment 0 0x100 (b'a' ∷ [])) ∷ (1, segment 1 0x200 (b'b' ∷ [])) ∷ []

try_get_segment_lem_example :
    Found pointers
      (λ j. segment_named j pointers (b'a' ∷ []) segments)
      (first_named pointers (b'a' ∷ []) segments)
    × Found pointers
        (λ j. segment_at j pointers segments 0x208 segments)
        (first_at pointers segments 0x208 segments)
try_get_segment_lem_example =
    try_get_segment_lem pointers pointers segments segments (b'a' ∷ []) 0x208 pointers_stand
