-- ===== src/Cfg/Entries.antt =====
-- The entries of one data segment, from its references and its bytes: the two stages that
-- `ReadProtoBuf` of mcsema/CFG/CFG.cpp runs over each segment.
pub mod Total
mod Tests
use mcsema.Prelude.{ℕ, Bool, List, []}
use mcsema.Cfg.Types.{Entries, Checked, ◌>>=◌}
use mcsema.Cfg.Partition.{ByteRange, fill_blobs}
use mcsema.Cfg.Xrefs.{DataReference, Lookups, fill_xrefs}

pub segment_entries :
    (pointer_size : ℕ)
    → Lookups
    → (segment : ℕ) → List DataReference
    → (mapped : Bool) → (ℕ → Bool)
    → ByteRange
    → (ea size : ℕ) → Checked Entries
segment_entries pointer_size l segment refs mapped is_var range ea size = do
  entries ← fill_xrefs pointer_size l segment refs []
  fill_blobs mapped is_var range ea size entries
