-- ===== src/Cfg.antt =====
-- mcsema/CFG/CFG.cpp and CFG.h: the control-flow graph of a binary, read into a `NativeModule`.
pub mod Types
pub mod Forward
pub mod Partition
pub mod Xrefs
pub mod Entries
pub mod Blocks
pub mod Names
pub mod Registers
pub mod Merge
pub mod Decls
pub mod Objects
pub mod Loader
pub mod Bodies
