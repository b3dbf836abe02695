-- ===== src/Dyninst.antt =====
-- tools/mcsema_disass/dyninst: the front end that disassembles with Dyninst.
pub mod Sections
pub mod OffsetTables
pub mod Magic
pub mod Externals
pub mod Context
pub mod Parser
