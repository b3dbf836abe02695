-- ===== src/Bc.antt =====
-- mcsema/BC: what the lifter makes of the loaded module.
pub mod Segments
