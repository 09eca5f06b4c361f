-- ===== src/Util.antt =====
-- include/lx/util: sizes of huge-page mappings, and the conversion of clock ticks.
pub mod HugePage
pub mod Tsc
pub mod Examples
