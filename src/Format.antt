-- ===== src/Format.antt =====
-- The .mxb image: its string table and the maps from code to source.
pub mod Strings
pub mod DebugMap
mod Tests
