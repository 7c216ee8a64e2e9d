-- ===== src/Offsets.antt =====
-- reader.go: how the payload offsets of the parsed entries are found, and what is known of them.
pub mod Defs
pub mod Bounds
pub mod Sequential
pub mod Stored
