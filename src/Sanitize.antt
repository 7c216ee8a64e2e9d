-- ===== src/Sanitize.antt =====
-- sanitize.go: paths rewritten for file systems and for terminals. `lower` stands for
-- strings.ToLower and `is_format` for the membership of a rune in unicode.Cf, whose tables are not
-- repeated here.
pub mod Runes
pub mod Names
pub mod Entries
pub mod Bounds
pub mod Unique
