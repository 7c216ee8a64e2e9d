-- ===== src/Sealed.antt =====
-- sealed.go: the stream cipher, the layout of the transformed region, and the transforms.
pub mod Again
pub mod Cipher
pub mod Layout
pub mod Xor
pub mod Segments
pub mod Range
pub mod Reads
pub mod InPlace
pub mod RoundTrip
