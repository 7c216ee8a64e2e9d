-- ===== src/Payload/Sections.antt =====
-- Sections of a file as streams.
use pbo.Common.{ℕ, ◌+◌, ◌≤◌, ◌≡◌, refl, [], ◌∷◌, ◌++◌, if◌then◌else◌, length, Bytes, append-nil}
use pbo.Wire.{is_empty, bytes_reader}
use pbo.Wire.Parts.{part_of, reader-full}
use pbo.Streams.{Stream, chunk}
use pbo.Streams.Bounded.{IsHealthy, stream_data}
use pbo.Payload.{section_stream}

-- A source that answers once, with all it has.
abbrev pub once : Bytes → Stream
once part = (if is_empty part then [] else chunk part ∷ []) ++ []

pub once-IsHealthy : (part : Bytes) → IsHealthy (once part)
unfolding is_empty
once-IsHealthy [] = tt
once-IsHealthy (c ∷ part) = ((λ e. cc), tt)

pub stream_data-once : (part : Bytes) → stream_data (once part) ≡ part
unfolding is_empty
stream_data-once [] = refl
stream_data-once (c ∷ part) = append-nil (c ∷ part)

-- A section that lies within a file answers with that part of it.
pub section_stream-once :
    (content : Bytes) (off n : ℕ)
    → off + n ≤ length content
    → section_stream (bytes_reader content) off n ≡ once (part_of content off n)
unfolding section_stream
section_stream-once content off n h = rw (reader-full content off n h) refl
