-- ===== src/Lib.antt =====
-- A verification library of the pbo package: the reader and the writer of PBO archives, the
-- sealed transform, path normalisation and sanitising, entry filters and lookup, the editor, the
-- trailer and the hashes of signatures.
--
-- The parts, and how they interact. The writer (writer.go) prints a header section, an entry
-- table with placeholders and the payloads, and patches the table. The reader (reader.go) parses
-- header section and table and resolves the payload offsets under a policy. The sealed transform
-- (sealed.go) is applied to the bytes of a finished archive, and a reader under it decodes them
-- on demand. Paths (path.go, extract.go) are normalised for matching, storing and extracting;
-- filters and lookup (filter.go, entry_reader.go) work on the parsed table, and sanitize.go
-- rewrites its paths. The editor (editor.go) plans a rewrite from the source table and the
-- staged operations, and commits it with a backup, the rewrite pass, a trailer (trailer.go) and
-- a rollback. Signature hashes (sign_hashset.go) are taken from the index and the stored
-- payloads.
--
-- Files. Common holds the shared names, Boolean tests, lists measured by native numbers, and the
-- arithmetic of uint32 and int64. Model is model.go and errors.go: records, constants, defaults,
-- errors and the result type of fallible code. Wire is the little-endian words and positional
-- readers. Header is parseHeaderSection and readNullTerminated of reader.go with the header part
-- of rewriteArchiveDetailed of writer.go. Table is parseEntriesBuffered and
-- readNullTerminatedBuffered of reader.go with the table part of the writer. Offsets is
-- resolveEntryOffsets of reader.go with all that it calls. Reader is the index part of
-- Reader.parse, and its trailer check. Streams is copyPayloadBounded, readPayloadBounded and
-- checkedDataSize of writer.go. Payload is the payload functions of writer.go and the size and
-- path rules of compression.go. Archive is rewriteArchiveDetailed of writer.go, Plan is
-- preparePackRewritePlan before it. Text is what the code uses of Go's strings package, Paths is
-- path.go. Extract is the path check of extract.go and the filters of filter.go. Lookup is
-- findEntryByName and buildEntryIndex of entry_reader.go. Sealed is sealed.go: Cipher its stream
-- cipher with the float32 arithmetic of the warmup, Layout the geometry and the transforms.
-- Listing is Reader.parse with its filters, the opening on a ReaderAt, and metadata.go. Sanitize
-- is sanitize.go: Runes its loops over UTF-8, Names one segment, Entries paths and tables.
-- Editor is editor.go: the staged operations and the plan, Spec what the operations mean, Disk
-- the files and the rotation of the backups, Commit the commit. Trailer is trailer.go. Sign is
-- sign_hashset.go and sign_types.go, Packed the part that reads an archive. Unpack is the
-- streams and reads of entry_reader.go and the extraction to files of extract.go. Sorting and
-- Maps are sort.Slice by a key, sort.Strings, and Go maps with string keys. Tests holds runs on
-- small inputs.
--
-- Failures of the file system. A disk of the editor counts the calls that it was asked for, and
-- an oracle, which is an argument, says by the number which of them fail. A call that fails
-- changes nothing, but for the writing of the new archive, which leaves bytes that are an
-- argument. In the extraction, an argument says for each path which ways of opening it fail, and
-- whether Stat fails; files on its disk are told apart by the bytes of their relative paths.
--
-- Numbers. A uint32 and an int64 are native numbers with the wrap-around written out; an int64
-- is its 64-bit pattern where the code compares signed values, and Common.Words has the signed
-- tests. A file is its content and a position.
--
-- Fuel. The loops of the scan for a NUL, of the header pairs, of the table and of the bounded
-- copy take fuel, since what they read decides how long they run; running out is an error of its
-- own. The loops of the signature hashes over payloads take fuel too, and the search for a free
-- suffix in sanitize.go has the bound of the source. Each round takes at least one byte, so fuel
-- above the number of bytes is enough. The loops of the sealed transform take fuel from the
-- length of the data.
--
-- Arguments of the model. The LZSS codec and the compiled path rules are third-party packages,
-- and functions that stand in the options; SHA-1, strings.ToLower and the table unicode.Cf are
-- arguments of what uses them. The commit of the editor takes the parse, the rewrite and the
-- trailer as arguments. Streams are lists of answers that an io.Reader gives.
--
-- Not modelled. Opening and closing files by path; of the extraction, the directories, the pool
-- of workers with its channels and contexts, going on behind an error, and failures of writing,
-- cutting and closing a file. The items are taken in a sequence, which is what the workers do only
-- where no two items have the same path and none is the directory of another. Of the writer, callbacks, durations, failing writes of the destination, the
-- sealed step inside rewriteArchiveDetailed, and the entry points that open or create files.
-- These are file handling, or planned.
pub mod Archive
pub mod Common
pub mod Editor
pub mod Extract
pub mod Header
pub mod Listing
pub mod Lookup
pub mod Maps
pub mod Model
pub mod Offsets
pub mod Paths
pub mod Payload
pub mod Plan
pub mod Reader
pub mod Sanitize
pub mod Sealed
pub mod Sign
pub mod Sorting
pub mod Streams
pub mod Table
pub mod Tests
pub mod Text
pub mod Trailer
pub mod Unpack
pub mod Wire
