-- ===== src/Lib.antt =====
-- mikura, an append-only object store: the parts of src/ that decide what is stored, what a request
-- may see and how bytes on disk and tokens on the wire are read back.
--
-- * Common holds what the parts share: Boolean tests on ℕ, lists, results, bytes of a word, texts as
--   lists of their bytes, association maps, and a reader that consumes a cursor of bytes.
-- * Errors names the messages of the `String` errors.
-- * Codec is src/codec.rs, Record the `ObjectRecord` of src/store/mod.rs.
-- * Log is src/log.rs: Body encodes a record, Decode reads it back, Page seals pages and superblocks
--   (Page.Grammar describes the frames of a page without the loop that reads them),
--   Writer is `LogWriter` with its file, Writer.Stage the commits staged through a shared writer, and
--   Read the readers of committed pages. What a writer stands for (Writer.Holds) is three lists of
--   records: on committed pages, on pages written behind them, and in the page being filled.
-- * Acl is src/acl.rs, the restriction that a request carries; Acl.Sorted has its sorted views.
-- * Value is src/value.rs: Calendar and Timestamp for instants, Types for the property types and their
--   tokens, Numbers, References and Geo for the parsers, and Forms for what is stored, compared and
--   searched. Codec.Csv is the list of unique entries of src/codec.rs.
-- * Schema is src/schema.rs: the conflict plan and the renames; Descriptor, Check, Rows and Replace for
--   descriptors, Migration for what a replacement does to rows, and Instance for the rows of a kind.
-- * Overlay is the merge of src/overlay.rs of a source row with its overlay under a conflict plan, and
--   Overlay.Rows the rows that patches and audits are stored as. Actions is src/actions.rs.
-- * Store is the live view of src/store/mod.rs: rows and generations, and commits of Action ids;
--   Markers for change sets, Schemas for a record that becomes live, Claims for retries, and Loads
--   for what a request is given.
-- * Request has the types of src/objectset.rs; Cursor is src/page.rs, a token that resumes a page of
--   results and that holds a fingerprint of the request, all but its breakdown.
--
-- A Rust `String` is the list of its UTF-8 bytes, with validity as a predicate where it matters; a
-- hash map is an association list with each key once, a hash set a list with no element twice. A
-- method on `&mut self` returns the changed value, with its result. The parts of an error's text that
-- are formatted from values are dropped. A word of w bytes is written with `to_le w`, which cuts it to
-- its width. The checksum of the crc crate is a parameter, a hash into 32 bits. The loop over the
-- frames of a page runs on fuel of the page's bytes, and each round takes two bytes. A call on the file
-- of the log may fail, after some bytes of a write have landed; a list says which calls do. The
-- canonical form of a timestamp is an argument of the merge of an overlay and of its rows. The floating
-- point numbers of src/value.rs are a parameter, the record `Floats` of their type and operations; its
-- signed integers are integers over ℕ, and a checked operation fails outside of 64 bits. The loop over
-- the years of an instant has a round for each year up to 9999, and the digits of n have n + 1 rounds.
-- The counts of pages are words of 32 bits, also in the sum that gives the end of the log (pages_end).
-- The version of a descriptor is a word of 32 bits and a generation one of 64, with the wrap-around
-- written out. The interned ids of the store are read as the texts that they stand for.
--
-- Not modelled: encryption (src/crypto.rs), whose primitives are not part of the repository; the
-- locks and threads around the log, and what a device loses that was not synced;
-- the order of writes of the store with its log, its history, its checkpoint and sidecars; the evaluation of a query (src/joins.rs, src/compute.rs) and its indexes;
-- the command-line and network hosts.
pub mod Acl
pub mod Actions
pub mod Codec
pub mod Common
pub mod Cursor
pub mod Errors
pub mod Examples
pub mod Log
pub mod Overlay
pub mod Record
pub mod Request
pub mod Schema
pub mod Store
pub mod Value
