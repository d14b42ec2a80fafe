-- ===== src/Lib.antt =====
-- zag reads a Zig program's facts and plans its port to Rust. This library models the parts of zag
-- that decide what the port means: the tables of facts, how they are built and validated, the file
-- that carries them between tools, the analysis that decides who owns the memory behind each field,
-- and the repair of the port from what the Rust compiler says of it.
--
-- The program is a pipeline. A frontend (crates/zag-frontend, crates/zag/tools) fills the tables of
-- crates/zag-facts; they are written to a fact file and read back (wire.rs); the analysis
-- (crates/zag-analysis) builds the call graph, resolves the allocator that each parameter receives,
-- and classifies each field; an emitter, a renderer and a repair loop turn that into Rust.
--
-- Files:
--   Prelude: lists and Boolean tests over the native numbers, and Rust's u32 and usize arithmetic,
--     with its wrap-around written out. Additions of u32 that Rust would check in a debug build wrap
--     here, as they do in a release build.
--   Facts.Handles, Facts.Kinds, Facts.Tables, Facts.Access, Facts.Ranges:
--     crates/zag-facts/src/handles.rs and tables.rs. A table is a record of columns, a column is a
--     list, a handle is the number it wraps. `module` is `module_id`, since the word is taken.
--   Facts.Wire: crates/zag-facts/src/wire.rs. Encode and Decode are the two directions; Reads, Readers
--     and Writes are about the bytes that a reader takes and a writer appends.
--   Facts.Validate: crates/zag-facts/src/validate.rs. Columns, Limits and Checks are the checks, in
--     the order of the source; a list of violations is handed from one to the next. Consistent says what tables
--     without violations are like, and reads no check. Clean, Loops, Rows and Handles go through the
--     checks one by one, Correct puts them together, and Partition is about the ranges of rows.
--   Facts.Build: crates/zag-facts/src/build.rs. Strings, Types, Rows, Flow and Declare are the
--     builders; one that may panic gives an Option, and a call that panics is no step. Steps is the relation
--     between tables before and after a call; Texts, Interned, Columns, Ranges, Ranged and Ordered
--     are what the builders promise.
--   Analysis.Buckets: the counting sort that call_graph.rs and ownership.rs both write out.
--   Analysis.CallGraph: crates/zag-analysis/src/call_graph.rs. A read past the edges, which panics in
--     Rust, is a value of its own. The walk's loop runs on as much fuel as there are functions and one
--     more round: each function is pushed once, since a pushed function is stamped.
--   Analysis.Provenance: crates/zag-analysis/src/provenance.rs. The outer loop has the source's own
--     limit, three rounds for each parameter and four more; the lattice has three steps. Its own
--     classes are as many as the parameters; classify_source, which is handed classes, has no result
--     where they are fewer and it would index past them. Valid is about tables that the validation
--     passes, Conflicts about the kinds of the sources that calls hand on.
--   Analysis.Ownership: crates/zag-analysis/src/ownership.rs and the sequence of passes in lib.rs. A
--     pass that panics has no result. Reference is a second, simple account of the same pass: it scans
--     the whole tables for every field and walks the call graph afresh for every question. Assigned
--     and Meaning.Lookups are about the lookups of allocators that panic.
--   Repair: crates/zag-repair/src/lib.rs. Order is about the order and the two checks, Weave about the
--     repaired text, position by position, Applies and Errors about the results, Plans about the
--     planning. What the source uses of the standard library, parsing a u32 and a stable sort, is
--     written out. A slice out of range, which panics in Rust, is a value of its own.
--   Tests: runs on a small program, and the theorems at that program.
--
-- Recursions that the source cuts at a depth of eight (`over_aligned`, `is_reference_type`) are cut
-- there too, so they need no other fuel.
--
-- Not modelled: dumps, fixtures and examples; the emitter and the renderer; the frontend, which stands
-- on a Zig parser outside the repository; running compilers, reading files and the command line.
pub mod Prelude
pub mod Facts
pub mod Analysis
pub mod Repair
pub mod Tests
