-- ===== src/Lib.antt =====
-- archivindex-wbm: Rust libraries for the records of the Wayback Machine, its index (CDX), its
-- snapshot files and their merge.
--
-- Common: Boolean tests, lists, byte texts and results, shared by all parts. A text is the list of
-- its UTF-8 bytes. A slice out of range or another panic is the value `none`.
-- Surt (crates/wbm/src/surt.rs): `parse_str` is `scan_parts` with `from_validated`; the accessors
-- and `DomainNamePartIter` are in Surt/Parts, `decode_path` and `decode_query_value` in Surt/Decode,
-- `from_url` in Surt/Url and the `Display` of `SurtCanonicalUrl` in Surt/Canonical. The packages
-- `archivindex_surt` and `url` are parameters (`SharedSurts`, `Urls`), and so is Unicode lowercasing.
-- `for domain_part in parts` has the number of parts as its fuel: a round takes one part.
-- Snapshot (crates/json/src): a snapshot, its `Format` and the `Context`. `ExactSnapshot::parse` and
-- the helpers of exact.rs are in Snapshot/Exact, with an index into the line as the text behind it;
-- the `Display` of `SnapshotDisplay` is in Snapshot/Exact/Display. Of context.rs,
-- `register_format`, `codec` and `non_default_closing_whitespace` are in Snapshot/Recovery,
-- `unprocessed_snapshot`, `encode` and `verify` in Snapshot/Recovery/Encoding, `validate_lines`,
-- with the results of validation.rs, in Snapshot/Validation, and `new` and `infer` in
-- Snapshot/Inference. What `serde_json`, `archivindex_digest`
-- and `archivindex_cdx` read and write is the parameter `Fields`, whose laws are `FieldLaws`; the
-- hasher of `sha1` is the parameter `Sha1`; the lines that `archivindex_lines` returns are a list; a
-- CEL query is the function from contents to URLs that it stands for.
-- Merge (crates/json-processing/src/stream/merge.rs): `PeekedStream` and the sinks are in Merge, the
-- loops and `run_merge_loop` in Merge/Loop. A sink is what its writer receives, with the number of
-- commands that it still takes before it stops; reading a file and classifying it are parameters. A
-- loop over a stream is recursion on the items that the stream still yields, so it needs no fuel.
-- Item (crates/wbm/src/item.rs, timestamp.rs): `UrlParts::parse_str` is `parse_parts`, and
-- `Timestamp::from_str` is `from_str`. Dates are the parameter `Times`.
-- Process (crates/json-processing/src/process): of merge.rs, the lines, the files and their peeks
-- are in Process/Merge, `MergeIter` and `merge` in Process/Merge/Iterator, and `merge_into` in
-- Process/Merge/Output. `drain` has a round for each item of both inputs and one more as its fuel: a
-- call of `next` that does not end the iterator takes an item. The text of a digest and the output
-- (`Finish`) are parameters. Process/Resolver has the types of resolver.rs, with the candidates of a
-- digest in Process/Resolver/Candidates and `Resolver` in Process/Resolver/Scan: `load_digests`,
-- `read_invalid_digests`, `resolve`, `lookup`, `found` and `missing`; what the log and the CDX files
-- hold is a parameter. Process/Sorted has the ordered sets and maps of the standard library.
-- Process/Check is `check_source` of check.rs. Process/Skip is skip.rs, and Process/Pack has `prepare`
-- and `pack_into` of pack.rs, behind the scan of the directories: the files, split in chunks, with
-- their reading, the detector of formats and the declared digests are parameters.
-- Digest (crates/wbm/src/digest.rs): `Digest` is `CdxDigest`, with its derived order.
-- Cdx (crates/wbm/src/cdx/status_code.rs): the table of status codes and its conversions.
-- Io (crates/json-processing/src/io/write.rs, read.rs): `SnapshotWriter` and `SnapshotReader`, which
-- use the display and the parser of Snapshot. `writeln!` adds the text and a line feed to the bytes of
-- the output (`Output`); the reader of lines of the package `archivindex_lines` is a parameter.
--
-- Not modelled: the compaction and enhancement of files, the scan of data directories, the conversions
-- of timestamps, CDX items, and the recovery of gzip files. Nor are HTTP clients, databases, file
-- input and output, and the command-line tools, which call other packages.
pub mod Common
pub mod Surt
pub mod Snapshot
pub mod Merge
pub mod Item
pub mod Process
pub mod Digest
pub mod Cdx
pub mod Io
