-- ===== src/Io/Tests.antt =====
-- A snapshot written twice, and read back.
use archivindex_wbm.Common.{ℕ, List, [], ◌∷◌, Bytes}
use archivindex_wbm.Io.{SnapshotWriter, open_writer}
use archivindex_wbm.Io.Samples.{byte_output}
use archivindex_wbm.Snapshot.Samples.{sample_fields, sample_sha1, sample_context, sample_snapshot}
use archivindex_wbm.Snapshot.{Snapshot}

abbrev broken : Bytes → ℕ × Bytes
broken w = (0, w)

abbrev twice : List (Snapshot sample_fields.Timestamp sample_fields.Metadata)
twice = sample_snapshot ∷ sample_snapshot ∷ []

abbrev empty_writer : SnapshotWriter sample_fields sample_sha1 byte_output broken
empty_writer = open_writer sample_fields sample_sha1 byte_output broken [] sample_context
