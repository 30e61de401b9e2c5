-- ===== src/Merge/Loop/Tests.antt =====
-- A merge of a new file between the snapshots of two streams.
use archivindex_wbm.Common.{Bool, List, [], ◌∷◌, ◌≡◌, refl, none, some, ok, Bytes, codes, map}
use archivindex_wbm.Merge.Loop.Passthrough.Merged.{run_merge_loop-Passes}
use archivindex_wbm.Merge.Loop.Passthrough.{Passes}
use archivindex_wbm.Merge.Loop.{
  items, pass, drain_before_on, drain_before, is_match, passthrough_if_match, drain_rest_on,
  drain_rest, Merging, write_target, merge_content, merge_entry, merge_entries, run_merge_loop,
  trim_end, trim_reversed, is_space1, is_space2, is_space3,
}
use archivindex_wbm.Merge.{
  first_input, second_input, to_first, PeekedStream, open_stream, existing, new, take_next,
  peek_digest, peek_item, next_item, next, send, write_existing, write_new,
}
use archivindex_wbm.Snapshot.Recovery.Encoding.{has_line_break}
use archivindex_wbm.Snapshot.Validation.{is_after, digest_lt}
use archivindex_wbm.Snapshot.Samples.{sample_snapshot, sample_sha1}
use archivindex_wbm.Snapshot.{Snapshot}

abbrev with_digest : Bytes → Snapshot Bool (Unit {0})
with_digest d = record sample_snapshot { digest = d }

abbrev second_stream : PeekedStream Bool (Unit {0}) Bytes
second_stream = open_stream (ok (with_digest (codes "DDDDDDDDDDDDDDDDDDDD")) ∷ []) second_input

abbrev first_stream : PeekedStream Bool (Unit {0}) Bytes
first_stream =
    open_stream
      (ok (with_digest (codes "AAAAAAAAAAAAAAAAAAAA"))
        ∷ ok (with_digest (codes "EEEEEEEEEEEEEEEEEEEE"))
        ∷ [])
      first_input

abbrev before : Merging Bool (Unit {0}) Bytes
before = record {
  first = record { stream = first_stream; sink = record { sent = []; room = 9 }; count = 0 };
  second = record { stream = second_stream; sink = record { sent = []; room = 9 }; count = 0 };
  first_new = 0;
  second_new = 0;
  skipped = 0;
}

abbrev after : Merging Bool (Unit {0}) Bytes
after = record {
  first = record {
    stream = record {
      inner = [];
      peeked = none;
      source = first_input;
      previous = some (codes "EEEEEEEEEEEEEEEEEEEE");
      line_number = 2;
    };
    sink = record {
      sent =
          existing (with_digest (codes "AAAAAAAAAAAAAAAAAAAA"))
          ∷ new (codes "CBBBBBBBBBBBBBBBBBBB") (codes "C")
          ∷ existing (with_digest (codes "EEEEEEEEEEEEEEEEEEEE"))
          ∷ [];
      room = 6;
    };
    count = 2;
  };
  second = record {
    stream = record {
      inner = [];
      peeked = none;
      source = second_input;
      previous = some (codes "DDDDDDDDDDDDDDDDDDDD");
      line_number = 1;
    };
    sink = record { sent = existing (with_digest (codes "DDDDDDDDDDDDDDDDDDDD")) ∷ []; room = 8 };
    count = 1;
  };
  first_new = 1;
  second_new = 0;
  skipped = 0;
}

abbrev entries : List (Bytes × Bytes)
entries = (codes "CBBBBBBBBBBBBBBBBBBB", codes "C") ∷ (codes "DDDDDDDDDDDDDDDDDDDD", codes "x") ∷ []

merged :
    run_merge_loop sample_sha1 (λ path. some path) (λ content. to_first) entries before ≡ ok after
unfolding run_merge_loop merge_entries merge_entry merge_content write_target drain_before
    drain_before_on items passthrough_if_match is_match drain_rest drain_rest_on pass peek_digest
    peek_item next next_item take_next send write_existing write_new trim_end trim_reversed
    is_space1 is_space2 is_space3 is_after digest_lt has_line_break
merged = refl

run_merge_loop-Passes_example :
    ((ss : List (Snapshot Bool (Unit {0}))) × Passes ss before.first after.first
      × (items before.first.stream ≡ map ok ss))
    × ((ss : List (Snapshot Bool (Unit {0}))) × Passes ss before.second after.second
        × (items before.second.stream ≡ map ok ss))
run_merge_loop-Passes_example =
    run_merge_loop-Passes sample_sha1 (λ path. some path) (λ content. to_first) entries before after
      merged
