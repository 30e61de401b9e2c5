-- ===== src/Process/Merge/Output/Tests.antt =====
-- Inputs merged: two that are in order, and one that is not.
use archivindex_wbm.Common.{
  ℕ, List, [], ◌∷◌, ◌≡◌, refl, Option, none, some, Result, ok, err, Bytes, codes, map,
}
use archivindex_wbm.Process.Merge.Iterator.{Entry, merge}
use archivindex_wbm.Process.Merge.Output.Samples.{list_output, list_output-IsWriting}
use archivindex_wbm.Process.Merge.Output.Written.{merge_into-IsSorted}
use archivindex_wbm.Process.Merge.Output.{merge_into}
use archivindex_wbm.Process.Merge.Union.{IsSorted, merge-IsUnion}
use archivindex_wbm.Process.Merge.Verdict.Lines.{IsVerdict}
use archivindex_wbm.Process.Merge.Verdict.Outcome.{yielded, merge-IsVerdict}
use archivindex_wbm.Process.Merge.Verdict.{firsts, seconds, IsUnion}
use archivindex_wbm.Process.Merge.{
  Error, Line, Summary, first_side, second_side, open_file, extract_digest,
}
use archivindex_wbm.Snapshot.Validation.{is_after, digest_lt}

-- A digest that is its own text.
abbrev own_digest : Bytes → Option Bytes
own_digest text = some text

abbrev line_a : Bytes
line_a = codes "{\"digest\":\"AAAAAAAAAAAAAAAAAAAAAAAAAAAAAAAA\",\"content\":1}"

abbrev line_a' : Bytes
line_a' = codes "{\"digest\":\"AAAAAAAAAAAAAAAAAAAAAAAAAAAAAAAA\",\"content\":2 }"

abbrev line_b : Bytes
line_b = codes "{\"digest\":\"BBBBBBBBBBBBBBBBBBBBBBBBBBBBBBBB\",\"content\":3}"

abbrev inputs_a : List (Line ℕ)
inputs_a = ok line_a ∷ []

abbrev inputs_ab : List (Line ℕ)
inputs_ab = ok line_a' ∷ ok line_b ∷ []

abbrev inputs_ba : List (Line ℕ)
inputs_ba = ok line_b ∷ ok line_a ∷ err 5 ∷ []

inputs_a-IsSorted : IsSorted own_digest none inputs_a
unfolding extract_digest is_after
inputs_a-IsSorted = (codes "AAAAAAAAAAAAAAAAAAAAAAAAAAAAAAAA", refl, refl, tt)

inputs_ab-IsSorted : IsSorted own_digest none inputs_ab
unfolding extract_digest is_after digest_lt
inputs_ab-IsSorted = (
  codes "AAAAAAAAAAAAAAAAAAAAAAAAAAAAAAAA",
  refl,
  refl,
  (codes "BBBBBBBBBBBBBBBBBBBBBBBBBBBBBBBB", refl, refl, tt),
)

merge-IsVerdict_example :
    (entries : List Entry) × (end : Option (Error ℕ)) × (merge own_digest inputs_ba inputs_ab
      ≡ some (yielded entries end))
    × IsVerdict own_digest
        (open_file first_side inputs_ba)
        (open_file second_side inputs_ab)
        none
        entries
        end
merge-IsVerdict_example = merge-IsVerdict own_digest inputs_ba inputs_ab

merge-IsUnion_example :
    (entries : List Entry) × (merge own_digest inputs_a inputs_ab ≡ some (map ok entries))
    × IsUnion own_digest 0 0 none entries
    × (inputs_a ≡ map ok (firsts entries))
    × (inputs_ab ≡ map ok (seconds entries))
merge-IsUnion_example =
    merge-IsUnion own_digest inputs_a inputs_ab inputs_a-IsSorted inputs_ab-IsSorted

merge_into-IsSorted_example :
    (r : Result Summary (Error ℕ)) × (w' : List Bytes) × (merge_into list_output own_digest
        inputs_ba inputs_ab []
      ≡ some (r, w'))
    × IsSorted own_digest {E = ℕ} none (map ok (list_output-IsWriting.text w'))
merge_into-IsSorted_example =
    merge_into-IsSorted list_output list_output-IsWriting own_digest inputs_ba inputs_ab [] refl
