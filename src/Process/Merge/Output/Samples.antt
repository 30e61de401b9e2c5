-- ===== src/Process/Merge/Output/Samples.antt =====
-- An output that keeps the lines that are written, and does not fail.
use archivindex_wbm.Common.{ℕ, List, [], ◌∷◌, ◌++◌, none, refl, Bytes}
use archivindex_wbm.Process.Merge.Output.Written.{IsWriting}
use archivindex_wbm.Process.Merge.Output.{Finish}

abbrev pub list_output : Finish ℕ
list_output = record {
  Writer = List Bytes;
  write_line = λ w line. (none, w ++ line ∷ []);
  finish = λ w. (none, w);
}

abbrev pub list_output-IsWriting : IsWriting list_output
list_output-IsWriting = record {
  text = λ w. w;
  write_line_lem = λ w line. (w ++ line ∷ [], refl, refl);
  finish_lem = λ w. (w, refl, refl);
}
