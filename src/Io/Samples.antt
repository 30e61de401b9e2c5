-- ===== src/Io/Samples.antt =====
-- An output that keeps the bytes that are written, a reader of lines, and a snapshot on one line.
use archivindex_wbm.Common.{
  ℕ, Bool, true, false, List, [], ◌∷◌, ◌++◌, ◌≡◌, refl, ap, Option, none, some, Result, ok, Bytes,
  codes, bytes_eq, append_assoc, append-nil, ◌==◌, if◌then◌else◌, arith, Bool-cases, inl, inr,
}
use archivindex_wbm.Io.ReadBack.{IsAppending, Lines}
use archivindex_wbm.Io.{Output}
use archivindex_wbm.Snapshot.Exact.Display.Unbroken.{IsUnbroken, IsOneLine}
use archivindex_wbm.Snapshot.Exact.Display.{shown_format}
use archivindex_wbm.Snapshot.Recovery.Encoding.{has_line_break}
use archivindex_wbm.Snapshot.Samples.{
  write_sample, sample_fields, sample_laws, sample_context, sample_snapshot,
}
use archivindex_wbm.Snapshot.{Format, utf8, other}

abbrev pub byte_output : Output ℕ
byte_output = record { Writer = Bytes; write_all = λ w s. (none, w ++ s); finish = λ w. (none, w) }

abbrev pub byte_output-IsAppending : IsAppending byte_output
byte_output-IsAppending = record { bytes = λ w. w; write_all_lem = λ w s. (w ++ s, refl, refl) }

-- The lines behind `line`, which is read so far.
pub read_lines : Bytes → Bytes → List (Result Bytes ℕ)
read_lines line [] = if bytes_eq line [] then [] else ok line ∷ []
read_lines line (c ∷ s) =
    let next = read_lines [] s in
    let more = read_lines (line ++ c ∷ []) s in if c == b'\n' then ok line ∷ next else more

pub read_lines-line :
    (line before rest : Bytes)
    → has_line_break line ≡ false
    → read_lines before (line ++ (b'\n' ∷ rest)) ≡ ok (before ++ line) ∷ read_lines [] rest
unfolding read_lines has_line_break
read_lines-line [] before rest h = rw (append-nil before) refl
read_lines-line (c ∷ line) before rest h =
    let other : (c == b'\n') ≡ false = ground arith in
    let clean : has_line_break line ≡ false = ground arith in
    rw (other, read_lines-line line (before ++ c ∷ []) rest clean)
      (ap (λ t. ok t ∷ read_lines [] rest) (append_assoc before (c ∷ []) line))

pub read_lines-nil : read_lines [] [] ≡ []
unfolding read_lines
read_lines-nil = refl

abbrev pub sample_lines_of : Lines ℕ
sample_lines_of = record {
  read = read_lines [];
  read-nil = read_lines-nil;
  read-line = λ line rest clean filled text. read_lines-line line [] rest clean.unbroken;
}

stamp-IsUnbroken : (t : Bool) → IsUnbroken (sample_fields.show_timestamp t)
unfolding has_line_break
stamp-IsUnbroken true = record { unbroken = refl }
stamp-IsUnbroken false = record { unbroken = refl }

write_sample-IsUnbroken :
    (name : Format) (w : Option (List ℕ)) (text : Bytes)
    → write_sample name w ≡ some text
    → IsUnbroken text
unfolding has_line_break
write_sample-IsUnbroken utf8 (some w) text h = elim (Bool-cases (bytes_eq w (codes "\n"))) [
  | inl same ↦
      let made : codes "{\"w\":\"n\"}" ≡ text = let there = rw same at h in cc in
      rw (← made) (record { unbroken = refl })
  | inr differs ↦ let nothing = rw differs at h in cc
]
write_sample-IsUnbroken utf8 none text h = cc
write_sample-IsUnbroken (other n) w text h = cc

pub sample-IsOneLine : IsOneLine sample_fields sample_laws sample_context sample_snapshot
unfolding has_line_break
sample-IsOneLine = record {
  content = record { unbroken = refl };
  digest = record { unbroken = refl };
  timestamp = λ t h. stamp-IsUnbroken t;
  format = λ object h.
      let shown =
        shown_format sample_fields sample_context.default_closing_whitespace
          sample_snapshot.format in
      write_sample-IsUnbroken shown.name shown.closing_whitespace object h;
}
