-- ===== src/Snapshot/Samples.antt =====
-- Test data: packages that read and write a few texts, a hasher, a context and a snapshot.
use archivindex_wbm.Common.{
  ◌∷◌, ℕ, Bool, true, false, List, [], ◌++◌, ◌≡◌, refl, ap, Option, none, some, Bytes, codes,
  length, take, take_exact, length-append, bytes_eq, bytes_eq_sound, append_assoc, if◌then◌else◌,
  arith, Bool-cases, inl, inr,
}
use archivindex_wbm.Snapshot.Exact.Display.Written.{FieldLaws}
use archivindex_wbm.Snapshot.Exact.Object.{quote, plain, brace, byte, string, IsObject, braces}
use archivindex_wbm.Snapshot.Exact.{digest_len}
use archivindex_wbm.Snapshot.Recovery.Encoding.Hashing.{IsStreaming}
use archivindex_wbm.Snapshot.Recovery.Encoding.{Sha1}
use archivindex_wbm.Snapshot.{Format, utf8, other, Snapshot, Context, Fields}

abbrev pub padding : Bytes
padding = codes "AAAAAAAAAAAA"

-- The one object that these packages write.
abbrev pub object_text : Bytes
object_text = codes "{\"w\":\"n\"}"

abbrev pub write_sample : Format → Option (List ℕ) → Option Bytes
write_sample utf8 (some w) = if bytes_eq w (codes "\n") then some object_text else none
write_sample _ _ = none

abbrev pub sample_fields : Fields
sample_fields = record {
  Timestamp = Bool;
  Metadata = Unit {0};
  parse_digest = λ s. some (take 20 s);
  show_digest = λ d. d ++ padding;
  parse_timestamp = λ s. some (bytes_eq s (codes "20240102030405"));
  show_timestamp = λ t. if t then codes "20240102030405" else codes "20200102030405";
  no_metadata = tt;
  is_empty = λ m. true;
  read_format =
      λ s. some (record { name = utf8; closing_whitespace = some (codes "\n"); metadata = tt });
  write_format = λ f. write_sample f.name f.closing_whitespace;
}

pub parse-show_digest :
    (d : Bytes) → length d ≡ 20 → sample_fields.parse_digest (sample_fields.show_digest d) ≡ some d
parse-show_digest d h = ap some (rw (← h) (take_exact d padding))

pub length-show_digest :
    (d : Bytes) → length d ≡ 20 → length (sample_fields.show_digest d) ≡ digest_len
length-show_digest d h = omega (arith, length-append d padding)

pub parse-show_timestamp :
    (t : Bool) → sample_fields.parse_timestamp (sample_fields.show_timestamp t) ≡ some t
parse-show_timestamp true = refl
parse-show_timestamp false = refl

pub length-show_timestamp : (t : Bool) → length (sample_fields.show_timestamp t) ≡ 14
length-show_timestamp true = refl
length-show_timestamp false = refl

pub read-write :
    (name : Format) (w : Option (List ℕ)) (text : Bytes)
    → write_sample name w ≡ some text
    → sample_fields.read_format text
      ≡ some (record { name = name; closing_whitespace = w; metadata = tt })
read-write utf8 (some w) text h = elim (Bool-cases (bytes_eq w (codes "\n"))) [
  | inl same ↦ rw (bytes_eq_sound w (codes "\n") same) refl
  | inr differs ↦ let nothing = rw differs at h in cc
]
read-write utf8 none text h = cc
read-write (other n) w text h = cc

pub object_text-IsObject : IsObject object_text
object_text-IsObject = braces (
    string (plain b'w' (λ e. omega arith) (λ e. omega arith) quote) (
      byte b':' (λ e. omega arith) (λ e. omega arith) (λ e. omega arith)
        (string (plain b'n' (λ e. omega arith) (λ e. omega arith) quote) brace)))

pub write-IsObject :
    (name : Format) (w : Option (List ℕ)) (text : Bytes)
    → write_sample name w ≡ some text
    → IsObject text
write-IsObject utf8 (some w) text h = elim (Bool-cases (bytes_eq w (codes "\n"))) [
  | inl same ↦
      let made : object_text ≡ text = let there = rw same at h in cc in
      rw (← made) object_text-IsObject
  | inr differs ↦ let nothing = rw differs at h in cc
]
write-IsObject utf8 none text h = cc
write-IsObject (other n) w text h = cc

abbrev pub sample_laws : FieldLaws sample_fields
sample_laws = record {
  Reads = λ m. Unit {0};
  parse-show_digest = parse-show_digest;
  length-show_digest = length-show_digest;
  parse-show_timestamp = parse-show_timestamp;
  length-show_timestamp = length-show_timestamp;
  eq-no_metadata = λ m h. refl;
  read-write_format = λ f text named reads h. read-write f.name f.closing_whitespace text h;
  write_format-IsObject = λ f text h. write-IsObject f.name f.closing_whitespace text h;
}

-- A hasher that keeps the bytes, whose digest is the first twenty of them.
abbrev pub sample_sha1 : Sha1
sample_sha1 = record {
  Hasher = Bytes;
  start = [];
  update = λ h s. h ++ s;
  finalize = λ h. take 20 (h ++ codes "BBBBBBBBBBBBBBBBBBBB");
}

pub sample-IsStreaming : IsStreaming sample_fields sample_sha1
unfolding IsStreaming
sample-IsStreaming = λ h a b. append_assoc h a b

abbrev pub sample_context : Context (Unit {0})
sample_context = record {
  default_closing_whitespace = codes "\r\n";
  formats = [];
  infer_url = λ content. some (codes "http://a/");
}

abbrev pub sample_digest : Bytes
sample_digest = codes "CCCCCCCCCCCCCCCCCCCC"

abbrev pub sample_snapshot : Snapshot Bool (Unit {0})
sample_snapshot = record {
  digest = sample_digest;
  expected_digest = some (codes "DDDDDDDDDDDDDDDDDDDDDDDDDDDDDDDD");
  timestamp = some true;
  url = some (codes "http://b/");
  format = record { name = utf8; closing_whitespace = some (codes "\n"); metadata = tt };
  content = codes "{\"id\":1}";
}

-- A line that is a snapshot, and one that is not.
abbrev pub sample_lines : List (ℕ × Bytes)
sample_lines =
    (1, codes "{\"digest\":\"{\"id\":1}\r\nBBBBBBBBBBAAAAAAAAAAAA\",\"content\":{\"id\":1}}")
    ∷ (2, codes "nonsense")
    ∷ []
