-- ===== src/Snapshot/Exact/Object.antt =====
-- crates/json/src/exact.rs: `read_object_value` reads exactly one object of JSON text.
use archivindex_wbm.Common.Results.{◌>>=◌}
use archivindex_wbm.Common.{
  ℕ, ◌+◌, ◌-◌, true, false, [], ◌∷◌, ◌++◌, ◌≡◌, ◌≢◌, refl, ap, ◌∙◌, Result, ok, err, Bytes,
  append_assoc, ◌==◌, arith,
}
use archivindex_wbm.Snapshot.Exact.{Error, scan_object, read_object_value}

-- The rest of a string literal, with its closing quote.
pub data IsQuoted : Bytes → Type 0 where
  quote : IsQuoted (b'"' ∷ [])
  plain : {s : Bytes} (c : ℕ) → c ≢ b'"' → c ≢ b'\\' → IsQuoted s → IsQuoted (c ∷ s)
  escape : {s : Bytes} (c : ℕ) → IsQuoted s → IsQuoted (b'\\' ∷ c ∷ s)

-- The rest of an object, with its closing brace: other bytes, string literals and objects.
pub data IsMembers : Bytes → Type 0 where
  brace : IsMembers (b'}' ∷ [])
  byte : {s : Bytes} (c : ℕ) → c ≢ b'"' → c ≢ b'{' → c ≢ b'}' → IsMembers s → IsMembers (c ∷ s)
  string : {q s : Bytes} → IsQuoted q → IsMembers s → IsMembers (b'"' ∷ (q ++ s))
  object : {m s : Bytes} → IsMembers m → IsMembers s → IsMembers (b'{' ∷ (m ++ s))

pub data IsObject : Bytes → Type 0 where
  braces : {m : Bytes} → IsMembers m → IsObject (b'{' ∷ m)

abbrev prepend : Bytes → Result (Bytes × Bytes) Error → Result (Bytes × Bytes) Error
prepend m r = r >>= λ p. ok (m ++ p.0, p.1)

prepend-prepend :
    (a b : Bytes) (r : Result (Bytes × Bytes) Error) → prepend a (prepend b r) ≡ prepend (a ++ b) r
prepend-prepend a b (ok (v, rest)) = rw append_assoc
prepend-prepend a b (err e) = refl

-- One byte of the scan.
module _ (s : Bytes) (depth : ℕ) where
  step_quoted :
      (c : ℕ)
      → c ≢ b'"'
      → c ≢ b'\\'
      → scan_object (c ∷ s) depth true false ≡ prepend (c ∷ []) (scan_object s depth true false)
  unfolding scan_object
  step_quoted c nq ns =
      let quote : (c == b'"') ≡ false = ground arith in
      let slash : (c == b'\\') ≡ false = ground arith in rw (quote, slash)

  step_escape :
      (c : ℕ)
      → scan_object (b'\\' ∷ c ∷ s) depth true false
        ≡ prepend (b'\\' ∷ c ∷ []) (scan_object s depth true false)
  unfolding scan_object
  step_escape c = prepend-prepend (b'\\' ∷ []) (c ∷ []) (scan_object s depth true false)

  step_byte :
      (c : ℕ)
      → c ≢ b'"'
      → c ≢ b'{'
      → c ≢ b'}'
      → scan_object (c ∷ s) depth false false ≡ prepend (c ∷ []) (scan_object s depth false false)
  unfolding scan_object
  step_byte c nq nopen nclose =
      let quote : (c == b'"') ≡ false = ground arith in
      let opens : (c == b'{') ≡ false = ground arith in
      let closes : (c == b'}') ≡ false = ground arith in rw (quote, opens, closes)

  step_string :
      scan_object (b'"' ∷ s) depth false false
      ≡ prepend (b'"' ∷ []) (scan_object s depth true false)
  unfolding scan_object
  step_string = refl

  step_open :
      scan_object (b'{' ∷ s) depth false false
      ≡ prepend (b'{' ∷ []) (scan_object s (depth + 1) false false)
  unfolding scan_object
  step_open = refl

  step_close :
      scan_object (b'}' ∷ s) (depth + 2) false false
      ≡ prepend (b'}' ∷ []) (scan_object s (depth + 1) false false)
  unfolding scan_object
  step_close =
      let left : depth + 2 - 1 ≡ depth + 1 = omega arith in
      let inside : (depth + 1 == 0) ≡ false = ground arith in rw (left, inside)

  step_end : scan_object (b'}' ∷ s) 1 false false ≡ ok (b'}' ∷ [], s)
  unfolding scan_object
  step_end = refl

scan-IsQuoted :
    {q : Bytes} (depth : ℕ) (rest : Bytes)
    → IsQuoted q
    → scan_object (q ++ rest) depth true false ≡ prepend q (scan_object rest depth false false)
scan-IsQuoted depth rest quote = unfold scan_object in refl
scan-IsQuoted depth rest (plain {s} c nq ns h) =
    rw (step_quoted (s ++ rest) depth c nq ns, scan-IsQuoted depth rest h)
      (prepend-prepend (c ∷ []) s _)
scan-IsQuoted depth rest (escape {s} c h) =
    rw (step_escape (s ++ rest) depth c, scan-IsQuoted depth rest h)
      (prepend-prepend (b'\\' ∷ c ∷ []) s _)

-- An object inside another one.
scan_inner :
    {m : Bytes} (depth : ℕ) (rest : Bytes)
    → IsMembers m
    → scan_object (m ++ rest) (depth + 2) false false
      ≡ prepend m (scan_object rest (depth + 1) false false)
scan_inner depth rest brace = step_close rest depth
scan_inner depth rest (byte {s} c nq nopen nclose h) =
    rw (step_byte (s ++ rest) (depth + 2) c nq nopen nclose, scan_inner depth rest h)
      (prepend-prepend (c ∷ []) s _)
scan_inner depth rest (string {q} {s} hq h) =
    rw
      (
        append_assoc q s rest,
        step_string (q ++ (s ++ rest)) (depth + 2),
        scan-IsQuoted (depth + 2) (s ++ rest) hq,
        scan_inner depth rest h,
      )
      (ap (prepend (b'"' ∷ [])) (prepend-prepend q s _) ∙ prepend-prepend (b'"' ∷ []) (q ++ s) _)
scan_inner depth rest (object {m} {s} hm h) =
    let deeper : depth + 2 + 1 ≡ depth + 1 + 2 = omega arith in
    let back : depth + 1 + 1 ≡ depth + 2 = omega arith in
    rw
      (
        append_assoc m s rest,
        step_open (m ++ (s ++ rest)) (depth + 2),
        deeper,
        scan_inner (depth + 1) (s ++ rest) hm,
        back,
        scan_inner depth rest h,
      )
      (ap (prepend (b'{' ∷ [])) (prepend-prepend m s _) ∙ prepend-prepend (b'{' ∷ []) (m ++ s) _)

-- The outermost object.
scan_outer :
    {m : Bytes} (rest : Bytes) → IsMembers m → scan_object (m ++ rest) 1 false false ≡ ok (m, rest)
scan_outer rest brace = step_end rest 0
scan_outer rest (byte {s} c nq nopen nclose h) =
    rw (step_byte (s ++ rest) 1 c nq nopen nclose, scan_outer rest h)
scan_outer rest (string {q} {s} hq h) = rw (
  append_assoc q s rest,
  step_string (q ++ (s ++ rest)) 1,
  scan-IsQuoted 1 (s ++ rest) hq,
  scan_outer rest h,
)
scan_outer rest (object {m} {s} hm h) = rw (
  append_assoc m s rest,
  step_open (m ++ (s ++ rest)) 1,
  scan_inner 0 (s ++ rest) hm,
  scan_outer rest h,
)

-- The text of an object is read up to its closing brace, whatever follows it.
pub read_object_value-IsObject :
    {text : Bytes} (rest : Bytes)
    → IsObject text
    → read_object_value (text ++ rest) ≡ ok (text, rest)
unfolding read_object_value
read_object_value-IsObject rest (braces {m} h) = rw (step_open (m ++ rest) 0, scan_outer rest h)
