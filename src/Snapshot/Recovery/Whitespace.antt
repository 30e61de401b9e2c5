-- ===== src/Snapshot/Recovery/Whitespace.antt =====
-- crates/json/src/context.rs: the closing whitespace of a line is the longest run of JSON whitespace at
-- its end.
use archivindex_wbm.Common.{
  ℕ, suc, ◌+◌, true, false, ◌&&◌, List, [], ◌∷◌, ◌++◌, ◌≡◌, refl, sym, ap, ◌∙◌, none, some, Bytes,
  length, take, reverse, bytes_eq, bytes_eq_sound, bytes_eq_refl, take_exact, length-append,
  reverse-append, reverse-reverse, All, All-append, ◌==◌, if◌then◌else◌, arith, Bool-cases, inl,
  inr,
}
use archivindex_wbm.Snapshot.Recovery.{
  walk_default, walk_whitespace, run_len, non_default_closing_whitespace,
}
use archivindex_wbm.Snapshot.{is_json_whitespace}

abbrev pub IsWhitespace : List ℕ → Type 0
IsWhitespace = All (λ c. is_json_whitespace c ≡ true)

-- A reversed text at which a run of whitespace stops.
abbrev Stops : Bytes → Type 0
Stops [] = Unit
Stops (c ∷ s) = is_json_whitespace c ≡ false

-- A text whose last character is no whitespace, or that has none.
abbrev pub IsTrimmed : Bytes → Type 0
IsTrimmed s = Stops (reverse s)

walk_whitespace-run :
    (n : ℕ) (w rest : Bytes)
    → IsWhitespace w
    → Stops rest
    → walk_whitespace n (w ++ rest) ≡ n + length w
unfolding walk_whitespace
walk_whitespace-run n [] [] hw stop = ground arith
walk_whitespace-run n [] (c ∷ s) hw stop = ground arith
walk_whitespace-run n (x ∷ w) rest (hx, hw) stop =
    let ih = walk_whitespace-run (n + 1) w rest hw stop in ground arith

-- The walk reads the run, and matches the default just when the run is the default.
walk-run :
    (default : List ℕ) (n : ℕ) (w rest : Bytes)
    → IsWhitespace default
    → IsWhitespace w
    → Stops rest
    → let walk = walk_default default n (w ++ rest) in
      (run_len walk ≡ n + length w)
      × ((walk.is_match && run_len walk == n + length default) ≡ bytes_eq w default)
unfolding walk_default run_len
walk-run [] n [] rest hd hw stop =
    let run = walk_whitespace-run n [] rest hw stop in (ground arith, ground arith)
walk-run [] n (y ∷ w) rest hd hw stop =
    let run = walk_whitespace-run n (y ∷ w) rest hw stop in (ground arith, ground arith)
walk-run (x ∷ default) n [] [] (hx, hd) hw stop = (walk_whitespace-run n [] [] tt tt, refl)
walk-run (x ∷ default) n [] (c ∷ s) (hx, hd) hw stop = (ground arith, ground arith)
walk-run (x ∷ default) n (y ∷ w) rest (hx, hd) (hy, hw) stop =
    let (read, same) = walk-run default (n + 1) w rest hd hw stop in
    let run = walk_whitespace-run (n + 1) w rest hw stop in
    let sums : n + suc (length default) ≡ n + 1 + length default = omega arith in
    elim (Bool-cases (x == y)) [
      | inl e ↦ let e' : (y == x) ≡ true = ground arith in rw (e, e', sums) (ground arith, same)
      | inr e ↦ let e' : (y == x) ≡ false = ground arith in rw (e, e', hy) (ground arith, refl)
    ]

length-reverse : (s : Bytes) → length (reverse s) ≡ length s
length-reverse [] = refl
length-reverse (x ∷ s) =
    rw (reverse-append (x ∷ []) s, length-append (reverse s) (x ∷ []), length-reverse s)
      (omega arith)

IsWhitespace-reverse : (w : List ℕ) → IsWhitespace w → IsWhitespace (reverse w)
IsWhitespace-reverse [] h = tt
IsWhitespace-reverse (x ∷ w) (hx, h) = rw (reverse-append (x ∷ []) w) (
    All-append (λ c. is_json_whitespace c ≡ true) (reverse w) (x ∷ []) (IsWhitespace-reverse w h)
      (hx, tt))

bytes_eq-reverse : (a b : Bytes) → bytes_eq (reverse a) (reverse b) ≡ bytes_eq a b
bytes_eq-reverse a b = elim (Bool-cases (bytes_eq a b)) [
  | inl same ↦
      let e = bytes_eq_sound a b same in rw (e, bytes_eq_refl (reverse b), bytes_eq_refl b) refl
  | inr differs ↦ elim (Bool-cases (bytes_eq (reverse a) (reverse b))) [
    | inr differ ↦ rw (differ, differs)
    | inl same ↦
        let turned = ap reverse (bytes_eq_sound (reverse a) (reverse b) same) in
        let e : a ≡ b = rw (reverse-reverse a, reverse-reverse b) at turned in
        rw (e, bytes_eq_refl (reverse b), bytes_eq_refl b) refl
  ]
]

-- Under a default of JSON whitespace, the closing whitespace of a text that ends in none, followed
-- by JSON whitespace, is just that whitespace, where it is not the default.
pub non_default-run :
    (default content w : Bytes)
    → IsWhitespace default
    → IsWhitespace w
    → IsTrimmed content
    → non_default_closing_whitespace default (content ++ w)
      ≡ (if bytes_eq w default then none else some w)
unfolding non_default_closing_whitespace
non_default-run default content w hd hw stop =
    let (read, same) =
      walk-run (reverse default) 0 (reverse w) (reverse content) (IsWhitespace-reverse default hd)
        (IsWhitespace-reverse w hw) stop in
    let turned = reverse-append content w in
    let none_read : (n : ℕ) → 0 + n ≡ n = λ n. omega arith in
    let read' = rw (none_read (length (reverse w))) at read in
    let same' =
      rw (length-reverse default, none_read (length default), bytes_eq-reverse w default) at same in
    let taken : reverse (take (length (reverse w)) (reverse w ++ reverse content)) ≡ w =
      rw take_exact (reverse-reverse w) in
    rw (turned, same', read', taken)

reversed_run-cases :
    (s : Bytes) → (w : Bytes) × (rest : Bytes) × (s ≡ w ++ rest) × IsWhitespace w × Stops rest
reversed_run-cases [] = ([], [], refl, tt, tt)
reversed_run-cases (c ∷ s) = elim (Bool-cases (is_json_whitespace c)) [
  | inr stop ↦ ([], c ∷ s, refl, tt, stop)
  | inl white ↦
      let (w, rest, e, hw, stop) = reversed_run-cases s in
      (c ∷ w, rest, ap (◌∷◌ c) e, (white, hw), stop)
]

-- Every text is a trimmed one followed by whitespace.
pub run-cases :
    (s : Bytes)
    → (content : Bytes) × (w : Bytes) × (s ≡ content ++ w) × IsTrimmed content × IsWhitespace w
run-cases s =
    let (w, rest, e, hw, stop) = reversed_run-cases (reverse s) in
    let back : s ≡ reverse rest ++ reverse w =
      sym (reverse-reverse s) ∙ ap reverse e ∙ reverse-append w rest in
    (reverse rest, reverse w, back, rw (reverse-reverse rest) stop, IsWhitespace-reverse w hw)
