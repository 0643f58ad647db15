-- ===== src/Ios/Runs.antt =====
-- `splitNulStrings` of morf/ios/macho.go against the runs of printable bytes that it is to find.
use morf.Prelude.{
  ℕ, zero, suc, ◌-◌, ◌≤◌, ◌≡◌, refl, sym, ap, ◌∙◌, Option, none, some, List, [], ◌∷◌, ◌++◌,
  append_assoc, if◌then◌else◌, leb, length, length-append, length-drop, take, drop, arith,
  Bool-cases, inl, inr,
}
use morf.Ios.{
  Bytes, string_min_len, is_printable_string_byte, flush, started, split_loop, split_nul_strings,
}

abbrev pub keep : Bytes → List Bytes
keep run = if leb string_min_len (length run) then run ∷ [] else []

-- the printable runs of at least four bytes, `run` being the one that has begun
abbrev pub runs : Bytes → Bytes → List Bytes
runs run [] = keep run
runs run (b ∷ rest) =
    if is_printable_string_byte b then runs (run ++ b ∷ []) rest else keep run ++ runs [] rest

-- the bytes from `start` on, of those that were read
abbrev begun : Bytes → Option ℕ → Bytes
begun read none = []
begun read (some start) = drop start read

abbrev Behind : ℕ → Option ℕ → Type 0
Behind i none = Unit {0}
Behind i (some start) = start ≤ i

drop-append :
    (start : ℕ) (read rest : Bytes)
    → start ≤ length read
    → drop start (read ++ rest) ≡ drop start read ++ rest
drop-append zero read rest h = refl
drop-append (suc start) [] rest h = absurd (omega arith)
drop-append (suc start) (b ∷ read) rest h = drop-append start read rest (omega arith)

drop-length : (read : Bytes) → drop (length read) read ≡ []
drop-length [] = refl
drop-length (b ∷ read) = drop-length read

take-append : (run rest : Bytes) → take (length run) (run ++ rest) ≡ run
take-append [] rest = refl
take-append (b ∷ run) rest = ap (λ bs. b ∷ bs) (take-append run rest)

take_read :
    (start : ℕ) (read rest : Bytes)
    → start ≤ length read
    → take (length read - start) (drop start (read ++ rest)) ≡ drop start read
take_read start read rest h =
    rw (drop-append start read rest h, ← length-drop start read)
      (take-append (drop start read) rest)

flush-keep :
    (read rest : Bytes) (start : Option ℕ)
    → Behind (length read) start
    → flush (read ++ rest) (length read) start ≡ keep (begun read start)
flush-keep read rest none h = refl
flush-keep read rest (some start) h =
    rw (take_read start read rest h, ← length-drop start read) refl

begun-more :
    (read : Bytes) (b : ℕ) (start : Option ℕ)
    → Behind (length read) start
    → begun (read ++ b ∷ []) (started (length read) start) ≡ begun read start ++ b ∷ []
begun-more read b none h =
    drop-append (length read) read (b ∷ []) (omega arith) ∙ rw (drop-length read) refl
begun-more read b (some start) h = drop-append start read (b ∷ []) h

Behind-more :
    (read : Bytes) (b : ℕ) (start : Option ℕ)
    → Behind (length read) start
    → Behind (length (read ++ b ∷ [])) (started (length read) start)
Behind-more read b none h = omega (arith, length-append read (b ∷ []))
Behind-more read b (some start) h = omega (arith, length-append read (b ∷ []))

one_more : (read : Bytes) (b : ℕ) → suc (length read) ≡ length (read ++ b ∷ [])
one_more read b = omega (arith, length-append read (b ∷ []))

next_byte :
    (read rest : Bytes) (b : ℕ) (start : Option ℕ)
    → split_loop (read ++ b ∷ rest) rest (suc (length read)) start
      ≡ split_loop ((read ++ b ∷ []) ++ rest) rest (length (read ++ b ∷ [])) start
next_byte read rest b start =
    let regroup : read ++ b ∷ rest ≡ (read ++ b ∷ []) ++ rest =
      sym (append_assoc read (b ∷ []) rest) in
    λ i. split_loop (regroup i) rest (one_more read b i) start

split_loop-runs :
    (read rest : Bytes) (start : Option ℕ)
    → Behind (length read) start
    → split_loop (read ++ rest) rest (length read) start ≡ runs (begun read start) rest
split_loop-runs read [] start h = flush-keep read [] start h
split_loop-runs read (b ∷ rest) start h = elim (Bool-cases (is_printable_string_byte b)) [
  | inl e ↦ rw e (
      next_byte read rest b (started (length read) start)
      ∙ split_loop-runs (read ++ b ∷ []) rest (started (length read) start)
          (Behind-more read b start h)
      ∙ ap (λ run. runs run rest) (begun-more read b start h))
  | inr e ↦ rw e (λ i.
      flush-keep read (b ∷ rest) start h i
      ++ (next_byte read rest b none ∙ split_loop-runs (read ++ b ∷ []) rest none tt) i)
]

pub split_nul_strings-runs : (bytes : Bytes) → split_nul_strings bytes ≡ runs [] bytes
unfolding split_nul_strings
split_nul_strings-runs bytes = split_loop-runs [] bytes none tt
