-- ===== src/Ios/Corpus/Lines.antt =====
-- The corpus of morf/ios/macho.go is one line for each string.
use morf.Prelude.{
  ℕ, suc, ◌+◌, ◌≡◌, refl, String, false, some, List, [], ◌∷◌, ◌++◌, if◌then◌else◌, ◌==◌, length,
  All, arith, Bool-cases, inl, inr,
}
use morf.Ios.{Bytes, ArchStrings, BinaryStrings, Strings}
use morf.Ios.Corpus.{
  codes, sanitize_line, has_newline, corpus_prefix, corpus_line, write_strings, write_sections,
  encrypted_line, write_slices, write_corpus,
}

-- the line feeds among the bytes
abbrev pub line_feeds : Bytes → ℕ
line_feeds [] = 0
line_feeds (c ∷ rest) = if c == 10 then suc (line_feeds rest) else line_feeds rest

line_feeds-append : (xs ys : Bytes) → line_feeds (xs ++ ys) ≡ line_feeds xs + line_feeds ys
line_feeds-append [] ys = omega arith
line_feeds-append (c ∷ xs) ys = ground (arith, line_feeds-append xs ys)

line_feeds-sanitize_line : (s : Bytes) → line_feeds (sanitize_line s) ≡ 0
line_feeds-sanitize_line [] = refl
line_feeds-sanitize_line (c ∷ s) = ground (arith, line_feeds-sanitize_line s)

line_feeds-none : (s : Bytes) → has_newline s ≡ false → line_feeds s ≡ 0
line_feeds-none [] h = refl
line_feeds-none (c ∷ s) h = ground (arith, h, line_feeds-none s)

line_feeds-cleaned : (s : Bytes) → line_feeds (if has_newline s then sanitize_line s else s) ≡ 0
line_feeds-cleaned s = elim (Bool-cases (has_newline s)) [
  | inl e ↦ rw e (line_feeds-sanitize_line s)
  | inr e ↦ rw e (line_feeds-none s e)
]

-- the strings of a slice
abbrev pub string_count : Strings → ℕ
string_count [] = 0
string_count ((section, strs) ∷ rest) = length strs + string_count rest

-- the entries of the corpus: a string, or the mark of an encrypted slice
abbrev pub entries : List ArchStrings → ℕ
entries [] = 0
entries (sl ∷ rest) = (if sl.is_encrypted then 1 else string_count sl.strings) + entries rest

-- the name of the architecture and the labels of the sections have no line feed
abbrev pub IsLabelled : ArchStrings → Type 0
IsLabelled sl =
    (line_feeds (codes sl.arch) ≡ 0)
    × All (λ (e : String × List Bytes). line_feeds (codes e.0) ≡ 0) sl.strings

line_feeds-append_zero :
    (xs ys : Bytes) (n : ℕ) → line_feeds xs ≡ 0 → line_feeds ys ≡ n → line_feeds (xs ++ ys) ≡ n
line_feeds-append_zero xs ys n h k = omega (arith, line_feeds-append xs ys)

corpus_line-line_feeds :
    (arch section : String) (s : Bytes)
    → line_feeds (codes arch) ≡ 0
    → line_feeds (codes section) ≡ 0
    → line_feeds (corpus_line arch section s) ≡ 1
corpus_line-line_feeds arch section s h k =
    let close = codes section ++ codes "] " in
    let middle = codes " section=" ++ close in
    let prefix : line_feeds (corpus_prefix arch section) ≡ 0 =
      line_feeds-append_zero (codes "[arch=") (codes arch ++ middle) 0 refl (
        line_feeds-append_zero (codes arch) middle 0 h (
          line_feeds-append_zero (codes " section=") close 0 refl
            (line_feeds-append_zero (codes section) (codes "] ") 0 k refl))) in
    let line = (if has_newline s then sanitize_line s else s) in
    line_feeds-append_zero (corpus_prefix arch section) (line ++ 10 ∷ []) 1 prefix
      (line_feeds-append_zero line (10 ∷ []) 1 (line_feeds-cleaned s) refl)

encrypted_line-line_feeds :
    (arch : String) → line_feeds (codes arch) ≡ 0 → line_feeds (encrypted_line arch) ≡ 1
encrypted_line-line_feeds arch h =
    let mark =
      codes " section=__ENCRYPTED__] FairPlay cryptid!=0; string extraction skipped" ++ 10 ∷ [] in
    line_feeds-append_zero (codes "[arch=") (codes arch ++ mark) 1 refl
      (line_feeds-append_zero (codes arch) mark 1 h refl)

write_strings-line_feeds :
    (arch section : String) (strs : List Bytes)
    → line_feeds (codes arch) ≡ 0
    → line_feeds (codes section) ≡ 0
    → line_feeds (write_strings arch section strs) ≡ length strs
write_strings-line_feeds arch section [] h k = refl
write_strings-line_feeds arch section (s ∷ rest) h k = omega (
  arith,
  line_feeds-append (corpus_line arch section s) (write_strings arch section rest),
  corpus_line-line_feeds arch section s h k,
  write_strings-line_feeds arch section rest h k,
)

write_sections-line_feeds :
    (arch : String) (strings : Strings)
    → line_feeds (codes arch) ≡ 0
    → All (λ (e : String × List Bytes). line_feeds (codes e.0) ≡ 0) strings
    → line_feeds (write_sections arch strings) ≡ string_count strings
write_sections-line_feeds arch [] h k = refl
write_sections-line_feeds arch ((section, strs) ∷ rest) h k = omega (
  arith,
  line_feeds-append (write_strings arch section strs) (write_sections arch rest),
  write_strings-line_feeds arch section strs h k.0,
  write_sections-line_feeds arch rest h k.1,
)

write_slices-line_feeds :
    (slices : List ArchStrings)
    → All IsLabelled slices
    → line_feeds (write_slices slices) ≡ entries slices
write_slices-line_feeds [] h = refl
write_slices-line_feeds (sl ∷ rest) h = elim (Bool-cases sl.is_encrypted) [
  | inl e ↦ rw e (
      omega (
        arith,
        line_feeds-append (encrypted_line sl.arch) (write_slices rest),
        encrypted_line-line_feeds sl.arch h.0.0,
        write_slices-line_feeds rest h.1,
      ))
  | inr e ↦ rw e (
      omega (
        arith,
        line_feeds-append (write_sections sl.arch sl.strings) (write_slices rest),
        write_sections-line_feeds sl.arch sl.strings h.0.0 h.0.1,
        write_slices-line_feeds rest h.1,
      ))
]

-- The corpus has one line feed for each string of a slice and one for the mark of each encrypted slice,
-- whatever bytes the strings hold, if no name of an architecture and no label has one.
pub write_corpus-line_feeds :
    (bs : BinaryStrings)
    → All IsLabelled bs.slices
    → line_feeds (write_corpus (some bs)) ≡ entries bs.slices
unfolding write_corpus
write_corpus-line_feeds bs h = write_slices-line_feeds bs.slices h
