-- ===== src/Ios/Recall.antt =====
-- Which literals of a binary morf/ios/macho.go extracts.
use mathlib.Core.Path.{subst}
use morf.Prelude.{
  ℕ, ◌≤◌, ◌≡◌, ◌⊎◌, refl, sym, ap, ◌∙◌, String, Bool, true, false, Option, none, some, List, [],
  ◌∷◌, ◌++◌, append-nil, append_assoc, if◌then◌else◌, str_eq, eq_iff, leb, le→leb, length,
  length-append, all, arith, Bool-cases, inl, inr,
}
use morf.Ios.{
  Bytes, Section, MachoFile, Strings, is_printable_string_byte, split_nul_strings, append_string,
  append_all, reflection, is_read, label_of, add_contents, add_sections, extract_slice_strings,
}
use morf.Ios.Runs.{runs, keep, split_nul_strings-runs}

-- `s` is a part of `x`
abbrev pub Within : Bytes → Bytes → Type 0
Within s x = (before : Bytes) × (after : Bytes) × (x ≡ before ++ (s ++ after))

-- one of the strings has `s` in it
abbrev pub Holds : Bytes → List Bytes → Type 0
Holds s [] = ⊥
Holds s (x ∷ xs) = Within s x ⊎ Holds s xs

-- so has one under the label
abbrev pub HoldsAt : String → Bytes → Strings → Type 0
HoldsAt label s [] = ⊥
HoldsAt label s ((l, strs) ∷ rest) = ((l ≡ label) × Holds s strs) ⊎ HoldsAt label s rest

Holds-append_right : (s : Bytes) (xs ys : List Bytes) → Holds s ys → Holds s (xs ++ ys)
Holds-append_right s [] ys h = h
Holds-append_right s (x ∷ xs) ys h = inr (Holds-append_right s xs ys h)

Holds-append_left : (s : Bytes) (xs ys : List Bytes) → Holds s xs → Holds s (xs ++ ys)
Holds-append_left s [] ys h = absurd h
Holds-append_left s (x ∷ xs) ys (inl w) = inl w
Holds-append_left s (x ∷ xs) ys (inr h) = inr (Holds-append_left s xs ys h)

module _ (s : Bytes) (long : 4 ≤ length s) where
  Within-long : (run : Bytes) → Within s run → leb 4 (length run) ≡ true
  Within-long run (before, after, e) =
      le→leb 4 (length run)
        (omega (arith, ap length e, length-append before (s ++ after), length-append s after))

  Within-more : (run : Bytes) (b : ℕ) → Within s run → Within s (run ++ b ∷ [])
  Within-more run b (before, after, e) = (
    before,
    after ++ b ∷ [],
    ap (λ bs. bs ++ b ∷ []) e
        ∙ append_assoc before (s ++ after) (b ∷ [])
        ∙ ap (λ bs. before ++ bs) (append_assoc s after (b ∷ [])),
  )

  Holds-keep : (run : Bytes) → Within s run → Holds s (keep run)
  Holds-keep run w = rw (Within-long run w) (inl w)

  runs-Holds_run : (run rest : Bytes) → Within s run → Holds s (runs run rest)
  runs-Holds_run run [] w = Holds-keep run w
  runs-Holds_run run (b ∷ rest) w = elim (Bool-cases (is_printable_string_byte b)) [
    | inl e ↦ rw e (runs-Holds_run (run ++ b ∷ []) rest (Within-more run b w))
    | inr e ↦ rw e (Holds-append_left s (keep run) (runs [] rest) (Holds-keep run w))
  ]

runs_over :
    (s run post : Bytes)
    → all is_printable_string_byte s ≡ true
    → runs run (s ++ post) ≡ runs (run ++ s) post
runs_over [] run post p = ap (λ r. runs r post) (sym (append-nil run))
runs_over (b ∷ s) run post p = elim (Bool-cases (is_printable_string_byte b)) [
  | inr e ↦ absurd (ground (arith, e, p))
  | inl e ↦ rw e (
      runs_over s (run ++ b ∷ []) post (ground (arith, e, p))
      ∙ ap (λ r. runs r post) (append_assoc run (b ∷ []) s))
]

runs-Holds :
    (s pre post run : Bytes)
    → 4 ≤ length s
    → all is_printable_string_byte s ≡ true
    → Holds s (runs run (pre ++ (s ++ post)))
runs-Holds s [] post run long p =
    rw (runs_over s run post p)
      (runs-Holds_run s long (run ++ s) post (run, [], ap (λ bs. run ++ bs) (sym (append-nil s))))
runs-Holds s (b ∷ pre) post run long p = elim (Bool-cases (is_printable_string_byte b)) [
  | inl e ↦ rw e (runs-Holds s pre post (run ++ b ∷ []) long p)
  | inr e ↦ rw e (Holds-append_right s (keep run) _ (runs-Holds s pre post [] long p))
]

-- Every printable part of at least four bytes lies in a string that is split off, wherever it stands
-- among the bytes.
pub split_nul_strings-Holds :
    (s pre post : Bytes)
    → 4 ≤ length s
    → all is_printable_string_byte s ≡ true
    → Holds s (split_nul_strings (pre ++ (s ++ post)))
split_nul_strings-Holds s pre post long p =
    rw (split_nul_strings-runs (pre ++ (s ++ post))) (runs-Holds s pre post [] long p)

HoldsAt-append_string :
    (label l : String) (s x : Bytes) (m : Strings)
    → HoldsAt label s m
    → HoldsAt label s (append_string l x m)
HoldsAt-append_string label l s x [] h = absurd h
HoldsAt-append_string label l s x ((k, strs) ∷ rest) (inl (here, h)) =
    elim (Bool-cases (str_eq k l)) [
      | inl e ↦ rw e (inl (here, Holds-append_left s strs (x ∷ []) h))
      | inr e ↦ rw e (inl (here, h))
    ]
HoldsAt-append_string label l s x ((k, strs) ∷ rest) (inr h) = elim (Bool-cases (str_eq k l)) [
  | inl e ↦ rw e (inr h)
  | inr e ↦ rw e (inr (HoldsAt-append_string label l s x rest h))
]

append_string-HoldsAt :
    (label : String) (s x : Bytes) (m : Strings)
    → Within s x
    → HoldsAt label s (append_string label x m)
append_string-HoldsAt label s x [] w = inl (refl, inl w)
append_string-HoldsAt label s x ((k, strs) ∷ rest) w = elim (Bool-cases (str_eq k label)) [
  | inl e ↦ rw e (inl ((eq_iff k label).0 e, Holds-append_right s strs (x ∷ []) (inl w)))
  | inr e ↦ rw e (inr (append_string-HoldsAt label s x rest w))
]

HoldsAt-append_all :
    (label l : String) (s : Bytes) (xs : List Bytes) (m : Strings)
    → HoldsAt label s m
    → HoldsAt label s (append_all l xs m)
HoldsAt-append_all label l s [] m h = h
HoldsAt-append_all label l s (x ∷ xs) m h =
    HoldsAt-append_all label l s xs (append_string l x m) (HoldsAt-append_string label l s x m h)

append_all-HoldsAt :
    (label : String) (s : Bytes) (xs : List Bytes) (m : Strings)
    → Holds s xs
    → HoldsAt label s (append_all label xs m)
append_all-HoldsAt label s [] m h = absurd h
append_all-HoldsAt label s (x ∷ xs) m (inl w) =
    HoldsAt-append_all label label s xs (append_string label x m)
      (append_string-HoldsAt label s x m w)
append_all-HoldsAt label s (x ∷ xs) m (inr h) =
    append_all-HoldsAt label s xs (append_string label x m) h

module _ (label : String) (s : Bytes) where
  HoldsAt-add_contents :
      (l : String) (contents : Option Bytes) (m : Strings)
      → HoldsAt label s m
      → HoldsAt label s (add_contents l contents m)
  unfolding add_contents
  HoldsAt-add_contents l none m h = h
  HoldsAt-add_contents l (some bytes) m h =
      HoldsAt-append_all label l s (split_nul_strings bytes) m h

  HoldsAt-add_sections :
      (handled : Bool) (secs : List Section) (m : Strings)
      → HoldsAt label s m
      → HoldsAt label s (add_sections handled secs m)
  unfolding add_sections
  HoldsAt-add_sections handled [] m h = h
  HoldsAt-add_sections handled (sec ∷ rest) m h = elim (Bool-cases (is_read handled sec)) [
    | inl e ↦
        rw e (
          HoldsAt-add_sections handled rest _
            (HoldsAt-add_contents (label_of sec) sec.contents m h))
    | inr e ↦ rw e (HoldsAt-add_sections handled rest m h)
  ]

add_sections-HoldsAt :
    (handled : Bool) (before after : List Section) (sec : Section) (s pre post : Bytes)
    (m : Strings)
    → is_read handled sec ≡ true
    → sec.contents ≡ some (pre ++ (s ++ post))
    → 4 ≤ length s
    → all is_printable_string_byte s ≡ true
    → HoldsAt (label_of sec) s (add_sections handled (before ++ sec ∷ after) m)
unfolding add_sections add_contents
add_sections-HoldsAt handled [] after sec s pre post m e c long p =
    let stepped : (if is_read handled sec then add_contents (label_of sec) sec.contents m else m)
        ≡ append_all (label_of sec) (split_nul_strings (pre ++ (s ++ post))) m =
      rw (e, c) refl in
    subst (λ m'. HoldsAt (label_of sec) s (add_sections handled after m')) (sym stepped)
      (HoldsAt-add_sections (label_of sec) s handled after _
        (append_all-HoldsAt (label_of sec) s _ m (split_nul_strings-Holds s pre post long p)))
add_sections-HoldsAt handled (first ∷ before) after sec s pre post m e c long p =
    add_sections-HoldsAt handled before after sec s pre post _ e c long p

-- In a slice that is not encrypted, a printable literal of at least four bytes, anywhere in a section
-- that is read, lies in one of the strings under the section's label.
pub extract_slice_strings-HoldsAt :
    (f : MachoFile) (arch : String) (before after : List Section) (sec : Section)
    (s pre post : Bytes)
    → f.is_encrypted ≡ false
    → f.sections ≡ before ++ sec ∷ after
    → is_read (reflection f.swift_reflection_strings).1 sec ≡ true
    → sec.contents ≡ some (pre ++ (s ++ post))
    → 4 ≤ length s
    → all is_printable_string_byte s ≡ true
    → HoldsAt (label_of sec) s (extract_slice_strings f arch).strings
unfolding extract_slice_strings
extract_slice_strings-HoldsAt f arch before after sec s pre post plain secs e c long p =
    rw (extract_slice_strings, plain, secs)
      (add_sections-HoldsAt (reflection f.swift_reflection_strings).1 before after sec s pre post
        (reflection f.swift_reflection_strings).0 e c long p)
