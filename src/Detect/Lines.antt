-- ===== src/Detect/Lines.antt =====
-- morf/detect/detect.go: which pattern a line belongs to and which values it holds,
-- `FindMatchingPattern`, `ExtractSecret` and `FindingsForLine`. The searches of package strings are
-- arguments.
use Prim.Native.String.{slice, len}
use morf.Prelude.{
  ℕ, zero, suc, ◌+◌, String, Bool, true, false, ◌&&◌, Option, none, some, List, [], ◌∷◌, ◌++◌, map,
  if◌then◌else◌, str_eq, ltb, leb, length,
}
use morf.Finding.{SecretModel}
use morf.Detect.Patterns.{Regexps, Group, PatternInfo, PatternCache}

pub record LineTexts : Type 0 where
  pub trim_space : String → String
  pub contains : String → String → Bool
  pub index : String → String → Option ℕ
  pub last_index : String → String → Option ℕ
  pub count : String → String → ℕ
  pub split_n : String → String → ℕ → List String

module _ (texts : LineTexts) where
  open texts use {trim_space, contains, index, last_index, count, split_n}

  abbrev after_colon : String → Option ℕ → String
  after_colon content none = content
  after_colon content (some i) = trim_space (slice content (i + 1) (len content))

  abbrev second_part : String → List String → String
  second_part content (a ∷ b ∷ rest) = b
  second_part content parts = after_colon content (last_index content ":")

  abbrev quoted : String → String
  quoted content =
      if leb 2 (count content "\"")
      then second_part content (split_n content "\"" 3)
      else after_colon content (last_index content ":")

  abbrev between_tags : String → Option ℕ → Option ℕ → String
  between_tags content (some begin) (some end) =
      if ltb (begin + 1) end then trim_space (slice content (begin + 1) end) else quoted content
  between_tags content begin end = quoted content

  unfoldable pub extract_secret : String → String
  extract_secret content =
      if contains content ">" && contains content "<"
      then between_tags content (index content ">") (last_index content "<")
      else quoted content

-- The first group that took part and that the map attributes, `g` running along both lists.
abbrev pub owner : ℕ → List Group → List (Option ℕ) → Option ℕ
owner patterns (some span ∷ groups) (some pi ∷ owners) =
    if ltb pi patterns then some pi else owner patterns groups owners
owner patterns (some span ∷ groups) (none ∷ owners) = owner patterns groups owners
owner patterns (none ∷ groups) (o ∷ owners) = owner patterns groups owners
owner patterns groups [] = none
owner patterns [] owners = none

abbrev pub tail {ℓ} : {A : Type ℓ} → List A → List A
tail [] = []
tail (x ∷ xs) = xs

abbrev pub get_elem? {ℓ} : {A : Type ℓ} → List A → ℕ → Option A
get_elem? [] i = none
get_elem? (x ∷ xs) zero = some x
get_elem? (x ∷ xs) (suc i) = get_elem? xs i

module _ (regexps : Regexps) where
  abbrev pub owner_of : PatternCache regexps → List Group → Option ℕ
  owner_of c loc = owner (length c.patterns) (tail loc) (tail c.group_to_pattern)

  abbrev is_none : Option regexps.Regex → Bool
  is_none none = true
  is_none (some r) = false

  -- the first pattern that package regexp cannot compile
  abbrev pub first_uncompiled : ℕ → List (PatternInfo regexps) → Option ℕ
  first_uncompiled i [] = none
  first_uncompiled i (p ∷ rest) =
      if is_none p.compiled then some i else first_uncompiled (suc i) rest

  abbrev compiled_matches : String → Option regexps.Regex → Bool
  compiled_matches content none = false
  compiled_matches content (some r) = regexps.match_string r content

  abbrev first_matching : String → ℕ → List (PatternInfo regexps) → Option ℕ
  first_matching content i [] = none
  first_matching content i (p ∷ rest) =
      if compiled_matches content p.compiled then some i else first_matching content (suc i) rest

  abbrev or_else : Option ℕ → Option ℕ → Option ℕ
  or_else none y = y
  or_else (some x) y = some x

  abbrev owner_of_match : PatternCache regexps → Option (List Group) → Option ℕ
  owner_of_match c none = none
  owner_of_match c (some loc) = owner_of c loc

  abbrev attributed : PatternCache regexps → String → Option regexps.Regex → Option ℕ
  attributed c content none = first_matching content 0 c.patterns
  attributed c content (some combined) =
      owner_of_match c (regexps.find_string_submatch_index combined content)

  -- the index of the pattern that the source returns a pointer to
  unfoldable pub find_matching_pattern : PatternCache regexps → String → Option ℕ
  find_matching_pattern c content =
      or_else (attributed c content c.combined) (first_uncompiled 0 c.patterns)

  module _ {F : Type 0} (texts : LineTexts) (no_score : F) (file_location : String)
      (line_no : ℕ) where
    abbrev pub value_of : String → String
    value_of span =
        let value = extract_secret texts span in
        if str_eq (texts.trim_space value) "" then span else value

    abbrev pub finding : String → String → String → String → SecretModel F
    finding secret_type confidence masvs_id span = record {
      type = secret_type;
      line_no = line_no;
      file_location = file_location;
      secret_type = secret_type;
      secret_string = value_of span;
      secret_confidence = confidence;
      score = no_score;
      tier = "";
      verification_status = "";
      masvs_id = masvs_id;
    }

    abbrev pub found : Option (PatternInfo regexps) → String → SecretModel F
    found none span = finding "unattributed" "low" "" span
    found (some p) span = finding p.name p.confidence p.masvs span

    abbrev pub pattern_at : PatternCache regexps → Option ℕ → Option (PatternInfo regexps)
    pattern_at c none = none
    pattern_at c (some pi) = get_elem? c.patterns pi

    abbrev pub add_match : PatternCache regexps → String → List Group → List (SecretModel F)
    add_match c content (some (begin, end) ∷ groups) =
        if ltb end begin
        then []
        else found (pattern_at c (owner_of c (some (begin, end) ∷ groups)))
            (slice content begin end)
          ∷ []
    add_match c content groups = []

    abbrev pub add_matches :
        PatternCache regexps → String → List (List Group) → List (SecretModel F)
    add_matches c content [] = []
    add_matches c content (loc ∷ rest) = add_match c content loc ++ add_matches c content rest

    abbrev spans_of : String → Option regexps.Regex → List String
    spans_of content none = []
    spans_of content (some r) = regexps.find_all_string r content

    abbrev add_spans : String → List (PatternInfo regexps) → List (SecretModel F)
    add_spans content [] = []
    add_spans content (p ∷ rest) =
        map (found (some p)) (spans_of content p.compiled) ++ add_spans content rest

    abbrev pub matched : PatternCache regexps → String → Option regexps.Regex → List (SecretModel F)
    matched c content none = add_spans content c.patterns
    matched c content (some combined) =
        add_matches c content (regexps.find_all_string_submatch_index combined content)

    abbrev pub never_dropped :
        PatternCache regexps → String → List (SecretModel F) → List (SecretModel F)
    never_dropped c content [] = found (pattern_at c (first_uncompiled 0 c.patterns)) content ∷ []
    never_dropped c content (s ∷ out) = s ∷ out

    unfoldable pub findings_for_line : PatternCache regexps → String → List (SecretModel F)
    unfolding extract_secret
    findings_for_line c content = never_dropped c content (matched c content c.combined)
