-- ===== src/Detect/Recall.antt =====
-- What `FindingsForLine` of morf/detect/detect.go reports for the matches on a line.
use Prim.Native.String.{slice}
use morf.Prelude.{
  ℕ, ◌≤◌, ◌≡◌, refl, ap, String, false, Option, some, List, [], ◌∷◌, map, if◌then◌else◌, str_eq,
  ltb, arith, Bool-cases, Option-cases, inl, inr,
}
use morf.Finding.{SecretModel}
use morf.Detect.Patterns.{
  Regexps, Group, PatternInfo, PatternCache, PatternTexts, SecretPatterns, cache_of, union_loop,
  no_union, build_combined_regex,
}
use morf.Detect.Lines.{
  LineTexts, owner_of, findings_for_line, get_elem?, add_matches, never_dropped, extract_secret,
}
use morf.Detect.Owner.{Alternation, owner-Alternation}

module _ (regexps : Regexps) where
  -- the matches that package regexp lists, with their bounds and the pattern whose alternative matched
  pub data Matches (ps : List (PatternInfo regexps))
      : List (List Group) → List (ℕ × ℕ × PatternInfo regexps) → Type 0 where
    no_more : Matches ps [] []
    match :
        {locs : List (List Group)} {hits : List (ℕ × ℕ × PatternInfo regexps)} (begin end k : ℕ)
        (groups : List Group) (p : PatternInfo regexps)
        → begin ≤ end
        → Alternation regexps ps 0 k groups
        → get_elem? ps k ≡ some p
        → Matches ps locs hits
        → Matches ps ((some (begin, end) ∷ groups) ∷ locs) ((begin, end, p) ∷ hits)

  build_combined_regex-groups :
      (ps : List (PatternInfo regexps)) (r : regexps.Regex)
      → (build_combined_regex regexps ps).0 ≡ some r
      → (build_combined_regex regexps ps).1 ≡ (union_loop regexps 0 ps (no_union regexps)).groups
  unfolding build_combined_regex
  build_combined_regex-groups ps r e =
      let u = union_loop regexps 0 ps (no_union regexps) in
      elim (Bool-cases u.wrote) [
        | inr w ↦ absurd (ground (arith, w, e))
        | inl w ↦ elim (Option-cases (regexps.compile u.body)) [
          | inl n ↦ absurd (ground (arith, w, n, e))
          | inr (c, n) ↦ rw (w, n) refl
        ]
      ]

  module _ {F : Type 0} (texts : LineTexts) (no_score : F) (file_location : String) (line_no : ℕ)
      (pattern_texts : PatternTexts) (read_patterns : String → Option SecretPatterns) (max_mod : ℕ)
      (content : String) where
    abbrev pub cache : List (PatternInfo regexps) → PatternCache regexps
    cache ps = cache_of regexps pattern_texts read_patterns ps max_mod

    -- the text that matched, without the key and the quotes about it unless nothing else is there
    abbrev pub secret_in : String → String
    secret_in span =
        if str_eq (texts.trim_space (extract_secret texts span)) ""
        then span
        else extract_secret texts span

    abbrev pub reported : ℕ × ℕ × PatternInfo regexps → SecretModel F
    reported (begin, end, p) = record {
      type = p.name;
      line_no = line_no;
      file_location = file_location;
      secret_type = p.name;
      secret_string = secret_in (slice content begin end);
      secret_confidence = p.confidence;
      score = no_score;
      tier = "";
      verification_status = "";
      masvs_id = p.masvs;
    }

    add_matches-reported :
        (ps : List (PatternInfo regexps)) (r : regexps.Regex) {locs : List (List Group)}
        {hits : List (ℕ × ℕ × PatternInfo regexps)}
        → (build_combined_regex regexps ps).0 ≡ some r
        → Matches ps locs hits
        → add_matches regexps texts no_score file_location line_no (cache ps) content locs
          ≡ map reported hits
    add_matches-reported ps r e no_more = refl
    add_matches-reported ps r e (match {locs} {hits} begin end k groups p h a at ms) =
        let in_order : ltb end begin ≡ false = ground arith in
        let owns : owner_of regexps (cache ps) (some (begin, end) ∷ groups) ≡ some k =
          rw (build_combined_regex-groups ps r e) (owner-Alternation regexps ps k groups a) in
        rw (in_order, owns, at)
          (ap (λ rest. reported (begin, end, p) ∷ rest) (add_matches-reported ps r e ms))

    -- When the union of the patterns compiles and matches the line somewhere, the findings are one for
    -- each match, in order. The type, the confidence and the MASVS control are those of the pattern that
    -- matched there; the value is extracted from exactly the text that was matched, and is that text
    -- where nothing but blanks would be left; the place is that of the line.
    pub findings_for_line-attributes :
        (ps : List (PatternInfo regexps)) (r : regexps.Regex) (hit : ℕ × ℕ × PatternInfo regexps)
        (hits : List (ℕ × ℕ × PatternInfo regexps))
        → (build_combined_regex regexps ps).0 ≡ some r
        → Matches ps (regexps.find_all_string_submatch_index r content) (hit ∷ hits)
        → findings_for_line regexps texts no_score file_location line_no (cache ps) content
          ≡ map reported (hit ∷ hits)
    unfolding findings_for_line
    findings_for_line-attributes ps r hit hits e ms =
        rw (findings_for_line, e)
          (ap (never_dropped regexps texts no_score file_location line_no (cache ps) content)
            (add_matches-reported ps r e ms))
