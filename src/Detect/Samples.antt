-- ===== src/Detect/Samples.antt =====
-- The theorems on the patterns and the scan of morf/detect/detect.go at two patterns and a line.
use morf.Prelude.{
  ℕ, arith, if◌then◌else◌, ◌≡◌, refl, String, true, false, Option, none, some, List, [], ◌∷◌,
  str_eq, All,
}
use morf.Finding.{SecretModel}
use morf.Detect.Patterns.{
  Regexps, Group, PatternInfo, PatternCache, PatternTexts, SecretPatterns, FileInfo, Caches,
  build_combined_regex, get_pattern_cache, normalize_platform, cache_of, load_patterns,
}
use morf.Detect.Lines.{LineTexts, extract_secret, findings_for_line}
use morf.Detect.Owner.{left_out, earlier, chosen}
use morf.Detect.Recall.{Matches, no_more, match, cache, findings_for_line-attributes}
use morf.Detect.Scope.{Belongs, IsScoped, get_pattern_cache-IsScoped}
use morf.Detect.Corpus.{Tools, ScanOptions, written}
use morf.Detect.Hits.{lines_of, all_findings}

abbrev no_score : ℕ
no_score = 0

abbrev union : String
union = "(A+)|(B+)"

-- every text but "(?=x)" compiles, and the union finds the second alternative at the bytes 0 to 4
abbrev matches : List (List Group)
matches = (some (0, 4) ∷ none ∷ some (0, 4) ∷ []) ∷ []

abbrev regexps : Regexps
regexps = record {
  Regex = String;
  compile = λ s. if str_eq s "(?=x)" then none else some s;
  num_subexp = λ r. 0;
  match_string = λ r s. true;
  find_string_submatch_index = λ r s. some (some (0, 4) ∷ none ∷ some (0, 4) ∷ []);
  find_all_string_submatch_index = λ r s. matches;
  find_all_string = λ r s. s ∷ [];
}

abbrev pattern : String → String → PatternInfo regexps
pattern name regex = record {
  name = name;
  regex = regex;
  confidence = "high";
  platform = "any";
  masvs = "";
  compiled = if str_eq regex "(?=x)" then none else some regex;
}

abbrev patterns : List (PatternInfo regexps)
patterns = pattern "a" "A+" ∷ pattern "look" "(?=x)" ∷ pattern "b" "B+" ∷ []

abbrev line_texts : LineTexts
line_texts = record {
  trim_space = λ s. s;
  contains = λ s t. false;
  index = λ s t. none;
  last_index = λ s t. none;
  count = λ s t. 0;
  split_n = λ s t n. "a.xml" ∷ "3" ∷ s ∷ [];
}

abbrev pattern_texts : PatternTexts
pattern_texts = record {
  to_lower = λ s. s;
  trim_space = λ s. s;
  has_prefix = λ s p. false;
  has_suffix = λ s p. true;
}

abbrev read_patterns : String → Option SecretPatterns
read_patterns name = some (record {
  platform = name;
  masvs = "";
  patterns =
      record { name = "b"; regex = "B+"; confidence = "high"; masvs = ""; enabled = none } ∷ [];
})

compiles : (build_combined_regex regexps patterns).0 ≡ some union
unfolding build_combined_regex
compiles = refl

located : Matches regexps patterns matches ((0, 4, pattern "b" "B+") ∷ [])
located =
    match 0 4 2 (none ∷ some (0, 4) ∷ []) (pattern "b" "B+") (omega arith)
      (earlier (pattern "a" "A+") "A+" refl
        (left_out (pattern "look" "(?=x)") refl (chosen (pattern "b" "B+") "B+" (0, 4) [] refl)))
      refl no_more

findings_for_line-attributes_example :
    findings_for_line regexps line_texts no_score "a.xml" 3
      (cache regexps line_texts no_score "a.xml" 3 pattern_texts read_patterns 7 "BBBB" patterns)
      "BBBB"
    ≡ record {
      type = "b";
      line_no = 3;
      file_location = "a.xml";
      secret_type = "b";
      secret_string = "BBBB";
      secret_confidence = "high";
      score = no_score;
      tier = "";
      verification_status = "";
      masvs_id = "";
    }
      ∷ []
unfolding extract_secret
findings_for_line-attributes_example =
    findings_for_line-attributes regexps line_texts no_score "a.xml" 3 pattern_texts read_patterns 7
      "BBBB" patterns union (0, 4, pattern "b" "B+") [] compiles located

abbrev files : List FileInfo
files = record { name = "any"; mod_time = 5 } ∷ record { name = "ios"; mod_time = 9 } ∷ []

abbrev no_caches : Caches regexps pattern_texts read_patterns
no_caches platform = none

get_pattern_cache-IsScoped_example :
    let r = get_pattern_cache regexps pattern_texts read_patterns files "android" no_caches in
    IsScoped regexps pattern_texts read_patterns r.1
    × ((c : PatternCache regexps)
        → r.0 ≡ some c
        → All
            (Belongs regexps pattern_texts read_patterns
              (normalize_platform pattern_texts "android"))
            c.patterns)
get_pattern_cache-IsScoped_example =
    get_pattern_cache-IsScoped regexps pattern_texts read_patterns files "android" no_caches
      (λ platform c h. cc)

abbrev tools : Tools
tools = record {
  is_dir = λ d. str_eq d "src";
  pattern_file = λ body. written "/tmp/patterns";
  rg = λ args. record {
    pipe_opens = true;
    starts = true;
    fragments = (66 ∷ 66 ∷ 66 ∷ 66 ∷ [], false) ∷ [];
    read_fails = false;
    wait = none;
    context = none;
  };
  to_string = λ b. "BBBB";
  atoi = λ s. some 3;
  print_int = λ n. "50";
}

abbrev text_pass : ScanOptions
text_pass = record { text = false; extra_excludes = []; max_file_size_mb = 0 }

abbrev loaded_cache : PatternCache regexps
loaded_cache =
    cache_of regexps pattern_texts read_patterns
      (load_patterns regexps pattern_texts read_patterns "android" files) 9

abbrev reports : List (SecretModel ℕ)
reports = all_findings tools line_texts regexps no_score loaded_cache (lines_of (tools.rg []))
