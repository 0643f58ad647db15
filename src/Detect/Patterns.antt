-- ===== src/Detect/Patterns.antt =====
-- morf/detect/detect.go: the patterns of a scan, from their files to the cached set and its combined
-- expression. Package regexp, the YAML files and the text functions are arguments; a time is a
-- natural number.
use Prim.Native.String
use morf.Prelude.{
  ℕ, zero, suc, String, Bool, true, false, not, ◌||◌, Option, none, some, List, [], ◌∷◌, ◌++◌,
  if◌then◌else◌, str_eq, ltb,
}

-- The bounds of a group, with none for a group that took no part in the match.
abbrev pub Group : Type 0
Group = Option (ℕ × ℕ)

pub record Regexps : Type 1 where
  pub Regex : Type 0
  pub compile : String → Option Regex
  pub num_subexp : Regex → ℕ
  pub match_string : Regex → String → Bool
  -- group 0, the whole match, is first
  pub find_string_submatch_index : Regex → String → Option (List Group)
  pub find_all_string_submatch_index : Regex → String → List (List Group)
  pub find_all_string : Regex → String → List String

pub record PatternTexts : Type 0 where
  pub to_lower : String → String
  pub trim_space : String → String
  pub has_prefix : String → String → Bool
  pub has_suffix : String → String → Bool

-- a pattern as its file has it
pub record Pattern : Type 0 where
  pub name : String
  pub regex : String
  pub confidence : String
  pub masvs : String
  pub enabled : Option Bool

pub record SecretPatterns : Type 0 where
  pub platform : String
  pub masvs : String
  pub patterns : List Pattern

pub record FileInfo : Type 0 where
  pub name : String
  pub mod_time : ℕ

abbrev pub repeat : {A : Type 0} → ℕ → A → List A
repeat zero x = []
repeat (suc n) x = x ∷ repeat n x

module _ (texts : PatternTexts) where
  open texts use {to_lower, trim_space, has_prefix, has_suffix}

  unfoldable pub normalize_platform : String → String
  normalize_platform s =
      let folded = to_lower (trim_space s) in
      if str_eq folded "ios" then "ios" else if str_eq folded "android" then "android" else "any"

  unfoldable pub file_platform : String → String → String
  unfolding normalize_platform
  file_platform file_name declared =
      let p = normalize_platform declared in
      let lower = to_lower file_name in
      if not (str_eq p "any")
      then p
      else if has_prefix lower "ios-"
      then "ios"
      else if has_prefix lower "android-"
      then "android"
      else "any"

  abbrev pub is_yaml : String → Bool
  is_yaml name = has_suffix name ".yaml" || has_suffix name ".yml"

abbrev pub pattern_applies : String → String → Bool
pattern_applies pattern_platform scan_platform =
    str_eq pattern_platform "any" || str_eq pattern_platform scan_platform

abbrev pub is_enabled : Option Bool → Bool
is_enabled none = true
is_enabled (some b) = b

module _ (regexps : Regexps) where
  open regexps use {Regex, compile, num_subexp}

  pub record PatternInfo : Type 0 where
    pub name : String
    pub regex : String
    pub confidence : String
    pub platform : String
    pub masvs : String
    pub compiled : Option Regex

  abbrev pub pattern_info : String → String → Pattern → PatternInfo
  pattern_info platform file_masvs p = record {
    name = p.name;
    regex = p.regex;
    confidence = p.confidence;
    platform = platform;
    masvs = if str_eq p.masvs "" then file_masvs else p.masvs;
    compiled = compile p.regex;
  }

  abbrev pub load_entries : String → String → List Pattern → List PatternInfo
  load_entries platform file_masvs [] = []
  load_entries platform file_masvs (p ∷ rest) =
      if is_enabled p.enabled
      then pattern_info platform file_masvs p ∷ load_entries platform file_masvs rest
      else load_entries platform file_masvs rest

  -- what `BuildCombinedRegex` has written
  pub record Union : Type 0 where
    pub body : String
    pub wrote : Bool
    pub groups : List (Option ℕ)

  abbrev pub add_alternative : ℕ → String → Regex → Union → Union
  add_alternative i regex compiled u = record {
    body =
        String.◌++◌ (if u.wrote then String.◌++◌ u.body "|" else u.body)
          (String.◌++◌ "(" (String.◌++◌ regex ")"));
    wrote = true;
    groups = u.groups ++ repeat (suc (num_subexp compiled)) (some i);
  }

  abbrev pub union_loop : ℕ → List PatternInfo → Union → Union
  union_loop i [] u = u
  union_loop i (p ∷ rest) u =
      union_loop (suc i) rest
        (elim p.compiled [ none ↦ u | some compiled ↦ add_alternative i p.regex compiled u ])

  abbrev pub no_union : Union
  no_union = record { body = ""; wrote = false; groups = none ∷ [] }

  abbrev pub kept_groups : Option Regex → List (Option ℕ) → Option Regex × List (Option ℕ)
  kept_groups none groups = (none, [])
  kept_groups (some combined) groups = (some combined, groups)

  -- the map from groups to patterns has none where the source has -1
  unfoldable pub build_combined_regex : List PatternInfo → Option Regex × List (Option ℕ)
  build_combined_regex patterns =
      let u = union_loop 0 patterns no_union in
      if u.wrote then kept_groups (compile u.body) u.groups else (none, [])

  pub record PatternCache : Type 0 where
    pub patterns : List PatternInfo
    pub combined : Option Regex
    pub group_to_pattern : List (Option ℕ)
    pub patterns_txt : String
    pub built_from : ℕ

  abbrev pub patterns_body : List PatternInfo → String
  patterns_body [] = ""
  patterns_body (p ∷ rest) = String.◌++◌ p.regex (String.◌++◌ "\n" (patterns_body rest))

  module _ (texts : PatternTexts) (read_patterns : String → Option SecretPatterns) where
    abbrev pub load_file : String → String → Option SecretPatterns → List PatternInfo
    load_file platform name none = []
    load_file platform name (some file) =
        let fp = file_platform texts name file.platform in
        if pattern_applies fp platform then load_entries fp file.masvs file.patterns else []

    unfoldable pub load_patterns : String → List FileInfo → List PatternInfo
    unfolding file_platform
    load_patterns platform [] = []
    load_patterns platform (file ∷ rest) =
        (if is_yaml texts file.name
          then load_file platform file.name (read_patterns file.name)
          else [])
        ++ load_patterns platform rest

    abbrev pub cache_of : List PatternInfo → ℕ → PatternCache
    cache_of patterns max_mod =
        let (combined, groups) = build_combined_regex patterns in
        record {
          patterns = patterns;
          combined = combined;
          group_to_pattern = groups;
          patterns_txt = patterns_body patterns;
          built_from = max_mod;
        }

    abbrev pub built : List PatternInfo → ℕ → Option PatternCache
    built [] max_mod = none
    built (p ∷ rest) max_mod = some (cache_of (p ∷ rest) max_mod)

    unfoldable pub build_pattern_cache : List FileInfo → ℕ → String → Option PatternCache
    unfolding load_patterns build_combined_regex
    build_pattern_cache files max_mod platform = built (load_patterns platform files) max_mod

    abbrev pub max_mod_time : List FileInfo → ℕ → ℕ
    max_mod_time [] max_mod = max_mod
    max_mod_time (f ∷ rest) max_mod =
        max_mod_time rest (if ltb max_mod f.mod_time then f.mod_time else max_mod)

    -- the caches by platform
    abbrev pub Caches : Type 0
    Caches = String → Option PatternCache

    abbrev stored : String → Caches → Option PatternCache → Option PatternCache × Caches
    stored platform caches none = (none, caches)
    stored platform caches (some c) = (some c, λ p. if str_eq platform p then some c else caches p)

    abbrev pub rebuilt : List FileInfo → ℕ → String → Caches → Option PatternCache × Caches
    rebuilt files max_mod platform caches =
        stored platform caches (build_pattern_cache files max_mod platform)

    abbrev pub current :
        List FileInfo → ℕ → String → Caches → Option PatternCache → Option PatternCache × Caches
    current files max_mod platform caches none = rebuilt files max_mod platform caches
    current files max_mod platform caches (some c) =
        if not (ltb c.built_from max_mod)
        then (some c, caches)
        else rebuilt files max_mod platform caches

    -- One caller under the locks: the second look at the cache repeats the first.
    unfoldable pub get_pattern_cache :
        List FileInfo → String → Caches → Option PatternCache × Caches
    unfolding normalize_platform build_pattern_cache
    get_pattern_cache files platform caches =
        let scope = normalize_platform texts platform in
        current files (max_mod_time files 0) scope caches (caches scope)
