-- ===== src/Detect/Scope.antt =====
-- The platform scope of the cached patterns of morf/detect/detect.go.
use mathlib.Core.Path.{subst}
use mathlib.Core.List.{Memᴰ}
use morf.Prelude.{
  ℕ, ◌≡◌, ◌≢◌, ◌⊎◌, refl, ap, ◌∙◌, String, Bool, true, false, not, ◌&&◌, Option, none, some, List,
  [], ◌∷◌, ◌++◌, if◌then◌else◌, str_eq, eq_iff, ltb, All, arith, Bool-cases, Option-cases, inl, inr,
}
use morf.Detect.Patterns.{
  Regexps, PatternInfo, PatternCache, PatternTexts, SecretPatterns, Pattern, FileInfo, Caches,
  pattern_applies, is_enabled, load_entries, load_file, load_patterns, is_yaml, file_platform,
  build_pattern_cache, get_pattern_cache, normalize_platform, rebuilt, built, max_mod_time,
}

-- what a file declares, its case and the blanks about it left out
abbrev pub folded : PatternTexts → String → String
folded texts declared = texts.to_lower (texts.trim_space declared)

abbrev pub undeclared : PatternTexts → String → Bool
undeclared texts declared =
    not (str_eq (folded texts declared) "ios") && not (str_eq (folded texts declared) "android")

abbrev pub named : PatternTexts → String → String → Bool
named texts name prefix = texts.has_prefix (texts.to_lower name) prefix

-- The platform that a file of patterns is for: the one that it declares, else the one that its name
-- begins with, else any.
pub data FileFor (texts : PatternTexts) (name declared : String) : String → Type 0 where
  declares_ios : folded texts declared ≡ "ios" → FileFor texts name declared "ios"
  declares_android : folded texts declared ≡ "android" → FileFor texts name declared "android"
  named_ios :
      undeclared texts declared ≡ true
      → named texts name "ios-" ≡ true
      → FileFor texts name declared "ios"
  named_android :
      undeclared texts declared ≡ true
      → named texts name "ios-" ≡ false
      → named texts name "android-" ≡ true
      → FileFor texts name declared "android"
  for_any :
      undeclared texts declared ≡ true
      → named texts name "ios-" ≡ false
      → named texts name "android-" ≡ false
      → FileFor texts name declared "any"

file_platform-FileFor :
    (texts : PatternTexts) (name declared : String)
    → FileFor texts name declared (file_platform texts name declared)
unfolding file_platform normalize_platform
file_platform-FileFor texts name declared =
    elim (Bool-cases (str_eq (folded texts declared) "ios")) [
      | inl e ↦ rw e (declares_ios ((eq_iff (folded texts declared) "ios").0 e))
      | inr e ↦ elim (Bool-cases (str_eq (folded texts declared) "android")) [
        | inl k ↦ rw (e, k) (declares_android ((eq_iff (folded texts declared) "android").0 k))
        | inr k ↦
            let free : undeclared texts declared ≡ true = rw (e, k) refl in
            elim (Bool-cases (named texts name "ios-")) [
              | inl a ↦ rw (e, k, a) (named_ios free a)
              | inr a ↦ elim (Bool-cases (named texts name "android-")) [
                | inl b ↦ rw (e, k, a, b) (named_android free a b)
                | inr b ↦ rw (e, k, a, b) (for_any free a b)
              ]
            ]
      ]
    ]

module _ (regexps : Regexps) (texts : PatternTexts)
    (read_patterns : String → Option SecretPatterns) where
  -- Where a pattern of a set for a platform comes from: an enabled entry of a YAML file that is for
  -- that platform or for any.
  pub record Belongs (platform : String) (p : PatternInfo regexps) : Type 0 where
    pub file : String
    pub file_patterns : SecretPatterns
    pub entry : Pattern
    pub file_scope : String
    pub is_read : read_patterns file ≡ some file_patterns
    pub yaml : is_yaml texts file ≡ true
    pub listed : Memᴰ entry file_patterns.patterns
    pub not_disabled : entry.enabled ≢ some false
    pub same_name : p.name ≡ entry.name
    pub same_regex : p.regex ≡ entry.regex
    pub scope : FileFor texts file file_patterns.platform file_scope
    pub fits : (file_scope ≡ "any") ⊎ (file_scope ≡ platform)

  Belongs-append :
      (platform : String) (ps qs : List (PatternInfo regexps))
      → All (Belongs platform) ps
      → All (Belongs platform) qs
      → All (Belongs platform) (ps ++ qs)
  Belongs-append platform [] qs h k = k
  Belongs-append platform (p ∷ ps) qs h k = (h.0, Belongs-append platform ps qs h.1 k)

  applies-fits :
      (scope platform : String)
      → pattern_applies scope platform ≡ true
      → (scope ≡ "any") ⊎ (scope ≡ platform)
  applies-fits scope platform h = elim (Bool-cases (str_eq scope "any")) [
    | inl e ↦ inl ((eq_iff scope "any").0 e)
    | inr e ↦ inr ((eq_iff scope platform).0 (ground (arith, e, h)))
  ]

  enabled_on : (o : Option Bool) → is_enabled o ≡ true → o ≢ some false
  enabled_on none h = λ k. ground (arith, k)
  enabled_on (some b) h = λ k. cc (h, ap is_enabled k)

  module _ (platform name : String) (file : SecretPatterns) (read : read_patterns name ≡ some file)
      (yaml : is_yaml texts name ≡ true)
      (ok : pattern_applies (file_platform texts name file.platform) platform ≡ true) where
    load_entries-Belongs :
        (ps : List Pattern)
        → ((e : Pattern) → Memᴰ e ps → Memᴰ e file.patterns)
        → All
            (Belongs platform)
            (load_entries regexps (file_platform texts name file.platform) file.masvs ps)
    load_entries-Belongs [] within = tt
    load_entries-Belongs (p ∷ ps) within =
        let others = load_entries-Belongs ps (λ e m. within e (Memᴰ.tail m)) in
        elim (Bool-cases (is_enabled p.enabled)) [
          | inl e ↦ rw e (
            record {
              file = name;
              file_patterns = file;
              entry = p;
              file_scope = file_platform texts name file.platform;
              is_read = read;
              yaml = yaml;
              listed = within p (Memᴰ.head refl);
              not_disabled = enabled_on p.enabled e;
              same_name = refl;
              same_regex = refl;
              scope = file_platform-FileFor texts name file.platform;
              fits = applies-fits (file_platform texts name file.platform) platform ok;
            },
            others,
          )
          | inr e ↦ rw e others
        ]

  load_file-Belongs :
      (platform name : String) (o : Option SecretPatterns)
      → read_patterns name ≡ o
      → is_yaml texts name ≡ true
      → All (Belongs platform) (load_file regexps texts read_patterns platform name o)
  load_file-Belongs platform name none read yaml = tt
  load_file-Belongs platform name (some file) read yaml =
      elim (Bool-cases (pattern_applies (file_platform texts name file.platform) platform)) [
        | inl e ↦
            rw e (load_entries-Belongs platform name file read yaml e file.patterns (λ p m. m))
        | inr e ↦ rw e tt
      ]

  load_patterns-Belongs :
      (platform : String) (files : List FileInfo)
      → All (Belongs platform) (load_patterns regexps texts read_patterns platform files)
  unfolding load_patterns
  load_patterns-Belongs platform [] = tt
  load_patterns-Belongs platform (file ∷ rest) =
      let others = load_patterns-Belongs platform rest in
      elim (Bool-cases (is_yaml texts file.name)) [
        | inl e ↦ rw e (
            Belongs-append platform _ _
              (load_file-Belongs platform file.name (read_patterns file.name) refl e) others)
        | inr e ↦ rw e others
      ]

  -- every cached pattern belongs to the platform that it is cached for
  abbrev pub IsScoped : Caches regexps texts read_patterns → Type 0
  IsScoped caches =
      (platform : String) (c : PatternCache regexps)
      → caches platform ≡ some c
      → All (Belongs platform) c.patterns

  built-patterns :
      (ps : List (PatternInfo regexps)) (max_mod : ℕ) (c : PatternCache regexps)
      → built regexps texts read_patterns ps max_mod ≡ some c
      → ps ≡ c.patterns
  built-patterns [] max_mod c h = cc
  built-patterns (p ∷ ps) max_mod c h = ground arith

  build_pattern_cache-Belongs :
      (files : List FileInfo) (max_mod : ℕ) (platform : String) (c : PatternCache regexps)
      → build_pattern_cache regexps texts read_patterns files max_mod platform ≡ some c
      → All (Belongs platform) c.patterns
  unfolding build_pattern_cache
  build_pattern_cache-Belongs files max_mod platform c h =
      let ps = load_patterns regexps texts read_patterns platform files in
      subst (λ qs. All (Belongs platform) qs) (built-patterns ps max_mod c h)
        (load_patterns-Belongs platform files)

  some_injective : (b c : PatternCache regexps) → some b ≡ some c → b ≡ c
  some_injective b c k = cc

  fresh_or_kept :
      (scope : String) (caches : Caches regexps texts read_patterns) (b : PatternCache regexps)
      → IsScoped caches
      → All (Belongs scope) b.patterns
      → IsScoped (λ p. if str_eq scope p then some b else caches p)
  fresh_or_kept scope caches b h fits platform c k = elim (Bool-cases (str_eq scope platform)) [
    | inl e ↦
        let same : b ≡ c = some_injective b c (rw e at k) in
        rw (← (eq_iff scope platform).0 e, ← same) fits
    | inr e ↦ h platform c (rw e at k)
  ]

  rebuilt-IsScoped :
      (files : List FileInfo) (max_mod : ℕ) (scope : String)
      (caches : Caches regexps texts read_patterns)
      → IsScoped caches
      → let r = rebuilt regexps texts read_patterns files max_mod scope caches in
        IsScoped r.1 × ((c : PatternCache regexps) → r.0 ≡ some c → All (Belongs scope) c.patterns)
  rebuilt-IsScoped files max_mod scope caches h =
      elim (Option-cases (build_pattern_cache regexps texts read_patterns files max_mod scope)) [
        | inl e ↦ rw e (h, λ c k. absurd (ground (arith, k)))
        | inr (b, e) ↦
            let fits : All (Belongs scope) b.patterns =
              build_pattern_cache-Belongs files max_mod scope b e in
            rw e (
              λ platform c k. fresh_or_kept scope caches b h fits platform c k,
              λ c k.
                  subst (λ (x : PatternCache regexps). All (Belongs scope) x.patterns)
                    (some_injective b c k) fits,
            )
      ]

  -- Getting the patterns of a platform keeps the caches scoped, and each pattern that is returned is
  -- that of an enabled entry of a YAML file which is for this platform or for any. A file is for the
  -- platform that it declares, else for the one that its name begins with: a pattern of an iOS file
  -- is never in the set of an Android scan, nor the reverse.
  pub get_pattern_cache-IsScoped :
      (files : List FileInfo) (platform : String) (caches : Caches regexps texts read_patterns)
      → IsScoped caches
      → let r = get_pattern_cache regexps texts read_patterns files platform caches in
        IsScoped r.1
        × ((c : PatternCache regexps)
            → r.0 ≡ some c
            → All (Belongs (normalize_platform texts platform)) c.patterns)
  unfolding get_pattern_cache
  get_pattern_cache-IsScoped files platform caches h =
      let scope = normalize_platform texts platform in
      let max_mod = max_mod_time regexps texts read_patterns files 0 in
      elim (Option-cases (caches scope)) [
        | inl e ↦ rw (get_pattern_cache, e) (rebuilt-IsScoped files max_mod scope caches h)
        | inr (b, e) ↦ elim (Bool-cases (ltb b.built_from max_mod)) [
          | inl t ↦ rw (get_pattern_cache, e, t) (rebuilt-IsScoped files max_mod scope caches h)
          | inr t ↦ rw (get_pattern_cache, e, t) (h, λ c k. h scope c (e ∙ k))
        ]
      ]
