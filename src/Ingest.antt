-- ===== src/Ingest.antt =====
-- morf/ingest: how a reference becomes a local file. Address decides which addresses may be connected
-- to, Download is the capped copy, Https the adapter for URLs, and this file the choice of an adapter
-- in adapter.go and the adapter for local paths in file.go.
pub mod Address
pub mod Download
pub mod Https
pub mod Capped
pub mod Vetted
pub mod Leaves
mod Tests
use morf.Prelude.{
  ℕ, zero, suc, String, Bool, true, false, not, ◌&&◌, ◌||◌, Option, none, some, List, [], ◌∷◌,
  if◌then◌else◌, str_eq, leb, ltb, ◌==◌,
}

abbrev pub file_scheme : String
file_scheme = "file"

pub record SchemeTexts : Type 0 where
  pub trim_space : String → String
  pub to_lower : String → String
  pub trim_prefix : String → String → String
  pub has_suffix : String → String → Bool
  -- the text before the first "://", where that is not at the start
  pub before_colon : String → Option String
  pub runes : String → List ℕ

abbrev is_letter : ℕ → Bool
is_letter c = (leb b'a' c && leb c b'z') || (leb b'A' c && leb c b'Z')

abbrev is_later : ℕ → Bool
is_later c = (leb b'0' c && leb c b'9') || c == b'+' || c == b'-' || c == b'.'

abbrev scheme_rest : List ℕ → Bool
scheme_rest [] = true
scheme_rest (c ∷ rest) = (is_letter c || is_later c) && scheme_rest rest

abbrev pub is_scheme_token : List ℕ → Bool
is_scheme_token [] = false
is_scheme_token (c ∷ rest) = is_letter c && scheme_rest rest

module _ (texts : SchemeTexts) where
  open texts use {trim_space, to_lower, trim_prefix, has_suffix, before_colon, runes}

  abbrev pub normalize_scheme : String → String
  normalize_scheme scheme = to_lower (trim_space scheme)

  abbrev token_scheme : Option String → String
  token_scheme none = file_scheme
  token_scheme (some scheme) =
      if is_scheme_token (runes scheme) then normalize_scheme scheme else file_scheme

  unfoldable pub scheme_of : String → String
  scheme_of ref = token_scheme (before_colon (trim_space ref))

  abbrev has_token : Option String → Bool
  has_token none = false
  has_token (some scheme) = is_scheme_token (runes scheme)

  -- `is_dir` is what `os.Stat` says of a path that exists
  unfoldable pub file_fetch : (String → Option Bool) → String → Option String
  file_fetch is_dir ref =
      let trimmed = trim_space ref in
      let path =
        if has_token (before_colon trimmed) then trim_prefix trimmed "file://" else trimmed in
      let lower = to_lower path in
      if str_eq path "" then none else elim (is_dir path) [
        | none ↦ none
        | some true ↦ none
        | some false ↦
            if not (has_suffix lower ".apk") && not (has_suffix lower ".ipa")
            then none
            else some path
      ]

  -- the adapters by their normalised schemes; registering one twice is a panic, here none
  abbrev pub registered : {A : Type 0} → String → List (String × A) → Option A
  registered scheme [] = none
  registered scheme ((s, adapter) ∷ rest) =
      if str_eq s scheme then some adapter else registered scheme rest

  unfoldable pub register :
      {A : Type 0} → String → A → List (String × A) → Option (List (String × A))
  register scheme adapter registry =
      let s = normalize_scheme scheme in
      if str_eq s "" then none else elim (registered s registry) [
        | none ↦ some ((s, adapter) ∷ registry)
        | some other ↦ none
      ]

  unfoldable pub get : {A : Type 0} → String → List (String × A) → Option A
  unfolding scheme_of
  get ref registry = registered (scheme_of ref) registry
