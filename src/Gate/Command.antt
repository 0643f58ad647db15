-- ===== src/Gate/Command.antt =====
-- morf/cmd/gate.go: `splitComma`, `loadBaselineOrEmpty` and the command `morf gate allow`, with
-- `scanFailOn` of morf/cmd/scan.go. The functions of package strings are arguments.
use morf.Prelude.{
  ℕ, ◌+◌, String, Bool, not, ◌&&◌, ◌||◌, Option, none, some, List, [], ◌∷◌, ◌++◌, if◌then◌else◌,
  str_eq, ltb, length,
}
use morf.Gate.{
  Baseline, new_baseline, has, allow, allow_type, fail_on_new_verified, fail_on_new_any,
  fail_on_tier_keep, never_fail,
}
use morf.Gate.Files.{Files, load_baseline, save}

pub record Strings : Type 0 where
  pub trim_space : String → String
  pub to_lower : String → String
  pub split : String → String → List String
  pub print_int : ℕ → String

pub record AllowOptions : Type 0 where
  pub baseline : String
  pub fingerprints : List String
  pub types : List String

abbrev known_policy : String → Option String
known_policy s =
    if str_eq s "" || str_eq s "verified"
    then some fail_on_new_verified
    else if str_eq s "any"
    then some fail_on_new_any
    else if str_eq s "keep"
    then some fail_on_tier_keep
    else if str_eq s "none"
    then some never_fail
    else none

-- the second result counts the entries that were not there
abbrev pub allow_loop : List String → Baseline → ℕ → Baseline × ℕ
allow_loop [] b added = (b, added)
allow_loop (fp ∷ rest) b added =
    let b' = allow fp b in
    allow_loop rest b' (
      if ltb (length b.allowed_fingerprints) (length b'.allowed_fingerprints)
      then added + 1
      else added)

abbrev pub allow_type_loop : List String → Baseline → ℕ → Baseline × ℕ
allow_type_loop [] b added = (b, added)
allow_type_loop (secret_type ∷ rest) b added =
    let b' = allow_type secret_type b in
    allow_type_loop rest b'
      (if ltb (length b.allowed_types) (length b'.allowed_types) then added + 1 else added)

module _ (strings : Strings) (files : Files) where
  unfoldable pub scan_fail_on : String → Option String
  scan_fail_on fail_on = known_policy (strings.to_lower (strings.trim_space fail_on))

  -- `seen` has the tokens of `out`
  abbrev split_tokens : List String → List String → List String
  split_tokens [] out = out
  split_tokens (tok ∷ toks) out =
      let tok' = strings.trim_space tok in
      split_tokens toks (if str_eq tok' "" || has out tok' then out else out ++ tok' ∷ [])

  abbrev split_loop : List String → List String → List String
  split_loop [] out = out
  split_loop (s ∷ rest) out = split_loop rest (split_tokens (strings.split s ",") out)

  unfoldable pub split_comma : List String → List String
  split_comma input = split_loop input []

  unfoldable pub load_baseline_or_empty : String → files.Disk → Option Baseline
  unfolding load_baseline
  load_baseline_or_empty path d =
      if str_eq (strings.trim_space path) ""
      then some new_baseline
      else if files.is_not_exist path d
      then some new_baseline
      else load_baseline files path d

  abbrev pub empty : List String → Bool
  empty xs = not (ltb 0 (length xs))

  -- the entries added, the fingerprints and the types of the closing message, or none on an error
  abbrev allow_saved : ℕ × ℕ × ℕ → Bool × files.Disk → Option (ℕ × ℕ × ℕ) × files.Disk
  allow_saved counts r = (if r.0 then some counts else none, r.1)

  abbrev pub allow_all : List String → List String → Baseline → Baseline × ℕ
  allow_all fps typs base =
      let with_fps = allow_loop fps base 0 in allow_type_loop typs with_fps.0 with_fps.1

  abbrev pub allow_loaded :
      String
      → List String
      → List String
      → Option Baseline
      → files.Disk
      → Option (ℕ × ℕ × ℕ) × files.Disk
  allow_loaded path fps typs none d = (none, d)
  allow_loaded path fps typs (some base) d =
      let updated = allow_all fps typs base in
      allow_saved (updated.1, length fps, length typs) (save files path updated.0 d)

  unfoldable pub run_gate_allow : AllowOptions → files.Disk → Option (ℕ × ℕ × ℕ) × files.Disk
  unfolding split_comma load_baseline_or_empty save
  run_gate_allow opts d =
      let fps = split_comma opts.fingerprints in
      let typs = split_comma opts.types in
      if str_eq (strings.trim_space opts.baseline) ""
      then (none, d)
      else if empty fps && empty typs
      then (none, d)
      else allow_loaded opts.baseline fps typs (load_baseline_or_empty opts.baseline d) d
