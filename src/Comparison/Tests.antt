-- ===== src/Comparison/Tests.antt =====
-- The theorem on morf/utils/comparison.go at two concrete results.
use morf.Prelude.{
  ◌≡◌, refl, String, false, none, some, List, [], ◌∷◌, str_eq, if◌then◌else◌, length,
}
use morf.Job.{ScanJob, empty_job}
use morf.Job.Plain.{plain}
use morf.Comparison.{
  Json, ComparisonResult, compared, compare_scans, extract_secrets, get_secret_key,
}
use morf.Comparison.Keys.{same_secret}
use morf.Comparison.Difference.{compare_scans-exact}

-- The values are names: of the two results, of the secrets in them, and of a secret with a "|".
abbrev value_of : String → String
value_of s = if str_eq s "odd" then "a|b" else if str_eq s "even" then "a" else s

abbrev file_of : String → String
file_of s = if str_eq s "odd" then "c" else if str_eq s "even" then "b|c" else "a.xml"

abbrev texts : Json
texts = record {
  Value = String;
  decode_object = λ s. if str_eq s "" then none else some s;
  object_member = λ v k. some v;
  array_member =
      λ v k. if str_eq v "first" then some ("AKIA" ∷ "AIza" ∷ []) else some ("AIza" ∷ "xoxb" ∷ []);
  as_object = λ v. some v;
  string_member = λ v k.
      if str_eq k "secretString"
      then some (value_of v)
      else if str_eq k "fileLocation"
      then some (file_of v)
      else none;
  number_member = λ v k. some "3";
}

abbrev old : ScanJob plain
old = record (empty_job plain) { id = "j1"; result = "first" }

abbrev new : ScanJob plain
new = record (empty_job plain) { id = "j2"; result = "second" }

abbrev old_secrets : List String
old_secrets = "AKIA" ∷ "AIza" ∷ []

abbrev new_secrets : List String
new_secrets = "AIza" ∷ "xoxb" ∷ []

compare_scans-exact_example :
    (res : ComparisonResult texts) × (compare_scans texts plain old new ≡ compared res)
    × (res.added ≡ "xoxb" ∷ [])
    × (res.removed ≡ "AKIA" ∷ [])
    × (res.unchanged ≡ "AIza" ∷ [])
    × (res.job_id_1 ≡ "j1")
    × (res.job_id_2 ≡ "j2")
    × (res.total_job_1 ≡ 2)
    × (res.total_job_2 ≡ 2)
    × (res.added_count ≡ length res.added)
    × (res.removed_count ≡ length res.removed)
    × (res.unchanged_count ≡ length res.unchanged)
unfolding extract_secrets
compare_scans-exact_example =
    compare_scans-exact texts plain old new "first" "second" refl refl
      ((refl, refl), ((refl, refl), tt)) ((refl, refl), ((refl, refl), tt))

-- two different secrets with one key, since a value and a file name have the separator in them
one_key :
    (get_secret_key texts "odd" ≡ get_secret_key texts "even")
    × (same_secret texts "odd" "even" ≡ false)
unfolding get_secret_key
one_key = (refl, refl)
