-- ===== src/Comparison.antt =====
-- morf/utils/comparison.go: the difference of two scans' results. The decoded values of
-- encoding/json, and its decoder, are a parameter.
pub mod Keys
pub mod Difference
mod Tests
use Prim.Native.String.{◌++◌ as append}
use morf.Prelude.{
  ℕ, String, Bool, true, false, not, Option, none, some, List, [], ◌∷◌, if◌then◌else◌, str_eq, any,
  map, length, select,
}
use morf.Job.{Codec, ScanJob}

pub record Json : Type 1 where
  pub Value : Type 0
  pub decode_object : String → Option Value
  -- the member of that name that is an object, or an array
  pub object_member : Value → String → Option Value
  pub array_member : Value → String → Option (List Value)
  pub as_object : Value → Option Value
  pub string_member : Value → String → Option String
  -- `%.0f` of a number, or the digits of a `json.Number`
  pub number_member : Value → String → Option String

module _ (json : Json) where
  open json use {
    Value, decode_object, object_member, array_member, as_object, string_member, number_member,
  }

  abbrev pub objects : List Value → List Value
  objects [] = []
  objects (v ∷ rest) = elim (as_object v) [ none ↦ objects rest | some o ↦ o ∷ objects rest ]

  abbrev array_of : Option (List Value) → List Value
  array_of none = []
  array_of (some vs) = objects vs

  abbrev secrets_of : Option Value → List Value
  secrets_of none = []
  secrets_of (some data_value) = array_of (array_member data_value "secrets")

  unfoldable pub extract_secrets : Value → List Value
  extract_secrets result_data = secrets_of (object_member result_data "data")

  abbrev or_blank : Option String → String
  or_blank none = ""
  or_blank (some s) = s

  abbrev line_text : Option String → Option String → String
  line_text (some s) n = s
  line_text none n = or_blank n

  unfoldable pub get_secret_key : Value → String
  get_secret_key secret = append (or_blank (string_member secret "secretString")) (
      append "|" (
        append (or_blank (string_member secret "fileLocation"))
          (append "|" (line_text (string_member secret "lineNo") (number_member secret "lineNo")))))

  pub record ComparisonResult : Type 0 where
    pub job_id_1 : String
    pub job_id_2 : String
    pub added : List Value
    pub removed : List Value
    pub unchanged : List Value
    pub total_job_1 : ℕ
    pub total_job_2 : ℕ
    pub added_count : ℕ
    pub removed_count : ℕ
    pub unchanged_count : ℕ

  pub data Comparison : Type 0 where
    compared : ComparisonResult → Comparison
    first_unreadable second_unreadable : Comparison

  -- membership in the index that is built of a scan's keys
  unfoldable pub has_secret : List Value → Value → Bool
  has_secret secrets s = any (λ t. str_eq (get_secret_key t) (get_secret_key s)) secrets

  abbrev pub difference : String → String → List Value → List Value → ComparisonResult
  difference id1 id2 secrets1 secrets2 =
      let added = select (λ s. not (has_secret secrets1 s)) secrets2 in
      let removed = select (λ s. not (has_secret secrets2 s)) secrets1 in
      let unchanged = select (has_secret secrets2) secrets1 in
      record {
        job_id_1 = id1;
        job_id_2 = id2;
        added = added;
        removed = removed;
        unchanged = unchanged;
        total_job_1 = length secrets1;
        total_job_2 = length secrets2;
        added_count = length added;
        removed_count = length removed;
        unchanged_count = length unchanged;
      }

  module _ (c : Codec) where
    abbrev pub compare_decoded : ScanJob c → ScanJob c → Option Value → Option Value → Comparison
    compare_decoded job1 job2 none data2 = first_unreadable
    compare_decoded job1 job2 (some data1) none = second_unreadable
    compare_decoded job1 job2 (some data1) (some data2) =
        compared (difference job1.id job2.id (extract_secrets data1) (extract_secrets data2))

    unfoldable pub compare_scans : ScanJob c → ScanJob c → Comparison
    compare_scans job1 job2 =
        compare_decoded job1 job2 (decode_object job1.result) (decode_object job2.result)
