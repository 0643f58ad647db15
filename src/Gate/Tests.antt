-- ===== src/Gate/Tests.antt =====
-- The theorems on morf/gate and its commands at concrete findings.
use morf.Prelude.{
  ℕ, ◌≡◌, refl, sym, ◌||◌, Bool, true, false, String, Option, some, none, List, [], ◌∷◌,
  if◌then◌else◌, str_eq, eq_refl,
}
use morf.Finding.{SecretModel}
use morf.Gate.{
  allow, allow_type, Baseline, has, is_known, new_baseline, GateResult, evaluate,
  baseline_from_scan, fail_on_new_any,
}
use morf.Gate.Verdict.{evaluate-baseline_from_scan}
use morf.Gate.Files.{Files, BaselineJson}
use morf.Gate.Command.{
  Strings, AllowOptions, split_comma, load_baseline_or_empty, run_gate_allow, scan_fail_on,
}
use morf.Gate.Run.{GateOptions, run_gate, exit_ok, exit_policy}
use morf.Gate.Adopted.{run_gate-adopts}
use morf.Gate.Allowed.{run_gate_allow-allows}

abbrev secret : SecretModel ℕ
secret = record {
  type = "secret";
  line_no = 3;
  file_location = "res/values/strings.xml";
  secret_type = "aws-access-key";
  secret_string = "AKIA";
  secret_confidence = "high";
  score = 1;
  tier = "keep";
  verification_status = "active";
  masvs_id = "";
}

abbrev stale_secret : SecretModel ℕ
stale_secret = record secret { secret_string = "OLD"; verification_status = "inactive" }

abbrev scan : List (SecretModel ℕ)
scan = secret ∷ stale_secret ∷ []

abbrev digest : String → String
digest s = s

abbrev digits : ℕ → String
digits n = "2"

evaluate-baseline_from_scan_example :
    let res = evaluate digest digits scan (some (baseline_from_scan digest scan)) fail_on_new_any in
    (res.new_findings ≡ []) × (res.new_verified ≡ []) × (res.failed ≡ false)
evaluate-baseline_from_scan_example = evaluate-baseline_from_scan digest digits scan fail_on_new_any

abbrev Held : Type 0
Held = String → Option BaselineJson

abbrev absent : Option BaselineJson → Bool
absent none = true
absent (some json) = false

abbrev put : String → BaselineJson → Held → Bool × Held
put path json d = (true, λ p. if str_eq path p then some json else d p)

abbrev memory : Files
memory = record {
  Disk = Held;
  Bytes = BaselineJson;
  is_not_exist = λ path d. absent (d path);
  read_file = λ path d. d path;
  write_file = put;
  marshal_indent = λ json. some json;
  unmarshal = λ json. some json;
  sort_strings = λ labels. labels;
  write_file-exists = λ path json d e. rw (eq_refl path) refl;
  write_file-reads = λ path json d e. rw (eq_refl path) refl;
  unmarshal-marshal_indent = λ json bytes e. sym e;
  sort_strings-has = λ labels x. refl;
}

abbrev plain_strings : Strings
plain_strings = record {
  trim_space = λ s. s;
  to_lower = λ s. s;
  split = λ s sep. s ∷ [];
  print_int = digits;
}

abbrev updating : GateOptions
updating = record {
  baseline = "base.json";
  update_baseline = true;
  fail_on = "any";
  json_out = false;
}

abbrev no_files : Held
no_files path = none

abbrev mask : GateResult ℕ → Option BaselineJson
mask res = none

abbrev gated : GateOptions → Held → ℕ
gated opts d =
    (run_gate plain_strings memory digest mask (λ bytes. true) opts (some scan) d).exit_code

-- without an update the same findings trip the gate
first_run_fails : gated (record updating { update_baseline = false }) no_files ≡ exit_policy
unfolding run_gate is_known
first_run_fails = refl

adopting : gated updating no_files ≡ exit_ok
unfolding run_gate
adopting = refl

any_valid : scan_fail_on plain_strings memory "any" ≡ some fail_on_new_any
unfolding scan_fail_on
any_valid = refl

run_gate-adopts_example :
    let r =
      run_gate plain_strings memory digest mask (λ bytes. true) updating (some scan) no_files in
    let later = record updating { update_baseline = false; json_out = false; fail_on = "any" } in
    let next = run_gate plain_strings memory digest mask (λ bytes. true) later (some scan) r.disk in
    (next.exit_code ≡ exit_ok) × (next.disk ≡ r.disk)
run_gate-adopts_example =
    run_gate-adopts plain_strings memory digest mask (λ bytes. true) updating scan no_files refl
      adopting "any" fail_on_new_any any_valid

abbrev allowing : AllowOptions
allowing = record { baseline = "base.json"; fingerprints = "AKIA" ∷ []; types = "jwt" ∷ "jwt" ∷ [] }

allow_counts : (run_gate_allow plain_strings memory allowing no_files).0 ≡ some (2, 1, 1)
unfolding run_gate_allow allow allow_type
allow_counts = refl

starts_empty : load_baseline_or_empty plain_strings memory "base.json" no_files ≡ some new_baseline
unfolding load_baseline_or_empty
starts_empty = refl

run_gate_allow-allows_example :
    let r = run_gate_allow plain_strings memory allowing no_files in
    (new : Baseline) × (load_baseline_or_empty plain_strings memory "base.json" r.1 ≡ some new)
    × ((fp secret_type : String)
        → is_known (some new) fp secret_type
          ≡ is_known (some new_baseline) fp secret_type
            || has (split_comma plain_strings memory allowing.fingerprints) fp
            || has (split_comma plain_strings memory allowing.types) secret_type)
run_gate_allow-allows_example =
    run_gate_allow-allows plain_strings memory allowing no_files (2, 1, 1) new_baseline allow_counts
      starts_empty
