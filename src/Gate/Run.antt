-- ===== src/Gate/Run.antt =====
-- morf/cmd/gate.go: the command `morf gate`, with `policyLabel` and `passFail` of morf/cmd/scan.go. The
-- result of the scan, the masked print of a result and standard output are arguments.
use Prim.Native.String
use morf.Prelude.{
  ℕ, String, Bool, true, not, ◌&&◌, Option, none, some, List, [], ◌∷◌, if◌then◌else◌, str_eq,
  length,
}
use morf.Finding.{SecretModel}
use morf.Gate.{
  Baseline, GateResult, baseline_from_scan, evaluate, fail_on_new_verified, fail_on_new_any,
  fail_on_tier_keep, never_fail,
}
use morf.Gate.Files.{Files, save}
use morf.Gate.Command.{Strings, scan_fail_on, load_baseline_or_empty}

abbrev pub exit_ok : ℕ
exit_ok = 0

abbrev pub exit_operational : ℕ
exit_operational = 1

abbrev pub exit_policy : ℕ
exit_policy = 4

pub record GateOptions : Type 0 where
  pub baseline : String
  pub update_baseline : Bool
  pub fail_on : String
  pub json_out : Bool

abbrev joined : List String → String
joined [] = ""
joined (s ∷ rest) = String.◌++◌ s (joined rest)

abbrev pub pass_fail : Bool → String
pass_fail failed = if failed then "FAIL" else "PASS"

unfoldable pub policy_label : String → String
policy_label p =
    if str_eq p fail_on_new_verified
    then "verified"
    else if str_eq p fail_on_new_any
    then "any"
    else if str_eq p fail_on_tier_keep
    then "keep"
    else if str_eq p never_fail
    then "none"
    else p

module _ (strings : Strings) (files : Files) where
  module _ {F : Type 0} (fingerprint : String → String)
      (mask_gate_result : GateResult F → Option files.Bytes)
      (write_stdout : files.Bytes → Bool) where
    pub record Evaluated : Type 0 where
      pub res : GateResult F
      pub out : Option files.Bytes
      pub summary : String
      pub exit_code : ℕ

    abbrev summary_of : String → GateResult F → String
    summary_of policy res = joined (
        "MORF gate: "
        ∷ strings.print_int (length res.new_findings)
        ∷ " new finding(s), "
        ∷ strings.print_int (length res.new_verified)
        ∷ " new verified-active; fail-on="
        ∷ policy_label policy
        ∷ " -> "
        ∷ pass_fail res.failed
        ∷ " ["
        ∷ res.reason
        ∷ "]"
        ∷ [])

    abbrev evaluated : String → GateResult F → Option files.Bytes → Evaluated
    evaluated policy res out = record {
      res = res;
      out = out;
      summary = summary_of policy res;
      exit_code = if res.failed then exit_policy else exit_ok;
    }

    abbrev masked : String → GateResult F → Option files.Bytes → Option Evaluated
    masked policy res none = none
    masked policy res (some out) = some (evaluated policy res (some out))

    abbrev judged : GateOptions → GateResult F → String → Option Evaluated
    judged opts res policy =
        if opts.json_out
        then masked policy res (mask_gate_result res)
        else some (evaluated policy res none)

    unfoldable pub evaluate_gate : GateOptions → List (SecretModel F) → Baseline → Option Evaluated
    unfolding scan_fail_on evaluate policy_label
    evaluate_gate opts secrets base = elim (scan_fail_on strings files opts.fail_on) [
      | none ↦ none
      | some policy ↦
          judged opts (evaluate fingerprint strings.print_int secrets (some base) policy) policy
    ]

    -- the exit code, the lines on standard error and the disk afterwards
    pub record Ended : Type 0 where
      pub exit_code : ℕ
      pub stderr : List String
      pub disk : files.Disk

    abbrev pub stopped : List String → files.Disk → Ended
    stopped lines d = record { exit_code = exit_operational; stderr = lines; disk = d }

    abbrev updated_line : GateOptions → List (SecretModel F) → String
    updated_line opts secrets = joined (
        "MORF gate: baseline updated ("
        ∷ opts.baseline
        ∷ "), "
        ∷ strings.print_int (length secrets)
        ∷ " finding(s) accepted"
        ∷ [])

    abbrev pub run_saved : GateOptions → List (SecretModel F) → String → Bool × files.Disk → Ended
    run_saved opts secrets summary r =
        if r.0
        then record {
          exit_code = exit_ok;
          stderr = summary ∷ updated_line opts secrets ∷ [];
          disk = r.1;
        }
        else stopped (summary ∷ []) r.1

    abbrev pub run_reported : GateOptions → List (SecretModel F) → Evaluated → files.Disk → Ended
    run_reported opts secrets e d =
        if opts.update_baseline
        then (if str_eq (strings.trim_space opts.baseline) ""
            then stopped (e.summary ∷ []) d
            else run_saved opts secrets e.summary
                (save files opts.baseline (baseline_from_scan fingerprint secrets) d))
        else record { exit_code = e.exit_code; stderr = e.summary ∷ []; disk = d }

    abbrev pub written : Option files.Bytes → Bool
    written none = true
    written (some out) = write_stdout out

    abbrev pub run_evaluated :
        GateOptions → List (SecretModel F) → Option Evaluated → files.Disk → Ended
    run_evaluated opts secrets none d = stopped [] d
    run_evaluated opts secrets (some e) d =
        if opts.json_out && not (written e.out) then stopped [] d else run_reported opts secrets e d

    abbrev pub run_loaded :
        GateOptions → List (SecretModel F) → Option Baseline → files.Disk → Ended
    run_loaded opts secrets none d = stopped [] d
    run_loaded opts secrets (some base) d =
        run_evaluated opts secrets (evaluate_gate opts secrets base) d

    -- `scanned` is what the scan of the package returns
    unfoldable pub run_gate : GateOptions → Option (List (SecretModel F)) → files.Disk → Ended
    unfolding evaluate_gate load_baseline_or_empty save baseline_from_scan
    run_gate opts none d = stopped [] d
    run_gate opts (some secrets) d =
        run_loaded opts secrets (load_baseline_or_empty strings files opts.baseline d) d
