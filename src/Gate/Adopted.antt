-- ===== src/Gate/Adopted.antt =====
-- `runGate` of morf/cmd/gate.go with --update-baseline, and the runs that follow it.
use morf.Prelude.{
  ◌≡◌, refl, ◌∙◌, String, Bool, true, false, not, ◌&&◌, Option, none, some, List, str_eq, arith,
  Bool-cases, inl, inr,
}
use morf.Finding.{SecretModel}
use morf.Gate.{Baseline, GateResult, new_baseline, baseline_from_scan, evaluate}
use morf.Gate.Verdict.{accept_all-knows, evaluate-verdict, known-no_gate}
use morf.Gate.Files.{Files, save, save-loads, reread, reread-fingerprints}
use morf.Gate.Command.{Strings, scan_fail_on, load_baseline_or_empty}
use morf.Gate.Run.{
  GateOptions, exit_ok, Evaluated, run_gate, run_loaded, run_evaluated, run_reported, evaluate_gate,
  written,
}

module _ (strings : Strings) (files : Files) where
  -- after a save the file is loaded, not the empty baseline
  pub save-load_baseline_or_empty :
      (path : String) (b : Baseline) (d : files.Disk)
      → str_eq (strings.trim_space path) "" ≡ false
      → (save files path b d).0 ≡ true
      → load_baseline_or_empty strings files path (save files path b d).1 ≡ some (reread files b)
  unfolding load_baseline_or_empty
  save-load_baseline_or_empty path b d named saved =
      let (there, loads) = save-loads files path b d saved in rw (named, there) loads

  module _ {F : Type 0} (fingerprint : String → String)
      (mask_gate_result : GateResult F → Option files.Bytes) (write_stdout : files.Bytes → Bool)
      (opts : GateOptions) (secrets : List (SecretModel F)) where
    abbrev adopted : files.Disk → Bool × files.Disk
    adopted d = save files opts.baseline (baseline_from_scan fingerprint secrets) d

    -- what an updating run that exits with 0 has done
    abbrev IsAdopted : files.Disk → files.Disk → Type 0
    IsAdopted d d' =
        (str_eq (strings.trim_space opts.baseline) "" ≡ false)
        × ((adopted d).0 ≡ true)
        × (d' ≡ (adopted d).1)

    module _ (updates : opts.update_baseline ≡ true) where
      reported :
          (e : Evaluated strings files fingerprint mask_gate_result write_stdout) (d : files.Disk)
          → let r =
              run_reported strings files fingerprint mask_gate_result write_stdout opts secrets e
                d in
            r.exit_code ≡ exit_ok → IsAdopted d r.disk
      reported e d ok = elim (Bool-cases (str_eq (strings.trim_space opts.baseline) "")) [
        | inl b ↦ absurd (ground (arith, updates, b, ok))
        | inr b ↦ elim (Bool-cases (adopted d).0) [
          | inl s ↦ rw (updates, b, s) (refl, refl, refl)
          | inr s ↦ absurd (ground (arith, updates, b, s, ok))
        ]
      ]

      evaluated :
          (e : Option (Evaluated strings files fingerprint mask_gate_result write_stdout))
          (d : files.Disk)
          → let r =
              run_evaluated strings files fingerprint mask_gate_result write_stdout opts secrets e
                d in
            r.exit_code ≡ exit_ok → IsAdopted d r.disk
      evaluated none d ok = absurd (ground (arith, ok))
      evaluated (some e) d ok =
          elim (Bool-cases (
            opts.json_out
            && not (written strings files fingerprint mask_gate_result write_stdout e.out))) [
              | inl w ↦ absurd (ground (arith, w, ok))
              | inr w ↦ rw w (reported e d (ground (arith, w, ok)))
            ]

      loaded :
          (base : Option Baseline) (d : files.Disk)
          → let r =
              run_loaded strings files fingerprint mask_gate_result write_stdout opts secrets base
                d in
            r.exit_code ≡ exit_ok → IsAdopted d r.disk
      loaded none d ok = absurd (ground (arith, ok))
      loaded (some base) d ok =
          evaluated
            (evaluate_gate strings files fingerprint mask_gate_result write_stdout opts secrets
              base)
            d ok

      run_gate-IsAdopted :
          (d : files.Disk)
          → let r =
              run_gate strings files fingerprint mask_gate_result write_stdout opts
                (some secrets)
                d in
            r.exit_code ≡ exit_ok → IsAdopted d r.disk
      unfolding run_gate
      run_gate-IsAdopted d ok = loaded (load_baseline_or_empty strings files opts.baseline d) d ok

    -- Against the baseline that the file holds then, the same findings are not new.
    evaluate-reread :
        (policy : String)
        → (evaluate fingerprint strings.print_int secrets
            (some (reread files (baseline_from_scan fingerprint secrets)))
            policy).failed
          ≡ false
    unfolding baseline_from_scan
    evaluate-reread policy =
        let b = baseline_from_scan fingerprint secrets in
        let base = some (reread files b) in
        let (found, live, verdict) =
          evaluate-verdict fingerprint strings.print_int secrets base policy in
        verdict
        ∙ known-no_gate fingerprint strings.print_int secrets base policy (
            accept_all-knows fingerprint secrets new_baseline (reread files b)
              (λ fp h. reread-fingerprints files b fp ∙ h))

    -- When a run with --update-baseline exits with 0, the next run over the same findings that does
    -- not update and prints no JSON exits with 0 too, under every policy that the command accepts, and
    -- leaves the disk as it is.
    pub run_gate-adopts :
        (d : files.Disk)
        → let r =
            run_gate strings files fingerprint mask_gate_result write_stdout opts
              (some secrets)
              d in
          opts.update_baseline ≡ true
          → r.exit_code ≡ exit_ok
          → (fail_on policy : String) → scan_fail_on strings files fail_on ≡ some policy
          → let later = record opts {
            update_baseline = false;
            json_out = false;
            fail_on = fail_on;
          } in
            let next =
              run_gate strings files fingerprint mask_gate_result write_stdout later
                (some secrets)
                r.disk in
            (next.exit_code ≡ exit_ok) × (next.disk ≡ r.disk)
    unfolding run_gate evaluate_gate
    run_gate-adopts d updates ok fail_on policy valid =
        let r =
          run_gate strings files fingerprint mask_gate_result write_stdout opts (some secrets) d in
        let (named, saved, now) = run_gate-IsAdopted updates d ok in
        let loads : load_baseline_or_empty strings files opts.baseline r.disk
            ≡ some (reread files (baseline_from_scan fingerprint secrets)) =
          rw now (save-load_baseline_or_empty opts.baseline _ d named saved) in
        rw (run_gate, loads, evaluate_gate, valid, evaluate-reread policy) (refl, refl)
