-- ===== src/Gate/Allowed.antt =====
-- `runGateAllow` of morf/cmd/gate.go: what a finding needs to be known afterwards.
use morf.Prelude.{
  ℕ, ◌≡◌, refl, ◌∙◌, String, Bool, false, ◌&&◌, ◌||◌, some, List, [], ◌∷◌, str_eq, arith,
  Bool-cases, inl, inr,
}
use morf.Gate.{Baseline, has, is_known, allow, allow_type}
use morf.Gate.Sets.{has-with_label}
use morf.Gate.Files.{Files, save, reread, is_known-reread}
use morf.Gate.Command.{
  Strings, AllowOptions, split_comma, load_baseline_or_empty, allow_loop, allow_type_loop,
  allow_all, empty, run_gate_allow,
}
use morf.Gate.Adopted.{save-load_baseline_or_empty}

is_known-allow :
    (label fp secret_type : String) (b : Baseline)
    → is_known (some (allow label b)) fp secret_type
      ≡ is_known (some b) fp secret_type || str_eq label fp
unfolding is_known allow
is_known-allow label fp secret_type b =
    rw (has-with_label label fp b.allowed_fingerprints) (ground arith)

is_known-allow_type :
    (label fp secret_type : String) (b : Baseline)
    → is_known (some (allow_type label b)) fp secret_type
      ≡ is_known (some b) fp secret_type || str_eq label secret_type
unfolding is_known allow_type
is_known-allow_type label fp secret_type b =
    rw (has-with_label label secret_type b.allowed_types) (ground arith)

or_false : (a : Bool) → a ≡ a || false
or_false a = ground arith

or_assoc : (a b c : Bool) → (a || b) || c ≡ a || (b || c)
or_assoc a b c = ground arith

is_known-allow_loop :
    (fps : List String) (b : Baseline) (n : ℕ) (fp secret_type : String)
    → is_known (some (allow_loop fps b n).0) fp secret_type
      ≡ is_known (some b) fp secret_type || has fps fp
is_known-allow_loop [] b n fp secret_type = or_false (is_known (some b) fp secret_type)
is_known-allow_loop (label ∷ rest) b n fp secret_type =
    is_known-allow_loop rest (allow label b) _ fp secret_type
    ∙ rw (is_known-allow label fp secret_type b)
        (or_assoc (is_known (some b) fp secret_type) (str_eq label fp) (has rest fp))

is_known-allow_type_loop :
    (typs : List String) (b : Baseline) (n : ℕ) (fp secret_type : String)
    → is_known (some (allow_type_loop typs b n).0) fp secret_type
      ≡ is_known (some b) fp secret_type || has typs secret_type
is_known-allow_type_loop [] b n fp secret_type = or_false (is_known (some b) fp secret_type)
is_known-allow_type_loop (label ∷ rest) b n fp secret_type =
    is_known-allow_type_loop rest (allow_type label b) _ fp secret_type
    ∙ rw (is_known-allow_type label fp secret_type b) (
        or_assoc (is_known (some b) fp secret_type) (str_eq label secret_type)
          (has rest secret_type))

module _ (strings : Strings) (files : Files) where
  is_known-allow_all :
      (fps typs : List String) (b : Baseline) (fp secret_type : String)
      → is_known (some (allow_all strings files fps typs b).0) fp secret_type
        ≡ is_known (some b) fp secret_type || has fps fp || has typs secret_type
  is_known-allow_all fps typs b fp secret_type =
      is_known-allow_type_loop typs (allow_loop fps b 0).0 _ fp secret_type
      ∙ rw (is_known-allow_loop fps b 0 fp secret_type) refl

  -- When `morf gate allow` reports success, the baseline that the file holds then knows a finding
  -- exactly if the one it started from did, or the finding's fingerprint or its type was among the
  -- arguments.
  pub run_gate_allow-allows :
      (opts : AllowOptions) (d : files.Disk) (counts : ℕ × ℕ × ℕ) (old : Baseline)
      → let r = run_gate_allow strings files opts d in
        r.0 ≡ some counts
        → load_baseline_or_empty strings files opts.baseline d ≡ some old
        → (new : Baseline) × (load_baseline_or_empty strings files opts.baseline r.1 ≡ some new)
          × ((fp secret_type : String)
              → is_known (some new) fp secret_type
                ≡ is_known (some old) fp secret_type
                  || has (split_comma strings files opts.fingerprints) fp
                  || has (split_comma strings files opts.types) secret_type)
  unfolding run_gate_allow
  run_gate_allow-allows opts d counts old ok loads =
      let fps = split_comma strings files opts.fingerprints in
      let typs = split_comma strings files opts.types in
      let updated = (allow_all strings files fps typs old).0 in
      elim (Bool-cases (str_eq (strings.trim_space opts.baseline) "")) [
        | inl b ↦ absurd (ground (arith, b, ok))
        | inr b ↦ elim (Bool-cases (empty strings files fps && empty strings files typs)) [
          | inl e ↦ absurd (ground (arith, b, e, ok))
          | inr e ↦ elim (Bool-cases (save files opts.baseline updated d).0) [
            | inr s ↦ absurd (ground (arith, b, e, loads, s, ok))
            | inl s ↦
                let after : (run_gate_allow strings files opts d).1
                    ≡ (save files opts.baseline updated d).1 =
                  rw (run_gate_allow, loads, b, e) refl in
                (
                  reread files updated,
                  rw after (save-load_baseline_or_empty strings files opts.baseline updated d b s),
                  λ fp secret_type.
                      is_known-reread files updated fp secret_type
                      ∙ is_known-allow_all fps typs old fp secret_type,
                )
          ]
        ]
      ]
