-- ===== src/Gate.antt =====
-- morf/gate/gate.go: the build gate. The keyed digest that identifies a secret (`Fingerprint` of
-- morf/crypto) and the decimal print of a count are arguments. A set lists its members once.
pub mod Sets
pub mod Verdict
pub mod Files
pub mod Command
pub mod Run
pub mod Adopted
pub mod Allowed
mod Tests
use Prim.Native.String
use morf.Prelude.{
  ℕ, zero, suc, ◌+◌, String, Bool, true, false, ◌||◌, Option, none, some, List, [], ◌∷◌, ◌++◌,
  if◌then◌else◌, str_eq, ltb, length,
}
use morf.Finding.{SecretModel}

abbrev pub status_active : String
status_active = "active"

abbrev pub tier_keep : String
tier_keep = "keep"

abbrev pub fail_on_new_verified : String
fail_on_new_verified = "new_verified"

abbrev pub fail_on_new_any : String
fail_on_new_any = "new_any"

abbrev pub fail_on_tier_keep : String
fail_on_tier_keep = "new_tier_keep"

abbrev pub never_fail : String
never_fail = "none"

abbrev pub Labels : Type 0
Labels = List String

abbrev pub has : Labels → String → Bool
has [] x = false
has (label ∷ labels) x = str_eq label x || has labels x

abbrev pub with_label : String → Labels → Labels
with_label x labels = if has labels x then labels else x ∷ labels

pub record Baseline : Type 0 where
  pub fingerprints : Labels
  pub allowed_fingerprints : Labels
  pub allowed_types : Labels

abbrev pub new_baseline : Baseline
new_baseline = record { fingerprints = []; allowed_fingerprints = []; allowed_types = [] }

-- `none` is the nil pointer
unfoldable pub is_known : Option Baseline → String → String → Bool
is_known none fp secret_type = false
is_known (some b) fp secret_type =
    has b.fingerprints fp || has b.allowed_fingerprints fp || has b.allowed_types secret_type

unfoldable pub allow : String → Baseline → Baseline
allow fp b = record b { allowed_fingerprints = with_label fp b.allowed_fingerprints }

unfoldable pub allow_type : String → Baseline → Baseline
allow_type secret_type b = record b { allowed_types = with_label secret_type b.allowed_types }

pub record GateResult (F : Type 0) : Type 0 where
  pub new_findings : List (SecretModel F)
  pub new_verified : List (SecretModel F)
  pub failed : Bool
  pub reason : String

-- what the loop of `Evaluate` has collected
pub record Tally (F : Type 0) : Type 0 where
  pub new_findings : List (SecretModel F)
  pub new_verified : List (SecretModel F)
  pub new_tier_keep : ℕ

abbrev pub count_new : {F : Type 0} → SecretModel F → Tally F → Tally F
count_new s t = record {
  new_findings = t.new_findings ++ s ∷ [];
  new_verified =
      if str_eq s.verification_status status_active
      then t.new_verified ++ s ∷ []
      else t.new_verified;
  new_tier_keep = if str_eq s.tier tier_keep then t.new_tier_keep + 1 else t.new_tier_keep;
}

abbrev counted : (ℕ → String) → ℕ → String → String → String
counted print_int n what policy =
    String.◌++◌ (print_int n)
      (String.◌++◌ what (String.◌++◌ " detected (policy=" (String.◌++◌ policy ")")))

module _ {F : Type 0} (fingerprint : String → String) where
  unfoldable pub accept_all : List (SecretModel F) → Baseline → Baseline
  accept_all [] b = b
  accept_all (s ∷ rest) b =
      accept_all rest
        (record b { fingerprints = with_label (fingerprint s.secret_string) b.fingerprints })

  unfoldable pub baseline_from_scan : List (SecretModel F) → Baseline
  unfolding accept_all
  baseline_from_scan current = accept_all current new_baseline

  unfoldable pub tally : Option Baseline → List (SecretModel F) → Tally F → Tally F
  tally base [] t = t
  tally base (s ∷ rest) t =
      tally base rest
        (if is_known base (fingerprint s.secret_string) s.secret_type then t else count_new s t)

  module _ (print_int : ℕ → String) where
    abbrev verdict : Tally F → Bool → String → String → GateResult F
    verdict t failed why else_why = record {
      new_findings = t.new_findings;
      new_verified = t.new_verified;
      failed = failed;
      reason = if failed then why else else_why;
    }

    abbrev pub decide : String → Tally F → GateResult F
    decide policy t =
        let found = length t.new_findings in
        let live = length t.new_verified in
        if str_eq policy fail_on_new_any
        then verdict t (ltb 0 found) (counted print_int found " new finding(s)" policy)
            "no new findings"
        else if str_eq policy fail_on_tier_keep
        then verdict t (ltb 0 t.new_tier_keep)
            (counted print_int t.new_tier_keep " new keep-tier finding(s)" policy)
            "no new keep-tier findings"
        else if str_eq policy never_fail
        then verdict t false "" (
            String.◌++◌ "gate disabled (policy=" (
              String.◌++◌ policy (
                String.◌++◌ "); " (
                  String.◌++◌ (print_int found) (
                    String.◌++◌ " new finding(s), "
                      (String.◌++◌ (print_int live) " new verified"))))))
        else verdict t (ltb 0 live)
            (counted print_int live " new verified-active finding(s)" policy)
            "no new verified-active findings"

    abbrev pub no_tally : Tally F
    no_tally = record { new_findings = []; new_verified = []; new_tier_keep = 0 }

    unfoldable pub evaluate : List (SecretModel F) → Option Baseline → String → GateResult F
    unfolding tally
    evaluate current base policy =
        decide (if str_eq policy "" then fail_on_new_verified else policy)
          (tally base current no_tally)
