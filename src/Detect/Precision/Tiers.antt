-- ===== src/Detect/Precision/Tiers.antt =====
-- What `ApplyPrecision` of morf/detect/precision.go promises, and what the gate makes of its tiers.
use morf.Prelude.{
  ℕ, ◌≡◌, refl, ap, ◌∙◌, String, Bool, true, false, ◌&&◌, ◌||◌, List, [], ◌∷◌, Option, any, select,
  Bool-cases, inl, inr,
}
use morf.Finding.{SecretModel}
use morf.Detect.Precision.{
  Matchers, PrecisionVerdict, precision_drop, precision_info, precision_keep, classify_precision,
  apply_precision, with_tier, downgraded, retained,
}
use morf.Gate.{Baseline, is_known, evaluate, fail_on_tier_keep}
use morf.Gate.Verdict.{evaluate-verdict, is_new, gates}

module _ {F : Type 0} (m : Matchers F) where
  abbrev pub is_keep : PrecisionVerdict → Bool
  is_keep precision_drop = false
  is_keep precision_info = false
  is_keep precision_keep = true

  abbrev pub kept : SecretModel F → Bool
  kept s = is_keep (classify_precision m s)

  tiered-again :
      (d : PrecisionVerdict) (s : SecretModel F) (rest : List (SecretModel F))
      → classify_precision m s ≡ d
      → apply_precision m rest ≡ rest
      → apply_precision m (with_tier m d s rest) ≡ with_tier m d s rest
  unfolding apply_precision classify_precision
  tiered-again precision_drop s rest e ih = ih
  tiered-again precision_info s rest e ih =
      ap (λ d. with_tier m d (downgraded m s) (apply_precision m rest)) e
      ∙ ap (with_tier m precision_info s) ih
  tiered-again precision_keep s rest e ih =
      ap (λ d. with_tier m d (retained m s) (apply_precision m rest)) e
      ∙ ap (with_tier m precision_keep s) ih

  -- A second run changes nothing: the tiers that the first one wrote decide nothing.
  pub apply_precision-idempotent :
      (xs : List (SecretModel F)) → apply_precision m (apply_precision m xs) ≡ apply_precision m xs
  unfolding apply_precision
  apply_precision-idempotent [] = refl
  apply_precision-idempotent (s ∷ rest) =
      tiered-again (classify_precision m s) s (apply_precision m rest) refl
        (apply_precision-idempotent rest)

  module _ (fingerprint : String → String) (base : Option Baseline) where
    abbrev pub fires : SecretModel F → Bool
    fires s = is_new fingerprint base s && kept s

    tiered-fires :
        (d : PrecisionVerdict) (s : SecretModel F) (rest : List (SecretModel F))
        → any
            (gates fingerprint fail_on_tier_keep)
            (select (is_new fingerprint base) (with_tier m d s rest))
          ≡ (is_new fingerprint base s && is_keep d
              || any (gates fingerprint fail_on_tier_keep) (select (is_new fingerprint base) rest))
    tiered-fires precision_drop s rest =
        elim (Bool-cases (is_known base (fingerprint s.secret_string) s.secret_type)) [
          | inl e ↦ rw e refl
          | inr e ↦ rw e refl
        ]
    tiered-fires precision_info s rest =
        elim (Bool-cases (is_known base (fingerprint s.secret_string) s.secret_type)) [
          | inl e ↦ rw e refl
          | inr e ↦ rw e refl
        ]
    tiered-fires precision_keep s rest =
        elim (Bool-cases (is_known base (fingerprint s.secret_string) s.secret_type)) [
          | inl e ↦ rw e refl
          | inr e ↦ rw e refl
        ]

    any-fires :
        (xs : List (SecretModel F))
        → any
            (gates fingerprint fail_on_tier_keep)
            (select (is_new fingerprint base) (apply_precision m xs))
          ≡ any fires xs
    unfolding apply_precision
    any-fires [] = refl
    any-fires (s ∷ rest) =
        tiered-fires (classify_precision m s) s (apply_precision m rest)
        ∙ ap (λ b. fires s || b) (any-fires rest)

    -- Under "new_tier_keep" the gate fails on classified findings exactly if one of them is classified
    -- as kept and is new: a dropped or downgraded finding never fails a build.
    pub evaluate-apply_precision :
        (print_int : ℕ → String) (xs : List (SecretModel F))
        → (evaluate fingerprint print_int (apply_precision m xs) base fail_on_tier_keep).failed
          ≡ any fires xs
    evaluate-apply_precision print_int xs =
        (evaluate-verdict fingerprint print_int (apply_precision m xs) base fail_on_tier_keep).2
        ∙ any-fires xs
