-- ===== src/Gate/Verdict.antt =====
-- What the gate of morf/gate/gate.go decides, against a reference that reads the findings once.
use morf.Prelude.{
  fun_ext, ℕ, ◌+◌, ◌≡◌, refl, ap, ◌∙◌, sym, String, Bool, true, false, not, Option, some, List, [],
  ◌∷◌, ◌++◌, if◌then◌else◌, str_eq, eq_iff, ltb, length, append-nil, append_assoc, select, any,
  arith, Bool-cases, inl, inr,
}
use morf.Finding.{SecretModel}
use morf.Gate.Sets.{has-with_label, has-with_label_same}
use morf.Gate.{
  Baseline, has, is_known, accept_all, baseline_from_scan, tally, Tally, count_new, evaluate,
  decide, no_tally, status_active, tier_keep, fail_on_new_verified, fail_on_new_any,
  fail_on_tier_keep, never_fail, new_baseline,
}

module _ {F : Type 0} (fingerprint : String → String) where
  -- a finding that neither the baseline nor an allowlist covers
  abbrev pub is_new : Option Baseline → SecretModel F → Bool
  is_new base s = not (is_known base (fingerprint s.secret_string) s.secret_type)

  abbrev pub is_live : SecretModel F → Bool
  is_live s = str_eq s.verification_status status_active

  abbrev pub is_kept : SecretModel F → Bool
  is_kept s = str_eq s.tier tier_keep

  tally-findings :
      (base : Option Baseline) (current : List (SecretModel F)) (t : Tally F)
      → (tally fingerprint base current t).new_findings
        ≡ t.new_findings ++ select (is_new base) current
  unfolding tally
  tally-findings base [] t = sym (append-nil t.new_findings)
  tally-findings base (s ∷ rest) t =
      elim (Bool-cases (is_known base (fingerprint s.secret_string) s.secret_type)) [
        | inl e ↦ rw (tally, e) (tally-findings base rest t)
        | inr e ↦
            rw (tally, e)
              (tally-findings base rest (count_new s t) ∙ append_assoc t.new_findings (s ∷ []) _)
      ]

  -- The newly found live secrets and the count of kept ones, as the loop has them at the end.
  tally-live :
      (base : Option Baseline) (current : List (SecretModel F)) (t : Tally F)
      → (tally fingerprint base current t).new_verified
        ≡ t.new_verified ++ select is_live (select (is_new base) current)
  unfolding tally
  tally-live base [] t = sym (append-nil t.new_verified)
  tally-live base (s ∷ rest) t =
      elim (Bool-cases (is_known base (fingerprint s.secret_string) s.secret_type)) [
        | inl e ↦ rw (tally, e) (tally-live base rest t)
        | inr e ↦ elim (Bool-cases (is_live s)) [
          | inl d ↦
              rw (tally, e)
                (tally-live base rest (count_new s t)
                  ∙ rw d (append_assoc t.new_verified (s ∷ []) _))
          | inr d ↦ rw (tally, e) (tally-live base rest (count_new s t) ∙ rw d refl)
        ]
      ]

  tally-kept :
      (base : Option Baseline) (current : List (SecretModel F)) (t : Tally F)
      → (tally fingerprint base current t).new_tier_keep
        ≡ t.new_tier_keep + length (select is_kept (select (is_new base) current))
  unfolding tally
  tally-kept base [] t = omega arith
  tally-kept base (s ∷ rest) t =
      ground (arith, tally-kept base rest t, tally-kept base rest (count_new s t))

  abbrev nonempty : List (SecretModel F) → Bool
  nonempty xs = ltb 0 (length xs)

  -- what a policy gates on, among the new findings
  abbrev pub gates : String → SecretModel F → Bool
  gates policy s =
      if str_eq policy fail_on_new_any
      then true
      else if str_eq policy fail_on_tier_keep
      then is_kept s
      else if str_eq policy never_fail
      then false
      else is_live s

  nonempty-select :
      (p : SecretModel F → Bool) (xs : List (SecretModel F)) → nonempty (select p xs) ≡ any p xs
  nonempty-select p [] = refl
  nonempty-select p (x ∷ xs) = ground (arith, nonempty-select p xs)

  any-false : (xs : List (SecretModel F)) → any (λ s. false) xs ≡ false
  any-false [] = refl
  any-false (x ∷ xs) = any-false xs

  nonempty-true : (xs : List (SecretModel F)) → nonempty xs ≡ any (λ s. true) xs
  nonempty-true [] = refl
  nonempty-true (x ∷ xs) = ground arith

  any-gates :
      (f : SecretModel F → Bool) (policy : String)
      → ((s : SecretModel F) → f s ≡ gates policy s)
      → (xs : List (SecretModel F)) → any f xs ≡ any (gates policy) xs
  any-gates f policy e xs = ap (λ p. any p xs) (fun_ext e)

  gates-empty :
      (policy : String) (s : SecretModel F)
      → gates (if str_eq policy "" then fail_on_new_verified else policy) s ≡ gates policy s
  gates-empty policy s = elim (Bool-cases (str_eq policy "")) [
    | inl e ↦ rw ((eq_iff policy "").0 e) refl
    | inr e ↦ rw e refl
  ]

  module _ (print_int : ℕ → String) (found : List (SecretModel F)) where
    abbrev collected : Tally F
    collected = record {
      new_findings = found;
      new_verified = select is_live found;
      new_tier_keep = length (select is_kept found);
    }

    decide-verdict :
        (policy : String)
        → let res = decide fingerprint print_int policy collected in
          (res.new_findings ≡ found)
          × (res.new_verified ≡ select is_live found)
          × (res.failed ≡ any (gates policy) found)
    decide-verdict policy = elim (Bool-cases (str_eq policy fail_on_new_any)) [
      | inl e ↦
          rw e
            (refl, refl, nonempty-true found ∙ any-gates (λ s. true) policy (λ s. rw e refl) found)
      | inr e ↦ elim (Bool-cases (str_eq policy fail_on_tier_keep)) [
        | inl d ↦
            rw (e, d)
              (
                refl,
                refl,
                nonempty-select is_kept found
                    ∙ any-gates is_kept policy (λ s. rw (e, d) refl) found,
              )
        | inr d ↦ elim (Bool-cases (str_eq policy never_fail)) [
          | inl b ↦
              rw (e, d, b)
                (
                  refl,
                  refl,
                  sym (any-false found)
                      ∙ any-gates (λ s. false) policy (λ s. rw (e, d, b) refl) found,
                )
          | inr b ↦
              rw (e, d, b)
                (
                  refl,
                  refl,
                  nonempty-select is_live found
                      ∙ any-gates is_live policy (λ s. rw (e, d, b) refl) found,
                )
        ]
      ]
    ]

  module _ (print_int : ℕ → String) (current : List (SecretModel F)) (base : Option Baseline) where
    abbrev pub fresh : List (SecretModel F)
    fresh = select (is_new base) current

    abbrev start : Tally F
    start = no_tally fingerprint print_int

    tally-collected : tally fingerprint base current start ≡ collected print_int fresh
    tally-collected =
        let kept : (tally fingerprint base current start).new_tier_keep
            ≡ length (select is_kept fresh) =
          omega (arith, tally-kept base current start) in
        λ i. record {
          new_findings = tally-findings base current start i;
          new_verified = tally-live base current start i;
          new_tier_keep = kept i;
        }

    -- `Evaluate` is its reference: the new findings in their order, the live ones among them, and a
    -- failure exactly if some new finding is of the kind that the policy gates on. The policy that is
    -- empty stands for "new_verified", and so does every name that is not known.
    pub evaluate-verdict :
        (policy : String)
        → let res = evaluate fingerprint print_int current base policy in
          (res.new_findings ≡ fresh)
          × (res.new_verified ≡ select is_live fresh)
          × (res.failed ≡ any (gates policy) fresh)
    unfolding evaluate
    evaluate-verdict policy =
        let asked = if str_eq policy "" then fail_on_new_verified else policy in
        let (found, live, verdict) = decide-verdict print_int fresh asked in
        rw tally-collected
          (found, live, verdict ∙ ap (λ p. any p fresh) (fun_ext λ s. gates-empty policy s))

    pub known-no_gate : (policy : String) → fresh ≡ [] → any (gates policy) fresh ≡ false
    known-no_gate policy e = rw e refl

  -- A baseline is a fixed point: what it holds it keeps.
  accept_all-keeps :
      (current : List (SecretModel F)) (b : Baseline) (fp : String)
      → has b.fingerprints fp ≡ true
      → has (accept_all fingerprint current b).fingerprints fp ≡ true
  unfolding accept_all
  accept_all-keeps [] b fp h = h
  accept_all-keeps (s ∷ rest) b fp h =
      accept_all-keeps rest _ fp
        (has-with_label (fingerprint s.secret_string) fp b.fingerprints ∙ ground arith)

  pub accept_all-knows :
      (current : List (SecretModel F)) (b c : Baseline)
      → ((fp : String)
          → has (accept_all fingerprint current b).fingerprints fp ≡ true
          → has c.fingerprints fp ≡ true)
      → select (is_new (some c)) current ≡ []
  unfolding accept_all is_known
  accept_all-knows [] b c h = refl
  accept_all-knows (s ∷ rest) b c h =
      let known : has c.fingerprints (fingerprint s.secret_string) ≡ true = h _ (
        accept_all-keeps rest _ _
          (has-with_label_same (fingerprint s.secret_string) b.fingerprints)) in
      rw known (accept_all-knows rest _ c h)

  -- A scan against the baseline taken from it finds nothing new and passes, under every policy.
  pub evaluate-baseline_from_scan :
      (print_int : ℕ → String) (current : List (SecretModel F)) (policy : String)
      → let res =
          evaluate fingerprint print_int current
            (some (baseline_from_scan fingerprint current))
            policy in
        (res.new_findings ≡ []) × (res.new_verified ≡ []) × (res.failed ≡ false)
  unfolding baseline_from_scan
  evaluate-baseline_from_scan print_int current policy =
      let base = some (baseline_from_scan fingerprint current) in
      let (found, live, verdict) = evaluate-verdict print_int current base policy in
      let none_new =
        accept_all-knows current new_baseline (baseline_from_scan fingerprint current)
          (λ fp h. h) in
      (
        found ∙ none_new,
        live ∙ ap (select is_live) none_new,
        verdict ∙ known-no_gate print_int current base policy none_new,
      )
