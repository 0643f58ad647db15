-- ===== src/Verify/Evidence/Batch.antt =====
-- What stands behind a finding that the verification of morf/verify/verify.go marks "active".
use mathlib.Core.List.{Memᴰ}
use mathlib.Core.List.Memᴰ as Memᴰ
use morf.Prelude.{
  map, any, ◌||◌, ℕ, suc, ◌≡◌, sym, ap, ◌∙◌, String, Bool, true, false, Option, none, some, List,
  [], ◌∷◌, arith, inl, inr, ◌⊎◌, Bool-cases, Option-cases, str_eq, All,
}
use morf.Finding.{SecretModel}
use morf.Verify.Providers.{Library, status_active}
use morf.Verify.Transport.{Client, cache_get}
use morf.Verify.Aws.{candidate_loop, collect_aws_secret_candidates}
use morf.Verify.{
  RegistryEntry, verify, check_secret, pre_pass_loop, aws_pre_pass, main_loop, verify_with_registry,
  lookup, or_unknown, is_pairable, with_status, is_aws,
}
use mathlib.Core.Path.{subst}
use morf.Verify.Evidence.{
  Log, unknown-not_active, pair_text, IsProven, IsBacked, Step, IsProven-later, stay, and_then,
  cache_get-Step, cache_get-IsProven, cache_set-Step, verify-Step, verify-IsProven,
}
use morf.Verify.Evidence.Pairs.{candidate_loop-Step, candidate_loop-IsProven}

module _ (lib : Library) where
  or_unknown-active :
      (o : Option String) → or_unknown lib o ≡ status_active → o ≡ some status_active
  or_unknown-active none active = unknown-not_active active
  or_unknown-active (some s) active =
      elim (Bool-cases (str_eq s "active" || (str_eq s "inactive" || str_eq s "unknown"))) [
        | inl e ↦ ap some (ground (arith, e, active))
        | inr e ↦ unknown-not_active (ground (arith, e, active))
      ]

  check_secret-Step :
      (registry : List RegistryEntry) (secret_type secret : String) (c : Client)
      → IsBacked lib c
      → Step lib c (check_secret lib registry secret_type secret c).1
  unfolding check_secret
  check_secret-Step registry secret_type secret c backed =
      let hashed = lib.hash secret in
      let asked = cache_get hashed c in
      let asked_step = cache_get-Step lib hashed c in
      elim (Option-cases (lookup lib registry secret_type)) [
        | inl e ↦ rw (check_secret, e) (stay lib c)
        | inr (v, e) ↦ elim (Bool-cases (str_eq secret "")) [
          | inl blank ↦ rw (check_secret, e, blank) (stay lib c)
          | inr present ↦ elim (Option-cases asked.0) [
            | inr (s, d) ↦ rw (check_secret, e, present, d) asked_step
            | inl d ↦
                let tried = verify lib v secret asked.1 in
                rw (check_secret, e, present, d)
                  (and_then lib asked_step (
                    and_then lib (verify-Step lib v secret asked.1) (
                      cache_set-Step lib hashed (or_unknown lib tried.0) tried.1 λ active.
                        verify-IsProven lib v secret asked.1
                          (or_unknown-active (verify lib v secret asked.1).0 active))))
          ]
        ]
      ]

  check_secret-IsProven :
      (registry : List RegistryEntry) (secret_type secret : String) (c : Client)
      → IsBacked lib c
      → (check_secret lib registry secret_type secret c).0 ≡ status_active
      → IsProven lib (check_secret lib registry secret_type secret c).1.log (lib.hash secret)
  unfolding check_secret
  check_secret-IsProven registry secret_type secret c backed active =
      let hashed = lib.hash secret in
      let asked = cache_get hashed c in
      elim (Option-cases (lookup lib registry secret_type)) [
        | inl e ↦ unknown-not_active (ground (arith, e, active))
        | inr (v, e) ↦ elim (Bool-cases (str_eq secret "")) [
          | inl blank ↦ unknown-not_active (ground (arith, e, blank, active))
          | inr present ↦ elim (Option-cases asked.0) [
            | inr (s, d) ↦
                rw (check_secret, e, present, d)
                  (IsProven-later lib hashed (cache_get-Step lib hashed c) (
                    cache_get-IsProven lib hashed c backed
                      (d ∙ ap some (ground (arith, e, present, d, active)))))
            | inl d ↦
                let tried = verify lib v secret asked.1 in
                let proven =
                  verify-IsProven lib v secret asked.1
                    (or_unknown-active tried.0 (ground (arith, e, present, d, active))) in
                rw (check_secret, e, present, d)
                  (IsProven-later lib hashed
                    (cache_set-Step lib hashed (or_unknown lib tried.0) tried.1 λ same. proven)
                    proven)
          ]
        ]
      ]

  module _ {F : Type 0} where
    -- the finding's secret, or a pair with its access key id, has been accepted
    abbrev pub IsVerified : Log → SecretModel F → Type 0
    IsVerified log s =
        IsProven lib log (lib.hash s.secret_string)
        ⊎ ((key : String) × IsProven lib log
              (lib.hash (pair_text lib (lib.trim_space s.secret_string) key)))

    IsVerified-later :
        {c d : Client} (s : SecretModel F) → Step lib c d → IsVerified c.log s → IsVerified d.log s
    IsVerified-later s step (inl proven) = inl (IsProven-later lib _ step proven)
    IsVerified-later s step (inr (key, proven)) = inr (key, IsProven-later lib _ step proven)

    pre_pass_loop-Step :
        (secrets : List (SecretModel F)) (i : ℕ) (todo : List (SecretModel F)) (c : Client)
        → IsBacked lib c
        → Step lib c (pre_pass_loop lib secrets i todo c).1
    unfolding pre_pass_loop
    pre_pass_loop-Step secrets i [] c backed = stay lib c
    pre_pass_loop-Step secrets i (s ∷ rest) c backed =
        let candidates = collect_aws_secret_candidates lib s i secrets in
        let id = lib.trim_space s.secret_string in
        let tried = candidate_loop lib id candidates false false c in
        let step = candidate_loop-Step lib id candidates false false c backed in
        elim (Bool-cases (is_pairable lib s)) [
          | inr e ↦ rw (pre_pass_loop, e) (pre_pass_loop-Step secrets (suc i) rest c backed)
          | inl e ↦
              rw (pre_pass_loop, e)
                (and_then lib step
                  (pre_pass_loop-Step secrets (suc i) rest tried.1 (step.backed backed)))
        ]

    -- a finding that is marked active has been verified
    abbrev IsSettled : Log → SecretModel F → Type 0
    IsSettled log s = s.verification_status ≡ status_active → IsVerified log s

    abbrev IsPassed : Log → Bool × SecretModel F → Type 0
    IsPassed log (true, s) = IsSettled log s
    IsPassed log (false, s) = Unit

    IsPassed-later :
        {c d : Client} (p : Bool × SecretModel F)
        → Step lib c d
        → IsPassed c.log p
        → IsPassed d.log p
    IsPassed-later (true, s) step settled = λ active. IsVerified-later s step (settled active)
    IsPassed-later (false, s) step settled = tt

    All-IsPassed-later :
        {c d : Client} (passed : List (Bool × SecretModel F))
        → Step lib c d
        → All (IsPassed c.log) passed
        → All (IsPassed d.log) passed
    All-IsPassed-later [] step h = tt
    All-IsPassed-later (p ∷ rest) step h =
        (IsPassed-later p step h.0, All-IsPassed-later rest step h.1)

    pre_pass_loop-IsPassed :
        (secrets : List (SecretModel F)) (i : ℕ) (todo : List (SecretModel F)) (c : Client)
        → IsBacked lib c
        → let (passed, client) = pre_pass_loop lib secrets i todo c in
          All (IsPassed client.log) passed
    unfolding pre_pass_loop
    pre_pass_loop-IsPassed secrets i [] c backed = tt
    pre_pass_loop-IsPassed secrets i (s ∷ rest) c backed =
        let candidates = collect_aws_secret_candidates lib s i secrets in
        let id = lib.trim_space s.secret_string in
        let tried = candidate_loop lib id candidates false false c in
        let kept = (candidate_loop-Step lib id candidates false false c backed).backed backed in
        elim (Bool-cases (is_pairable lib s)) [
          | inr e ↦ rw (pre_pass_loop, e) (tt, pre_pass_loop-IsPassed secrets (suc i) rest c backed)
          | inl e ↦
              rw (pre_pass_loop, e)
                (
                  (λ active.
                      IsVerified-later (with_status lib s tried.0)
                        (pre_pass_loop-Step secrets (suc i) rest tried.1 kept)
                        (inr
                          (candidate_loop-IsProven lib id candidates false false c backed active))),
                  pre_pass_loop-IsPassed secrets (suc i) rest tried.1 kept,
                )
        ]

    aws_pre_pass-IsPassed :
        (registry : List RegistryEntry) (secrets : List (SecretModel F)) (c : Client)
        → IsBacked lib c
        → let (passed, client) = aws_pre_pass lib registry secrets c in
          All (IsPassed client.log) passed × Step lib c client
    unfolding aws_pre_pass
    aws_pre_pass-IsPassed registry secrets c backed = elim (Bool-cases (any is_aws registry)) [
      | inl e ↦
          rw (aws_pre_pass, e)
            (
              pre_pass_loop-IsPassed secrets 0 secrets c backed,
              pre_pass_loop-Step secrets 0 secrets c backed,
            )
      | inr e ↦ rw (aws_pre_pass, e) (all_unhandled secrets, stay lib c)
    ]
      where
        all_unhandled :
            (todo : List (SecretModel F)) → All (IsPassed c.log) (map (λ s. (false, s)) todo)
        all_unhandled [] = tt
        all_unhandled (s ∷ rest) = (tt, all_unhandled rest)

    main_loop-Step :
        (registry : List RegistryEntry) (passed : List (Bool × SecretModel F)) (c : Client)
        → IsBacked lib c
        → Step lib c (main_loop lib registry passed c).1
    unfolding main_loop
    main_loop-Step registry [] c backed = stay lib c
    main_loop-Step registry ((true, s) ∷ rest) c backed = main_loop-Step registry rest c backed
    main_loop-Step registry ((false, s) ∷ rest) c backed =
        let step = check_secret-Step registry s.secret_type s.secret_string c backed in
        and_then lib step (
          main_loop-Step registry rest (check_secret lib registry s.secret_type s.secret_string c).1
            (step.backed backed))

    main_loop-IsSettled :
        (registry : List RegistryEntry) (passed : List (Bool × SecretModel F)) (c : Client)
        → IsBacked lib c
        → All (IsPassed c.log) passed
        → let (settled, client) = main_loop lib registry passed c in
          All (IsSettled client.log) settled
    unfolding main_loop
    main_loop-IsSettled registry [] c backed h = tt
    main_loop-IsSettled registry ((true, s) ∷ rest) c backed h = (
      (λ active. IsVerified-later s (main_loop-Step registry rest c backed) (h.0 active)),
      main_loop-IsSettled registry rest c backed h.1,
    )
    main_loop-IsSettled registry ((false, s) ∷ rest) c backed h =
        let checked = check_secret lib registry s.secret_type s.secret_string c in
        let step = check_secret-Step registry s.secret_type s.secret_string c backed in
        let kept = step.backed backed in
        (
          (λ active.
              IsVerified-later (with_status lib s checked.0)
                (main_loop-Step registry rest checked.1 kept)
                (inl
                  (check_secret-IsProven registry s.secret_type s.secret_string c backed active))),
          main_loop-IsSettled registry rest checked.1 kept (All-IsPassed-later rest step h.1),
        )

    settled-member :
        (log : Log) (settled : List (SecretModel F)) (s : SecretModel F)
        → All (IsSettled log) settled
        → Memᴰ s settled
        → s.verification_status ≡ status_active
        → IsVerified log s
    settled-member log [] s h held active = absurd (Memᴰ.not-nil held)
    settled-member log (t ∷ rest) s h held active = elim (Memᴰ.cases_cons held) [
      | inl e ↦
          subst (IsVerified log) (sym e) (h.0 (ap (λ x. x.verification_status) (sym e) ∙ active))
      | inr later ↦ settled-member log rest s h.1 later active
    ]

    -- Let the cache hold no unproven outcome "active", as when it is empty. After a batch has been
    -- verified, a finding that is marked "active" is proven: a provider, or AWS for the finding's
    -- access key id paired with some key, has answered a logged request with status 200, and that
    -- request was about the same secret, up to collisions of the hash.
    pub verify_with_registry-IsVerified :
        (registry : List RegistryEntry) (secrets : List (SecretModel F)) (c : Client)
        (s : SecretModel F)
        → IsBacked lib c
        → let (verified, client) = verify_with_registry lib registry secrets c in
          Memᴰ s verified → s.verification_status ≡ status_active → IsVerified client.log s
    unfolding verify_with_registry
    verify_with_registry-IsVerified registry secrets c s backed held active =
        let passed = aws_pre_pass lib registry secrets c in
        let (all_passed, step) = aws_pre_pass-IsPassed registry secrets c backed in
        settled-member _ _ s
          (main_loop-IsSettled registry passed.0 passed.1 (step.backed backed) all_passed) held
          active
