-- ===== src/Verify/Bounds.antt =====
-- How many requests the verification of morf/verify/verify.go sends.
use Prim.Native.String
use morf.Prelude.{
  ℕ, zero, suc, ◌+◌, ◌*◌, ◌≤◌, ◌≡◌, refl, ap, String, Bool, true, false, List, [], ◌∷◌, arith, inl,
  inr, Bool-cases, Option-cases, length, take, map, str_eq,
}
use morf.Finding.{SecretModel}
use morf.Verify.Providers.{Library}
use morf.Verify.Transport.{Client, cache_get, cache_set, do_request}
use morf.Verify.Aws.{
  verify_pair, try_candidate, candidate_loop, collect_aws_secret_candidates, sort_candidates,
  gather_candidates,
}
use morf.Verify.{
  RegistryEntry, Verifier, provider, aws_verifier, verify, check_secret, pre_pass_loop,
  aws_pre_pass, main_loop, lookup, or_unknown, is_pairable, verify_with_registry,
}

-- the requests sent so far
abbrev pub sent : Client → ℕ
sent c = length c.log

cache_get-sent : (key : String) (c : Client) → sent (cache_get key c).1 ≡ sent c
unfolding cache_get
cache_get-sent key c = ground arith

cache_set-sent : (key status : String) (c : Client) → sent (cache_set key status c) ≡ sent c
unfolding cache_set
cache_set-sent key status c = ground arith

length-take_le : {A : Type 0} (n : ℕ) (xs : List A) → length (take n xs) ≤ n
length-take_le zero xs = omega arith
length-take_le (suc n) [] = omega arith
length-take_le (suc n) (x ∷ xs) = omega (arith, length-take_le n xs)

length-map : {A B : Type 0} (f : A → B) (xs : List A) → length (map f xs) ≡ length xs
length-map f [] = refl
length-map f (x ∷ xs) = ap suc (length-map f xs)

module _ (lib : Library) where
  verify_pair-sent :
      (id key : String) (c : Client) → sent (verify_pair lib id key c).1 ≤ suc (sent c)
  unfolding verify_pair do_request
  verify_pair-sent id key c = ground arith

  try_candidate-sent :
      (id key : String) (c : Client) → sent (try_candidate lib id key c).1 ≤ suc (sent c)
  unfolding try_candidate
  try_candidate-sent id key c =
      let hashed = lib.hash (String.◌++◌ id (String.◌++◌ ":" key)) in
      let asked = cache_get hashed c in
      let asked_sent = cache_get-sent hashed c in
      let tried = verify_pair lib id key asked.1 in
      let tried_sent = verify_pair-sent id key asked.1 in
      elim (Option-cases asked.0) [
        | inr (s, e) ↦ rw (try_candidate, e) (omega (arith, asked_sent))
        | inl e ↦ elim (Option-cases tried.0) [
          | inl d ↦ rw (try_candidate, e, d) (omega (arith, asked_sent, tried_sent))
          | inr (s, d) ↦
              rw (try_candidate, e, d)
                (omega (arith, asked_sent, tried_sent, cache_set-sent hashed s tried.1))
        ]
      ]

  candidate_loop-sent :
      (id : String) (keys : List String) (inactive unknown : Bool) (c : Client)
      → sent (candidate_loop lib id keys inactive unknown c).1 ≤ sent c + length keys
  unfolding candidate_loop
  candidate_loop-sent id [] inactive unknown c = omega arith
  candidate_loop-sent id (key ∷ rest) inactive unknown c =
      let tried = try_candidate lib id key c in
      let tried_sent = try_candidate-sent id key c in
      ground (
        arith,
        tried_sent,
        candidate_loop-sent id rest inactive true tried.1,
        candidate_loop-sent id rest true unknown tried.1,
      )

  verify-sent :
      (v : Verifier) (secret : String) (c : Client) → sent (verify lib v secret c).1 ≤ suc (sent c)
  unfolding verify do_request
  verify-sent aws_verifier secret c = ground arith
  verify-sent (provider p) secret c = ground arith

  check_secret-sent :
      (registry : List RegistryEntry) (secret_type secret : String) (c : Client)
      → sent (check_secret lib registry secret_type secret c).1 ≤ suc (sent c)
  unfolding check_secret
  check_secret-sent registry secret_type secret c =
      let hashed = lib.hash secret in
      let asked = cache_get hashed c in
      let asked_sent = cache_get-sent hashed c in
      elim (Option-cases (lookup lib registry secret_type)) [
        | inl e ↦ rw (check_secret, e) (omega arith)
        | inr (v, e) ↦ elim (Bool-cases (str_eq secret "")) [
          | inl blank ↦ rw (check_secret, e, blank) (omega arith)
          | inr present ↦ elim (Option-cases asked.0) [
            | inr (s, d) ↦ rw (check_secret, e, present, d) (omega (arith, asked_sent))
            | inl d ↦
                rw (check_secret, e, present, d)
                  (omega (
                    arith,
                    asked_sent,
                    verify-sent v secret asked.1,
                    cache_set-sent hashed (or_unknown lib (verify lib v secret asked.1).0)
                        (verify lib v secret asked.1).1,
                  ))
          ]
        ]
      ]

  module _ {F : Type 0} where
    -- the findings that the pre-pass leaves to the main loop
    abbrev unhandled : List (Bool × SecretModel F) → ℕ
    unhandled [] = 0
    unhandled ((true, s) ∷ rest) = unhandled rest
    unhandled ((false, s) ∷ rest) = suc (unhandled rest)

    candidates-few :
        (s : SecretModel F) (i : ℕ) (secrets : List (SecretModel F))
        → length (collect_aws_secret_candidates lib s i secrets) ≤ 3
    unfolding collect_aws_secret_candidates
    candidates-few s i secrets =
        rw length-map (length-take_le 3 (sort_candidates (gather_candidates lib s i 0 [] secrets)))

    pre_pass_loop-sent :
        (secrets : List (SecretModel F)) (i : ℕ) (todo : List (SecretModel F)) (c : Client)
        → let (passed, client) = pre_pass_loop lib secrets i todo c in
          sent client + unhandled passed ≤ sent c + 3 * length todo
    unfolding pre_pass_loop
    pre_pass_loop-sent secrets i [] c = omega arith
    pre_pass_loop-sent secrets i (s ∷ rest) c =
        let candidates = collect_aws_secret_candidates lib s i secrets in
        let tried = candidate_loop lib (lib.trim_space s.secret_string) candidates false false c in
        elim (Bool-cases (is_pairable lib s)) [
          | inr e ↦ rw (pre_pass_loop, e) (omega (arith, pre_pass_loop-sent secrets (suc i) rest c))
          | inl e ↦
              rw (pre_pass_loop, e)
                (omega (
                  arith,
                  candidates-few s i secrets,
                  candidate_loop-sent (lib.trim_space s.secret_string) candidates false false c,
                  pre_pass_loop-sent secrets (suc i) rest tried.1,
                ))
        ]

    unhandled_all :
        (secrets : List (SecretModel F))
        → unhandled (map (λ s. (false, s)) secrets) ≡ length secrets
    unhandled_all [] = refl
    unhandled_all (s ∷ rest) = ap suc (unhandled_all rest)

    main_loop-sent :
        (registry : List RegistryEntry) (passed : List (Bool × SecretModel F)) (c : Client)
        → sent (main_loop lib registry passed c).1 ≤ sent c + unhandled passed
    unfolding main_loop
    main_loop-sent registry [] c = omega arith
    main_loop-sent registry ((true, s) ∷ rest) c = main_loop-sent registry rest c
    main_loop-sent registry ((false, s) ∷ rest) c =
        let checked = check_secret lib registry s.secret_type s.secret_string c in
        omega (
          arith,
          check_secret-sent registry s.secret_type s.secret_string c,
          main_loop-sent registry rest checked.1,
        )

    -- Verifying a batch sends at most three requests for each of its findings, whatever the registry,
    -- the cache and the network.
    pub verify_with_registry-bounded :
        (registry : List RegistryEntry) (secrets : List (SecretModel F)) (c : Client)
        → sent (verify_with_registry lib registry secrets c).1 ≤ sent c + 3 * length secrets
    unfolding verify_with_registry aws_pre_pass
    verify_with_registry-bounded registry secrets c =
        let passed = aws_pre_pass lib registry secrets c in
        ground (
          arith,
          main_loop-sent registry passed.0 passed.1,
          pre_pass_loop-sent secrets 0 secrets c,
          unhandled_all secrets,
        )
