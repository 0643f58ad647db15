-- ===== src/Verify/Evidence/Pairs.antt =====
-- The evidence behind the pairing of AWS keys in morf/verify/aws.go.
use morf.Prelude.{
  if◌then◌else◌, ◌≡◌, refl, ap, ◌∙◌, String, Bool, true, false, some, List, [], ◌∷◌, arith, inl,
  inr, Bool-cases, Option-cases, str_eq, eq_iff, not, ◌&&◌,
}
use morf.Verify.Providers.{Library, status_active, status_unknown, status_inactive}
use morf.Verify.Transport.{Client, as_sent, cache_get, do_request, now, tick}
use morf.Verify.Aws.{verify_pair, try_candidate, candidate_loop}
use morf.Verify.Accepted.{sts_status-active}
use morf.Verify.Evidence.{
  pair_text, IsProven, IsBacked, Step, IsProven-later, stay, and_then, cache_get-Step,
  cache_get-IsProven, cache_set-Step, do_request-Step, do_request-sent,
}

undecided :
    (b : Bool) → str_eq (if b then status_inactive else status_unknown) status_active ≡ false
undecided true = refl
undecided false = refl

module _ (lib : Library) where
  pub verify_pair-Step : (id key : String) (c : Client) → Step lib c (verify_pair lib id key c).1
  unfolding verify_pair
  verify_pair-Step id key c = elim (Option-cases (lib.sts_request id key (now c))) [
    | inl e ↦ rw (verify_pair, e) (record { grows = λ x h. h; backed = λ b. b })
    | inr (req, e) ↦
        let first : Step lib c (tick c) = record { grows = λ x h. h; backed = λ b. b } in
        let step = and_then lib first (do_request-Step lib req (tick c)) in
        elim (Option-cases (do_request req (tick c)).0) [
          | inl d ↦ rw (verify_pair, e, d) step
          | inr (resp, d) ↦ rw (verify_pair, e, d) step
        ]
  ]

  pub verify_pair-IsProven :
      (id key : String) (c : Client)
      → (verify_pair lib id key c).0 ≡ some status_active
      → IsProven lib (verify_pair lib id key c).1.log (lib.hash (pair_text lib id key))
  unfolding verify_pair
  verify_pair-IsProven id key c active = elim (Option-cases (lib.sts_request id key (now c))) [
    | inl e ↦ absurd (ground (arith, e, active))
    | inr (req, e) ↦ elim (Option-cases (do_request req (tick c)).0) [
      | inl d ↦ absurd (ground (arith, e, d, active))
      | inr (resp, d) ↦
          rw (verify_pair, e, d)
            (
              as_sent req,
              resp,
              do_request-sent lib req (tick c) resp d,
              sts_status-active resp (ground (arith, e, d, active)),
              inr (id, key, now c, req, e, refl, refl),
            )
    ]
  ]

  pub try_candidate-Step :
      (id key : String) (c : Client) → IsBacked lib c → Step lib c (try_candidate lib id key c).1
  unfolding try_candidate
  try_candidate-Step id key c backed =
      let hashed = lib.hash (pair_text lib id key) in
      let asked = cache_get hashed c in
      let asked_step = cache_get-Step lib hashed c in
      let tried = verify_pair lib id key asked.1 in
      let step = and_then lib asked_step (verify_pair-Step id key asked.1) in
      elim (Option-cases asked.0) [
        | inr (s, e) ↦ rw (try_candidate, e) asked_step
        | inl e ↦ elim (Option-cases tried.0) [
          | inl d ↦ rw (try_candidate, e, d) step
          | inr (s, d) ↦
              rw (try_candidate, e, d)
                (and_then lib step (
                  cache_set-Step lib hashed s tried.1
                    λ same. verify_pair-IsProven id key asked.1 (d ∙ ap some same)))
        ]
      ]

  pub try_candidate-IsProven :
      (id key : String) (c : Client)
      → IsBacked lib c
      → (try_candidate lib id key c).0 ≡ some status_active
      → IsProven lib (try_candidate lib id key c).1.log (lib.hash (pair_text lib id key))
  unfolding try_candidate
  try_candidate-IsProven id key c backed active =
      let hashed = lib.hash (pair_text lib id key) in
      let asked = cache_get hashed c in
      let tried = verify_pair lib id key asked.1 in
      elim (Option-cases asked.0) [
        | inr (s, e) ↦
            rw (try_candidate, e)
              (IsProven-later lib hashed (cache_get-Step lib hashed c)
                (cache_get-IsProven lib hashed c backed (ground (arith, e, active))))
        | inl e ↦ elim (Option-cases tried.0) [
          | inl d ↦ absurd (ground (arith, e, d, active))
          | inr (s, d) ↦
              let proven = verify_pair-IsProven id key asked.1 (ground (arith, e, d, active)) in
              rw (try_candidate, e, d)
                (IsProven-later lib hashed (cache_set-Step lib hashed s tried.1 λ same. proven)
                  proven)
        ]
      ]

  pub candidate_loop-Step :
      (id : String) (keys : List String) (inactive unknown : Bool) (c : Client)
      → IsBacked lib c
      → Step lib c (candidate_loop lib id keys inactive unknown c).1
  unfolding candidate_loop
  candidate_loop-Step id [] inactive unknown c backed = stay lib c
  candidate_loop-Step id (key ∷ rest) inactive unknown c backed =
      let tried = try_candidate lib id key c in
      let step = try_candidate-Step id key c backed in
      let kept = step.backed backed in
      elim (Option-cases tried.0) [
        | inl e ↦
            rw (candidate_loop, e)
              (and_then lib step (candidate_loop-Step id rest inactive true tried.1 kept))
        | inr (s, e) ↦ elim (Bool-cases (str_eq s status_active)) [
          | inl a ↦ rw (candidate_loop, e, a) step
          | inr a ↦ elim (Bool-cases (str_eq s status_inactive)) [
            | inl b ↦
                rw (candidate_loop, e, a, b)
                  (and_then lib step (candidate_loop-Step id rest true unknown tried.1 kept))
            | inr b ↦
                rw (candidate_loop, e, a, b)
                  (and_then lib step (candidate_loop-Step id rest inactive true tried.1 kept))
          ]
        ]
      ]

  pub candidate_loop-IsProven :
      (id : String) (keys : List String) (inactive unknown : Bool) (c : Client)
      → IsBacked lib c
      → (candidate_loop lib id keys inactive unknown c).0 ≡ status_active
      → (key : String) × IsProven lib
          (candidate_loop lib id keys inactive unknown c).1.log
          (lib.hash (pair_text lib id key))
  unfolding candidate_loop
  candidate_loop-IsProven id [] inactive unknown c backed active = absurd (
      ground (
        arith,
        undecided (inactive && not unknown),
        (eq_iff (if inactive && not unknown then status_inactive else status_unknown)
              status_active).1
            active,
      ))
  candidate_loop-IsProven id (key ∷ rest) inactive unknown c backed active =
      let tried = try_candidate lib id key c in
      let kept = (try_candidate-Step id key c backed).backed backed in
      elim (Option-cases tried.0) [
        | inl e ↦
            rw (candidate_loop, e)
              (candidate_loop-IsProven id rest inactive true tried.1 kept
                (ground (arith, e, active)))
        | inr (s, e) ↦ elim (Bool-cases (str_eq s status_active)) [
          | inl a ↦
              rw (candidate_loop, e, a)
                (
                  key,
                  try_candidate-IsProven id key c backed
                      (e ∙ ap some ((eq_iff s status_active).0 a)),
                )
          | inr a ↦ elim (Bool-cases (str_eq s status_inactive)) [
            | inl b ↦
                rw (candidate_loop, e, a, b)
                  (candidate_loop-IsProven id rest true unknown tried.1 kept
                    (ground (arith, e, a, b, active)))
            | inr b ↦
                rw (candidate_loop, e, a, b)
                  (candidate_loop-IsProven id rest inactive true tried.1 kept
                    (ground (arith, e, a, b, active)))
          ]
        ]
      ]
