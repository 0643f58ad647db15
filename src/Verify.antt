-- ===== src/Verify.antt =====
-- morf/verify/verify.go and morf/verify/registry.go: which verifier checks a finding, and the status
-- that it gets. The string functions of the Go library are those of Providers.
pub mod Providers
pub mod Transport
pub mod Aws
pub mod Accepted
pub mod Evidence
pub mod Bounds
mod Tests
use morf.Prelude.{
  ℕ, zero, suc, String, Bool, true, false, not, ◌&&◌, ◌||◌, Option, none, some, List, [], ◌∷◌,
  if◌then◌else◌, str_eq, any, map,
}
use morf.Finding.{SecretModel}
use morf.Worker.Retry.{contains}
use morf.Verify.Providers.{
  status_active, status_inactive, status_unknown, status_unchecked, Library, Provider, github,
  gitlab, slack, stripe, google, twilio, sendgrid, npm, cloudflare, mailgun, digitalocean, openai,
  anthropic, datadog, pagerduty, discord_bot, telegram_bot, mapbox, square, heroku, figma, notion,
  airtable, provider_request, provider_status,
}
use morf.Verify.Transport.{Client, cache_get, cache_set, do_request}
use morf.Verify.Aws.{collect_aws_secret_candidates, candidate_loop}

pub data Verifier : Type 0 where
  provider : Provider → Verifier
  aws_verifier : Verifier

pub record RegistryEntry : Type 0 where
  pub match : String
  pub verifier : Verifier

abbrev entry : String → Provider → RegistryEntry
entry match p = record { match = match; verifier = provider p }

unfoldable pub default_registry : List RegistryEntry
default_registry =
    entry "github" github
    ∷ entry "gitlab" gitlab
    ∷ entry "slack" slack
    ∷ entry "stripe" stripe
    ∷ entry "google" google
    ∷ entry "gcp" google
    ∷ entry "twilio" twilio
    ∷ entry "sendgrid" sendgrid
    ∷ entry "npm" npm
    ∷ entry "cloudflare" cloudflare
    ∷ entry "mailgun" mailgun
    ∷ entry "digitalocean" digitalocean
    ∷ record { match = "aws"; verifier = aws_verifier }
    ∷ entry "openai" openai
    ∷ entry "anthropic" anthropic
    ∷ entry "datadog" datadog
    ∷ entry "pagerduty" pagerduty
    ∷ entry "discord" discord_bot
    ∷ entry "telegram" telegram_bot
    ∷ entry "mapbox" mapbox
    ∷ entry "square" square
    ∷ entry "heroku" heroku
    ∷ entry "figma" figma
    ∷ entry "notion" notion
    ∷ entry "airtable" airtable
    ∷ []

abbrev first_match : String → List RegistryEntry → Option Verifier
first_match st [] = none
first_match st (e ∷ rest) =
    let later = first_match st rest in if contains st e.match then some e.verifier else later

abbrev pub is_aws : RegistryEntry → Bool
is_aws e = elim e.verifier [ aws_verifier ↦ true | provider p ↦ false ]

module _ (lib : Library) where
  unfoldable pub lookup : List RegistryEntry → String → Option Verifier
  lookup registry secret_type =
      let st = lib.to_lower (lib.trim_space secret_type) in
      if str_eq st "" then none else first_match st registry

  -- `Verify` of a verifier; an error is `none`
  unfoldable pub verify : Verifier → String → Client → Option String × Client
  unfolding provider_request provider_status do_request
  verify aws_verifier secret c = (some status_unknown, c)
  verify (provider p) secret c =
      let req = provider_request lib p secret in
      if not (lib.is_valid_url req.url)
      then (none, c)
      else let (resp, sent) = do_request req c in
        elim resp [ none ↦ (none, sent) | some r ↦ (some (provider_status lib p r), sent) ]

  abbrev pub or_unknown : Option String → String
  or_unknown none = status_unknown
  or_unknown (some s) =
      if str_eq s status_active || (str_eq s status_inactive || str_eq s status_unknown)
      then s
      else status_unknown

  -- one round of the main loop, for a finding that the pre-pass has not handled
  unfoldable pub check_secret : List RegistryEntry → String → String → Client → String × Client
  unfolding lookup verify cache_get cache_set
  check_secret registry secret_type candidate c = elim (lookup registry secret_type) [
    | none ↦ (status_unknown, c)
    | some v ↦
        if str_eq candidate ""
        then (status_unknown, c)
        else let key = lib.hash candidate in
          let (cached, asked) = cache_get key c in
          elim cached [
            | some s ↦ (s, asked)
            | none ↦
                let (outcome, sent) = verify v candidate asked in
                (or_unknown outcome, cache_set key (or_unknown outcome) sent)
          ]
  ]

  module _ {F : Type 0} where
    abbrev pub with_status : SecretModel F → String → SecretModel F
    with_status s status = record s { verification_status = status }

    -- a long-term access key id, which the pre-pass owns
    unfoldable pub is_pairable : SecretModel F → Bool
    is_pairable s =
        contains (lib.to_lower s.secret_type) "aws"
        && lib.is_aws_pairable (lib.trim_space s.secret_string)

    -- the pre-pass over the findings from index `i` on, with what it has handled
    unfoldable pub pre_pass_loop :
        List (SecretModel F)
        → ℕ
        → List (SecretModel F)
        → Client
        → List (Bool × SecretModel F) × Client
    unfolding is_pairable collect_aws_secret_candidates candidate_loop
    pre_pass_loop secrets i [] c = ([], c)
    pre_pass_loop secrets i (s ∷ rest) c =
        let candidates = collect_aws_secret_candidates lib s i secrets in
        let (status, tried) =
          candidate_loop lib (lib.trim_space s.secret_string) candidates false false c in
        let (skipped, skipped_client) = pre_pass_loop secrets (suc i) rest c in
        let (later, client) = pre_pass_loop secrets (suc i) rest tried in
        if not (is_pairable s)
        then ((false, s) ∷ skipped, skipped_client)
        else ((true, with_status s status) ∷ later, client)

    unfoldable pub aws_pre_pass :
        List RegistryEntry → List (SecretModel F) → Client → List (Bool × SecretModel F) × Client
    unfolding pre_pass_loop
    aws_pre_pass registry secrets c =
        if any is_aws registry
        then pre_pass_loop secrets 0 secrets c
        else (map (λ s. (false, s)) secrets, c)

    unfoldable pub main_loop :
        List RegistryEntry → List (Bool × SecretModel F) → Client → List (SecretModel F) × Client
    unfolding check_secret
    main_loop registry [] c = ([], c)
    main_loop registry ((true, s) ∷ rest) c =
        let (later, client) = main_loop registry rest c in (s ∷ later, client)
    main_loop registry ((false, s) ∷ rest) c =
        let (status, checked) = check_secret registry s.secret_type s.secret_string c in
        let (later, client) = main_loop registry rest checked in
        (with_status s status ∷ later, client)

    unfoldable pub verify_with_registry :
        List RegistryEntry → List (SecretModel F) → Client → List (SecretModel F) × Client
    unfolding aws_pre_pass main_loop
    verify_with_registry registry secrets c =
        let (passed, client) = aws_pre_pass registry secrets c in main_loop registry passed client

    abbrev unchecked : List (SecretModel F) → List (SecretModel F)
    unchecked [] = []
    unchecked (s ∷ rest) = with_status s status_unchecked ∷ unchecked rest

    -- `enabled` is the value of MORF_ENABLE_VERIFICATION
    unfoldable pub verify_secrets :
        String → List (SecretModel F) → Client → List (SecretModel F) × Client
    unfolding verify_with_registry default_registry
    verify_secrets enabled secrets c =
        if not (str_eq enabled "true")
        then (unchecked secrets, c)
        else verify_with_registry default_registry secrets c
