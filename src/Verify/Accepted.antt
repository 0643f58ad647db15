-- ===== src/Verify/Accepted.antt =====
-- The verifiers of morf/verify/providers.go and morf/verify/aws.go call a secret active only on a
-- response with status 200.
use morf.Prelude.{
  ◌||◌, ℕ, ◌≡◌, refl, String, false, arith, inl, inr, Bool-cases, Option-cases, str_eq, eq_iff,
  ◌==◌,
}
use morf.Verify.Providers.{
  Library, Provider, HttpResponse, status_active, slack_status, google_status, cloudflare_status,
  provider_status, slack, google, cloudflare, datadog, figma, github, gitlab, stripe, twilio,
  sendgrid, npm, mailgun, digitalocean, openai, anthropic, pagerduty, discord_bot, telegram_bot,
  mapbox, square, heroku, notion, airtable, by_code, says_invalid,
}
use morf.Verify.Aws.{sts_status}
use morf.Worker.Retry.{contains}

-- a status that is not "active" unless the response is a 200
needs_200 :
    (r : HttpResponse) (status : String)
    → ((r.status_code == 200) ≡ false → str_eq status "active" ≡ false)
    → status ≡ "active"
    → r.status_code ≡ 200
needs_200 r status h e = elim (Bool-cases (r.status_code == 200)) [
  | inl ok ↦ ground (arith, ok)
  | inr other ↦ absurd (ground (arith, h other, (eq_iff status "active").1 e))
]

by_code-active :
    (lib : Library) (bad : ℕ) (r : HttpResponse)
    → by_code lib bad r.status_code ≡ status_active
    → r.status_code ≡ 200
by_code-active lib bad r = needs_200 r _ λ other. elim (Bool-cases (r.status_code == bad)) [
  | inl e ↦ rw (other, e) refl
  | inr e ↦ rw (other, e) refl
]

slack_status-active :
    (lib : Library) (r : HttpResponse) → slack_status lib r ≡ status_active → r.status_code ≡ 200
unfolding slack_status
slack_status-active lib r = needs_200 r _ λ other. rw (slack_status, other) refl

google_status-active :
    (lib : Library) (r : HttpResponse) → google_status lib r ≡ status_active → r.status_code ≡ 200
unfolding google_status
google_status-active lib r = needs_200 r _ λ other. elim (Bool-cases (r.status_code == 400)) [
  | inr e ↦ rw (google_status, other, e) refl
  | inl e ↦ elim (Option-cases r.as_google) [
    | inl b ↦ rw (google_status, other, e, b) refl
    | inr (body, b) ↦ elim (Bool-cases (says_invalid lib body)) [
      | inl d ↦ rw (google_status, other, e, b, d) refl
      | inr d ↦ rw (google_status, other, e, b, d) refl
    ]
  ]
]

cloudflare_status-active :
    (lib : Library) (r : HttpResponse)
    → cloudflare_status lib r ≡ status_active
    → r.status_code ≡ 200
unfolding cloudflare_status
cloudflare_status-active lib r = needs_200 r _ λ other. elim (Bool-cases (r.status_code == 401)) [
  | inl e ↦ rw (cloudflare_status, other, e) refl
  | inr e ↦ rw (cloudflare_status, other, e) refl
]

pub sts_status-active : (r : HttpResponse) → sts_status r ≡ status_active → r.status_code ≡ 200
unfolding sts_status
sts_status-active r = needs_200 r _ λ other. elim (Bool-cases (r.status_code == 403)) [
  | inr e ↦ rw (sts_status, other, e) refl
  | inl e ↦
      elim (Bool-cases
        (contains r.text "InvalidClientTokenId" || contains r.text "SignatureDoesNotMatch")) [
          | inl d ↦ rw (sts_status, other, e, d) refl
          | inr d ↦ rw (sts_status, other, e, d) refl
        ]
]

pub provider_status-active :
    (lib : Library) (p : Provider) (r : HttpResponse)
    → provider_status lib p r ≡ status_active
    → r.status_code ≡ 200
unfolding provider_status
provider_status-active lib slack r = slack_status-active lib r
provider_status-active lib google r = google_status-active lib r
provider_status-active lib cloudflare r = cloudflare_status-active lib r
provider_status-active lib datadog r = by_code-active lib 403 r
provider_status-active lib figma r = by_code-active lib 403 r
provider_status-active lib github r = by_code-active lib 401 r
provider_status-active lib gitlab r = by_code-active lib 401 r
provider_status-active lib stripe r = by_code-active lib 401 r
provider_status-active lib twilio r = by_code-active lib 401 r
provider_status-active lib sendgrid r = by_code-active lib 401 r
provider_status-active lib npm r = by_code-active lib 401 r
provider_status-active lib mailgun r = by_code-active lib 401 r
provider_status-active lib digitalocean r = by_code-active lib 401 r
provider_status-active lib openai r = by_code-active lib 401 r
provider_status-active lib anthropic r = by_code-active lib 401 r
provider_status-active lib pagerduty r = by_code-active lib 401 r
provider_status-active lib discord_bot r = by_code-active lib 401 r
provider_status-active lib telegram_bot r = by_code-active lib 401 r
provider_status-active lib mapbox r = by_code-active lib 401 r
provider_status-active lib square r = by_code-active lib 401 r
provider_status-active lib heroku r = by_code-active lib 401 r
provider_status-active lib notion r = by_code-active lib 401 r
provider_status-active lib airtable r = by_code-active lib 401 r
