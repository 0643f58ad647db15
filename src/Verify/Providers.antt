-- ===== src/Verify/Providers.antt =====
-- The request that each verifier of morf/verify/providers.go sends, and how it reads the response.
-- The escapes, the basic-auth header and the reading of JSON are the Go library's.
use Prim.Native.String
use morf.Prelude.{
  ℕ, String, Bool, not, ◌&&◌, ◌||◌, Option, none, some, List, [], ◌∷◌, if◌then◌else◌, str_eq, ◌==◌,
}
use morf.Worker.Retry.{contains}

abbrev pub status_active : String
status_active = "active"

abbrev pub status_inactive : String
status_inactive = "inactive"

abbrev pub status_unknown : String
status_unknown = "unknown"

abbrev pub status_unchecked : String
status_unchecked = "unchecked"

pub record HttpRequest : Type 0 where
  pub method : String
  pub url : String
  pub headers : List (String × String)

pub record SlackBody : Type 0 where
  pub ok : Bool
  pub error : String

pub record GoogleBody : Type 0 where
  pub status : String
  pub message : String
  pub reasons : List String

pub record CloudflareBody : Type 0 where
  pub success : Bool
  pub status : String

-- a response, and what the JSON decoder reads in its body
pub record HttpResponse : Type 0 where
  pub status_code : ℕ
  pub text : String
  pub as_slack : Option SlackBody
  pub as_google : Option GoogleBody
  pub as_cloudflare : Option CloudflareBody

-- functions of the Go library, and of the signing of requests to AWS
pub record Library : Type 0 where
  pub to_lower : String → String
  pub trim_space : String → String
  pub equal_fold : String → String → Bool
  pub query_escape : String → String
  pub path_escape : String → String
  pub basic_auth : String → String → String
  pub is_valid_url : String → Bool
  pub hash : String → String
  pub is_akia : String → Bool
  pub is_aws_pairable : String → Bool
  pub is_aws_secret : String → Bool
  pub sts_request : String → String → ℕ → Option HttpRequest

-- the verifiers that send one request for one secret
pub data Provider : Type 0 where
  github gitlab slack stripe google twilio sendgrid npm : Provider
  cloudflare mailgun digitalocean openai anthropic datadog pagerduty discord_bot : Provider
  telegram_bot mapbox square heroku figma notion airtable : Provider

abbrev get : String → List (String × String) → HttpRequest
get url headers = record { method = "GET"; url = url; headers = headers }

module _ (lib : Library) where
  unfoldable pub provider_request : Provider → String → HttpRequest
  provider_request github secret = get "https://api.github.com/user" (
      ("Authorization", String.◌++◌ "Bearer " secret)
      ∷ ("Accept", "application/vnd.github+json")
      ∷ [])
  provider_request gitlab secret =
      get "https://gitlab.com/api/v4/user" (("Authorization", String.◌++◌ "Bearer " secret) ∷ [])
  provider_request slack secret =
      get "https://slack.com/api/auth.test" (("Authorization", String.◌++◌ "Bearer " secret) ∷ [])
  provider_request stripe secret =
      get "https://api.stripe.com/v1/balance" (("Authorization", lib.basic_auth secret "") ∷ [])
  provider_request google secret =
      get
        (String.◌++◌
          "https://www.googleapis.com/books/v1/volumes?country=US&q=morf&maxResults=1&key="
          (lib.query_escape secret))
        []
  provider_request twilio secret =
      get "https://api.twilio.com/2010-04-01/Accounts.json"
        (("Authorization", lib.basic_auth secret "") ∷ [])
  provider_request sendgrid secret =
      get "https://api.sendgrid.com/v3/scopes"
        (("Authorization", String.◌++◌ "Bearer " secret) ∷ [])
  provider_request npm secret =
      get "https://registry.npmjs.org/-/whoami"
        (("Authorization", String.◌++◌ "Bearer " secret) ∷ [])
  provider_request cloudflare secret =
      get "https://api.cloudflare.com/client/v4/user/tokens/verify"
        (("Authorization", String.◌++◌ "Bearer " secret) ∷ [])
  provider_request mailgun secret =
      get "https://api.mailgun.net/v3/domains" (("Authorization", lib.basic_auth "api" secret) ∷ [])
  provider_request digitalocean secret =
      get "https://api.digitalocean.com/v2/account"
        (("Authorization", String.◌++◌ "Bearer " secret) ∷ [])
  provider_request openai secret =
      get "https://api.openai.com/v1/models" (("Authorization", String.◌++◌ "Bearer " secret) ∷ [])
  provider_request anthropic secret =
      get "https://api.anthropic.com/v1/models"
        (("x-api-key", secret) ∷ ("anthropic-version", "2023-06-01") ∷ [])
  provider_request datadog secret =
      get "https://api.datadoghq.com/api/v1/validate" (("DD-API-KEY", secret) ∷ [])
  provider_request pagerduty secret =
      get "https://api.pagerduty.com/users?limit=1"
        (("Authorization", String.◌++◌ "Token token=" secret) ∷ [])
  provider_request discord_bot secret =
      get "https://discord.com/api/v10/users/@me"
        (("Authorization", String.◌++◌ "Bot " secret) ∷ [])
  provider_request telegram_bot secret =
      get
        (String.◌++◌ "https://api.telegram.org/bot" (String.◌++◌ (lib.path_escape secret) "/getMe"))
        []
  provider_request mapbox secret =
      get (String.◌++◌ "https://api.mapbox.com/tokens/v2?access_token=" (lib.query_escape secret))
        []
  provider_request square secret =
      get "https://connect.squareup.com/v2/locations"
        (("Authorization", String.◌++◌ "Bearer " secret) ∷ [])
  provider_request heroku secret = get "https://api.heroku.com/account" (
      ("Authorization", String.◌++◌ "Bearer " secret)
      ∷ ("Accept", "application/vnd.heroku+json; version=3")
      ∷ [])
  provider_request figma secret = get "https://api.figma.com/v1/me" (("X-Figma-Token", secret) ∷ [])
  provider_request notion secret =
      get "https://api.notion.com/v1/users/me"
        (("Authorization", String.◌++◌ "Bearer " secret) ∷ ("Notion-Version", "2022-06-28") ∷ [])
  provider_request airtable secret =
      get "https://api.airtable.com/v0/meta/whoami"
        (("Authorization", String.◌++◌ "Bearer " secret) ∷ [])

  abbrev reason_text : List String → String
  reason_text [] = ""
  reason_text (r ∷ rest) = String.◌++◌ " " (String.◌++◌ (lib.to_lower r) (reason_text rest))

  abbrev pub says_invalid : GoogleBody → Bool
  says_invalid body =
      let reason =
        String.◌++◌ (lib.to_lower (String.◌++◌ body.status (String.◌++◌ " " body.message)))
          (reason_text body.reasons) in
      contains reason "keyinvalid"
      || (contains reason "api_key_invalid" || contains reason "api key not valid")

  abbrev pub by_code : ℕ → ℕ → String
  by_code rejected code =
      if code == 200
      then status_active
      else if code == rejected
      then status_inactive
      else status_unknown

  unfoldable pub slack_status : HttpResponse → String
  slack_status resp = if not (resp.status_code == 200) then status_unknown else elim resp.as_slack [
    | none ↦ status_unknown
    | some body ↦
        if body.ok
        then status_active
        else if not (str_eq body.error "")
        then status_inactive
        else status_unknown
  ]

  unfoldable pub google_status : HttpResponse → String
  google_status resp =
      if resp.status_code == 200
      then status_active
      else if resp.status_code == 400
      then elim resp.as_google [
        | none ↦ status_unknown
        | some body ↦ if says_invalid body then status_inactive else status_unknown
      ]
      else status_unknown

  unfoldable pub cloudflare_status : HttpResponse → String
  cloudflare_status resp =
      if resp.status_code == 401
      then status_inactive
      else if not (resp.status_code == 200)
      then status_unknown
      else elim resp.as_cloudflare [
        | none ↦ status_unknown
        | some body ↦
            if body.success && lib.equal_fold body.status "active"
            then status_active
            else status_inactive
      ]

  unfoldable pub provider_status : Provider → HttpResponse → String
  unfolding slack_status google_status cloudflare_status
  provider_status slack resp = slack_status resp
  provider_status google resp = google_status resp
  provider_status cloudflare resp = cloudflare_status resp
  provider_status datadog resp = by_code 403 resp.status_code
  provider_status figma resp = by_code 403 resp.status_code
  provider_status _ resp = by_code 401 resp.status_code
