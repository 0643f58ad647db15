-- ===== src/Verify/Tests.antt =====
-- Runs of the verification of morf/verify, and its theorems at concrete inputs.
use Prim.Native.String
use mathlib.Core.List.{Memᴰ}
use morf.Prelude.{
  ℕ, ◌≡◌, refl, String, Bool, true, none, some, List, [], ◌∷◌, if◌then◌else◌, str_eq, ◌==◌, length,
  map, arith,
}
use morf.Finding.{SecretModel}
use morf.Verify.Providers.{Library, HttpRequest, HttpResponse}
use morf.Verify.Transport.{Client}
use morf.Verify.Evidence.Batch.{IsVerified, verify_with_registry-IsVerified}
use morf.Verify.{default_registry, verify_with_registry, verify_secrets}

program : Unit {0}
unfolding verify_with_registry verify_secrets
program = tt

abbrev has_len : ℕ → String → Bool
has_len n s = String.len s == n

abbrev lib : Library
lib = record {
  to_lower = λ s. s;
  trim_space = λ s. s;
  equal_fold = λ s t. str_eq s t;
  query_escape = λ s. s;
  path_escape = λ s. s;
  basic_auth = λ u p. u;
  is_valid_url = λ s. true;
  hash = λ s. s;
  is_akia = has_len 4;
  is_aws_pairable = has_len 4;
  is_aws_secret = has_len 6;
  sts_request =
      λ id key t. some (record { method = "GET"; url = String.◌++◌ id key; headers = [] });
}

abbrev response : ℕ → HttpResponse
response code = record {
  status_code = code;
  text = "<Arn>";
  as_slack = none;
  as_google = none;
  as_cloudflare = none;
}

-- GitHub rejects every token, and AWS accepts one pair
abbrev reply : HttpRequest → HttpResponse
reply r = if str_eq r.url "AKIAsecret" then response 200 else response 401

abbrev client : Client
client = record {
  cache = λ k. none;
  replies = λ n r. some (reply r);
  log = [];
  clock = λ n. n;
  ticks = 0;
}

abbrev finding : String → String → SecretModel ℕ
finding secret_type secret_string = record {
  type = "";
  line_no = 1;
  file_location = "a";
  secret_type = secret_type;
  secret_string = secret_string;
  secret_confidence = "";
  score = 0;
  tier = "";
  verification_status = "";
  masvs_id = "";
}

abbrev batch : List (SecretModel ℕ)
batch = finding "aws key" "AKIA" ∷ finding "aws key" "secret" ∷ finding "github" "token" ∷ []

abbrev statuses : List (SecretModel ℕ) → List String
statuses = map (λ s. s.verification_status)

three_outcomes :
    statuses (verify_with_registry lib default_registry batch client).0
    ≡ "active" ∷ "unknown" ∷ "inactive" ∷ []
unfolding program
three_outcomes = refl

disabled :
    statuses (verify_secrets lib "1" batch client).0 ≡ "unchecked" ∷ "unchecked" ∷ "unchecked" ∷ []
unfolding program
disabled = refl

-- The outcome for one type of secret is reused for another: Airtable is never asked.
reused_across_types :
    let (checked, after) =
      verify_with_registry lib default_registry
        (finding "github" "token" ∷ finding "airtable" "token" ∷ [])
        client in
    (statuses checked ≡ "inactive" ∷ "inactive" ∷ []) × (length after.log ≡ 1)
unfolding program
reused_across_types = (refl, refl)

abbrev accepted : SecretModel ℕ
accepted = record (finding "aws key" "AKIA") { verification_status = "active" }

is_accepted : Memᴰ accepted (verify_with_registry lib default_registry batch client).0
unfolding program
is_accepted = Memᴰ.head refl

verify_with_registry-IsVerified_example :
    IsVerified lib (verify_with_registry lib default_registry batch client).1.log accepted
verify_with_registry-IsVerified_example =
    verify_with_registry-IsVerified lib default_registry batch client accepted
      (λ key e held. absurd (ground (arith, held))) is_accepted refl
