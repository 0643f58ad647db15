-- ===== src/Auth/Tests.antt =====
-- Runs of morf/auth/middleware.go, and its theorems at concrete inputs.
use Prim.Native.String
use morf.Prelude.{
  ℕ, ◌-◌, ◌≡◌, refl, String, true, false, not, ◌&&◌, ◌||◌, Option, none, some, List, [], ◌∷◌,
  if◌then◌else◌, str_eq, ltb, All, arith,
}
use morf.Auth.Keys.{
  ApiKey, Clock, Cache, load, store, invalidate_api_key_cache, validate_api_key_cached,
}
use morf.Auth.Usage.{record_key_usage, flush_pending_usage}
use morf.Auth.Fresh.{Event, validate, invalidate, Answer, answers, IsAllowed, answers_refine}
use morf.Auth.Chain.{IsVouched, grants, admit_request-IsVouched}
use morf.Auth.{
  identity, Request, next, answered, is_sensitive_api_path, is_protected_data_path, Settings, Auth,
  World, admit_request,
}

program : Unit {0}
unfolding answers validate_api_key_cached invalidate_api_key_cache admit_request record_key_usage
    flush_pending_usage
program = tt

abbrev row : ApiKey
row = record {
  id = 7;
  key = "#k";
  name = "ci";
  scopes = "scan:write" ∷ [];
  rate_limit = 2;
  expires_at = some 1000;
  is_active = true;
}

-- the key "k" is deleted at time 100
abbrev database : ℕ → String → Option ApiKey
database t h = if str_eq h "#k" && ltb t 100 then some row else none

abbrev hash : String → String
hash s = String.◌++◌ "#" s

abbrev empty : Cache
empty h = none

abbrev at : ℕ → Clock
at t = record { check = t; query = t; keep = t; judge = t }

abbrev asked : List Event
asked = validate (at 50) "k" ∷ validate (at 105) "k" ∷ validate (at 110) "k" ∷ []

abbrev found : Answer → Option ApiKey
found a = a.found

-- with a lifetime of 60 the deleted key is served until 110
abbrev stale : List Answer
stale =
    record { clock = at 50; api_key = "k"; found = some row }
    ∷ record { clock = at 105; api_key = "k"; found = some row }
    ∷ record { clock = at 110; api_key = "k"; found = none }
    ∷ []

served_stale : answers database hash asked 60 empty ≡ stale
unfolding program
served_stale = refl

served_fresh :
    answers database hash
      (validate (at 50) "k" ∷ invalidate "k" ∷ validate (at 105) "k" ∷ [])
      60
      empty
    ≡ record { clock = at 50; api_key = "k"; found = some row }
      ∷ record { clock = at 105; api_key = "k"; found = none }
      ∷ []
unfolding program
served_fresh = refl

-- A request asks the database at 95 and keeps the answer at 101. The key is deleted and evicted from
-- the cache in between, and still served afterwards.
eviction_overtaken :
    (load 60 120 "#k" (store 60 101 "#k" row (invalidate_api_key_cache database hash "k" empty))).0
    ≡ some row
unfolding program
eviction_overtaken = refl

answers_refine_example : All (IsAllowed database hash 60) (answers database hash asked 60 empty)
answers_refine_example = answers_refine database hash 0 60 asked 60 (omega arith) (
  omega arith,
  omega arith,
  omega arith,
  omega arith,
  (
    omega arith,
    omega arith,
    omega arith,
    omega arith,
    (omega arith, omega arith, omega arith, omega arith, tt),
  ),
)

abbrev world : World ℕ
world = record {
  database = database;
  hash = hash;
  has_prefix = λ s p. str_eq (String.slice s 0 (String.len p)) p;
  new_limiter = λ interval burst. burst;
  allow_request = λ now tokens. (ltb 0 tokens, tokens - 1);
}

abbrev settings : Settings
settings = record { require_api_key = false; enforce_scopes = true }

abbrev start : Auth ℕ
start = record { ttl = 60; cache = empty; pending = []; limiters = λ i. none }

abbrev to_jira : Request
to_jira = record { header_key = ""; query_key = "k"; full_path = "/api/jira"; method = "POST" }

reaches_jira : (admit_request world settings to_jira (at 50) start).0 ≡ next (some (identity row))
unfolding program
reaches_jira = refl

without_key :
    (admit_request world settings (record to_jira { query_key = "" }) (at 50) start).0
    ≡ answered 401
unfolding program
without_key = refl

open_route :
    (admit_request world settings
      (record to_jira { query_key = ""; full_path = "/api/upload" })
      (at 50)
      start).0
    ≡ next none
unfolding program
open_route = refl

jira_guarded :
    (settings.require_api_key
      || (is_sensitive_api_path world.has_prefix to_jira
          || is_protected_data_path world.has_prefix to_jira))
    ≡ true
unfolding program is_sensitive_api_path
jira_guarded = refl

admit_request-IsVouched_example :
    (k : ApiKey) × (some (identity row) ≡ some (identity k))
    × IsVouched world 60 to_jira (at 50) k
    × ((not (true && is_sensitive_api_path world.has_prefix to_jira)
          || grants "scan:write" k.scopes)
        ≡ true)
admit_request-IsVouched_example =
    admit_request-IsVouched world 60 0 to_jira (at 50) start
      (λ h e held. absurd (ground (arith, held))) (omega arith) (omega arith) settings
      (some (identity row)) jira_guarded reaches_jira
