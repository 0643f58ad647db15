-- ===== src/Auth.antt =====
-- morf/auth/middleware.go: the chain of handlers that the router puts before a data route
-- (morf/router/routers.go), with the rate limit of a key. The database, the hash and the token bucket
-- are arguments.
pub mod Keys
pub mod Fresh
pub mod Chain
pub mod Usage
mod Tests
use Prim.Native.String
use morf.Prelude.{
  ℕ, zero, suc, ◌+◌, ◌/◌, ◌*◌, String, Bool, true, false, not, ◌&&◌, ◌||◌, Option, none, some, List,
  [], ◌∷◌, if◌then◌else◌, str_eq, ltb, ◌==◌, any,
}
use morf.Auth.Keys.{ApiKey, is_valid, Cache, Clock, validate_api_key_cached}
use morf.Auth.Usage.{Pending, record_key_usage}

-- the keys of the context that `APIKeyAuth` sets
pub record Identity : Type 0 where
  pub api_key_id : ℕ
  pub scopes : List String
  pub rate_limit : ℕ

-- `full_path` is the pattern of the matched route
pub record Request : Type 0 where
  pub header_key : String
  pub query_key : String
  pub full_path : String
  pub method : String

-- a request goes on to the next handler, with the identity in its context, or is answered
pub data Step : Type 0 where
  next : Option Identity → Step
  answered : ℕ → Step

module _ (has_prefix : String → String → Bool) where
  unfoldable pub is_sensitive_api_path : Request → Bool
  is_sensitive_api_path r =
      if str_eq r.full_path "/api/jira" || str_eq r.full_path "/api/slackscan"
      then true
      else has_prefix r.full_path "/api/patterns" && not (str_eq r.method "GET")

  unfoldable pub is_protected_data_path : Request → Bool
  is_protected_data_path r =
      has_prefix r.full_path "/api/results"
      || (has_prefix r.full_path "/api/secrets" || has_prefix r.full_path "/api/compare")

abbrev pub presented_key : Request → String
presented_key r = if str_eq r.header_key "" then r.query_key else r.header_key

abbrev pub identity : ApiKey → Identity
identity k = record { api_key_id = k.id; scopes = k.scopes; rate_limit = k.rate_limit }

unfoldable pub require_scope : String → Option Identity → Step
require_scope scope who = if str_eq scope "" then next who else elim who [
  | none ↦ answered 401
  | some i ↦
      if any (λ s. str_eq s "*" || str_eq s scope) i.scopes then next (some i) else answered 403
]

unfoldable pub require_scope_for_sensitive :
    (String → String → Bool) → String → Request → Option Identity → Step
unfolding is_sensitive_api_path require_scope
require_scope_for_sensitive has_prefix scope r who =
    if is_sensitive_api_path has_prefix r then require_scope scope who else next who

pub record Settings : Type 0 where
  pub require_api_key : Bool
  pub enforce_scopes : Bool

-- the state of the package: L is a token bucket
pub record Auth (L : Type 0) : Type 0 where
  pub ttl : ℕ
  pub cache : Cache
  pub pending : Pending
  pub limiters : ℕ → Option L

abbrev pub hour : ℕ
hour = 3_600_000_000_000

-- what the library functions and the database do
pub record World (L : Type 0) : Type 0 where
  pub database : ℕ → String → Option ApiKey
  pub hash : String → String
  pub has_prefix : String → String → Bool
  pub new_limiter : ℕ → ℕ → L
  pub allow_request : ℕ → L → Bool × L

module _ {L : Type 0} (w : World L) where
  unfoldable pub api_key_auth : Request → Clock → Auth L → Step × Auth L
  unfolding validate_api_key_cached record_key_usage
  api_key_auth r clock st =
      let (validated, cache) =
        validate_api_key_cached w.database w.hash st.ttl clock (presented_key r) st.cache in
      if str_eq (presented_key r) "" then (answered 401, st) else elim validated [
        | none ↦ (answered 401, record st { cache = cache })
        | some k ↦
            if not (is_valid clock.judge k) then (answered 401, record st { cache = cache }) else (
              next (some (identity k)),
              record st { cache = cache; pending = record_key_usage clock.judge k.id st.pending },
            )
      ]

  unfoldable pub api_key_auth_selective : Bool → Request → Clock → Auth L → Step × Auth L
  unfolding api_key_auth is_sensitive_api_path is_protected_data_path
  api_key_auth_selective enforce_all r clock st =
      if enforce_all
        || (is_sensitive_api_path w.has_prefix r || is_protected_data_path w.has_prefix r)
      then api_key_auth r clock st
      else (next none, st)

  unfoldable pub get_limiter : ℕ → ℕ → Auth L → L
  get_limiter key_id requests_per_hour st =
      let requests = if ltb 0 requests_per_hour then requests_per_hour else 100 in
      elim (st.limiters key_id) [
        | some limiter ↦ limiter
        | none ↦ w.new_limiter (hour / requests) requests
      ]

  unfoldable pub rate_limit_middleware : ℕ → Option Identity → Auth L → Step × Auth L
  unfolding get_limiter
  rate_limit_middleware now none st = (next none, st)
  rate_limit_middleware now (some i) st =
      let (allowed, limiter) = w.allow_request now (get_limiter i.api_key_id i.rate_limit st) in
      let limited = record st {
        limiters = λ other. if other == i.api_key_id then some limiter else st.limiters other;
      } in
      (if allowed then next (some i) else answered 429, limited)

  -- the chain of handlers before a data route, in the order of `InitRouters`
  unfoldable pub admit_request : Settings → Request → Clock → Auth L → Step × Auth L
  unfolding api_key_auth_selective rate_limit_middleware require_scope_for_sensitive
  admit_request settings r clock st =
      let (who, authenticated) = api_key_auth_selective settings.require_api_key r clock st in
      elim who [
        | answered status ↦ (answered status, authenticated)
        | next identified ↦
            let (limited, spent) = rate_limit_middleware clock.judge identified authenticated in
            elim limited [
              | answered status ↦ (answered status, spent)
              | next admitted ↦ (
                if settings.enforce_scopes
                    then require_scope_for_sensitive w.has_prefix "scan:write" r admitted
                    else next admitted,
                spent,
              )
            ]
      ]
