-- ===== src/Auth/Chain.antt =====
-- What a request has shown when the chain of handlers of morf/auth/middleware.go lets it through.
use morf.Prelude.{
  if◌then◌else◌, ◌⊎◌, List, ℕ, ◌≤◌, ◌≡◌, refl, ◌∙◌, String, Bool, true, false, not, ◌&&◌, ◌||◌,
  Option, none, some, str_eq, arith, inl, inr, Bool-cases, Option-cases, any,
}
use morf.Auth.Keys.{ApiKey, is_valid, Clock, validate_api_key_cached}
use morf.Auth.Fresh.{IsRecent, IsFresh, IsAllowed-IsRecent, validate_api_key_cached-IsAllowed}
use morf.Auth.{
  Identity, identity, Request, Step, next, answered, is_sensitive_api_path, is_protected_data_path,
  presented_key, require_scope, require_scope_for_sensitive, Settings, Auth, World, api_key_auth,
  api_key_auth_selective, rate_limit_middleware, admit_request,
}

Step-cases : (s : Step) → ((n : ℕ) × (s ≡ answered n)) ⊎ ((i : Option Identity) × (s ≡ next i))
Step-cases (answered n) = inl (n, refl)
Step-cases (next i) = inr (i, refl)

abbrev pub grants : String → List String → Bool
grants scope scopes = any (λ s. str_eq s "*" || str_eq s scope) scopes

module _ {L : Type 0} (w : World L) (window : ℕ) where
  -- the presented key is not empty, and there is a valid row of the database behind it
  abbrev pub IsVouched : Request → Clock → ApiKey → Type 0
  IsVouched r clock k =
      (str_eq (presented_key r) "" ≡ false)
      × IsRecent w.database w.hash window clock.check clock.query (w.hash (presented_key r)) k
      × (is_valid clock.judge k ≡ true)

  module _ (now : ℕ) (r : Request) (clock : Clock) (st : Auth L)
      (fresh : IsFresh w.database w.hash window now st.cache) (start : now ≤ clock.check)
      (asked : clock.check ≤ clock.query) where
    api_key_auth-IsVouched :
        (who : Option Identity)
        → (api_key_auth w r clock st).0 ≡ next who
        → (k : ApiKey) × (who ≡ some (identity k)) × IsVouched r clock k
    unfolding api_key_auth
    api_key_auth-IsVouched who passed =
        let key = presented_key r in
        elim (Bool-cases (str_eq key "")) [
          | inl e ↦ absurd (ground (arith, e, passed))
          | inr present ↦
              elim (Option-cases
                (validate_api_key_cached w.database w.hash st.ttl clock key st.cache).0) [
                  | inl e ↦ absurd (ground (arith, present, e, passed))
                  | inr (k, e) ↦ elim (Bool-cases (is_valid clock.judge k)) [
                    | inr bad ↦ absurd (ground (arith, present, e, bad, passed))
                    | inl good ↦ (
                      k,
                      ground (arith, present, e, good, passed),
                      (
                        present,
                        IsAllowed-IsRecent w.database w.hash window
                            (record {
                              clock = clock;
                              api_key = key;
                              found =
                                  (validate_api_key_cached w.database w.hash st.ttl clock key
                                    st.cache).0;
                            })
                            k e
                            (validate_api_key_cached-IsAllowed w.database w.hash window st.ttl 0 now
                              clock key st.cache fresh start asked),
                        good,
                      ),
                    )
                  ]
                ]
        ]

    api_key_auth_selective-IsVouched :
        (all : Bool) (who : Option Identity)
        → (all || (is_sensitive_api_path w.has_prefix r || is_protected_data_path w.has_prefix r))
          ≡ true
        → (api_key_auth_selective w all r clock st).0 ≡ next who
        → (k : ApiKey) × (who ≡ some (identity k)) × IsVouched r clock k
    unfolding api_key_auth_selective
    api_key_auth_selective-IsVouched all who guarded passed =
        api_key_auth-IsVouched who (ground (arith, guarded, passed))

    rate_limit_middleware-keeps :
        (time : ℕ) (who admitted : Option Identity) (st2 : Auth L)
        → (rate_limit_middleware w time who st2).0 ≡ next admitted
        → admitted ≡ who
    unfolding rate_limit_middleware
    rate_limit_middleware-keeps time none admitted st2 passed = ground (arith, passed)
    rate_limit_middleware-keeps time (some i) admitted st2 passed = ground (arith, passed)

    chain-grants :
        (settings : Settings) (who : Option Identity) (k : ApiKey)
        → (if settings.enforce_scopes
            then require_scope_for_sensitive w.has_prefix "scan:write" r (some (identity k))
            else next (some (identity k)))
          ≡ next who
        → (who ≡ some (identity k))
          × ((not (settings.enforce_scopes && is_sensitive_api_path w.has_prefix r)
                || grants "scan:write" k.scopes)
              ≡ true)
    unfolding require_scope_for_sensitive require_scope
    chain-grants settings who k passed = elim (Bool-cases settings.enforce_scopes) [
      | inr off ↦ ground (arith, off, passed)
      | inl on ↦ elim (Bool-cases (is_sensitive_api_path w.has_prefix r)) [
        | inr mild ↦ ground (arith, on, mild, passed)
        | inl sensitive ↦ elim (Bool-cases (grants "scan:write" k.scopes)) [
          | inr refused ↦ absurd (ground (arith, on, sensitive, refused, passed))
          | inl granted ↦ (ground (arith, on, sensitive, granted, passed), ground (arith, granted))
        ]
      ]
    ]

    -- Let the cache be fresh and the clock not run backwards. If a request whose route is guarded,
    -- because every route is, or because it is sensitive or holds scan data, reaches its handler,
    -- then it has presented a key whose row the database held at most a window ago, which is active
    -- and not expired, the handler sees the identity of that row, and where scopes are enforced on
    -- the route the row has "*" or "scan:write" among its scopes.
    pub admit_request-IsVouched :
        (settings : Settings) (who : Option Identity)
        → (settings.require_api_key
            || (is_sensitive_api_path w.has_prefix r || is_protected_data_path w.has_prefix r))
          ≡ true
        → (admit_request w settings r clock st).0 ≡ next who
        → (k : ApiKey) × (who ≡ some (identity k))
          × IsVouched r clock k
          × ((not (settings.enforce_scopes && is_sensitive_api_path w.has_prefix r)
                || grants "scan:write" k.scopes)
              ≡ true)
    unfolding admit_request
    admit_request-IsVouched settings who guarded passed =
        let first = api_key_auth_selective w settings.require_api_key r clock st in
        elim (Step-cases first.0) [
          | inl (n, e) ↦ absurd (ground (arith, e, passed))
          | inr (identified, e) ↦
              let (k, same, vouched) =
                api_key_auth_selective-IsVouched settings.require_api_key identified guarded e in
              let limited = rate_limit_middleware w clock.judge identified first.1 in
              elim (Step-cases limited.0) [
                | inl (n, d) ↦ absurd (ground (arith, e, d, passed))
                | inr (admitted, d) ↦
                    let known =
                      rate_limit_middleware-keeps clock.judge identified admitted first.1 d
                      ∙ same in
                    let granted =
                      chain-grants settings who k (ground (arith, e, d, known, passed)) in
                    (k, granted.0, vouched, granted.1)
              ]
        ]
