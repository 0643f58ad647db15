-- ===== src/Auth/Fresh.antt =====
-- What `validateAPIKeyCached` of morf/auth/middleware.go answers, against the database alone.
use morf.Prelude.{
  ◌⊎◌, ℕ, ◌+◌, ◌≤◌, ◌≡◌, ap, ◌∙◌, String, Option, none, some, List, [], ◌∷◌, str_eq, ltb, arith,
  inl, inr, Bool-cases, Option-cases, All, ltb→lt, eq_iff,
}
use mathlib.Core.Path.{subst}
use morf.Auth.Keys.{
  ApiKey, CachedKey, Cache, put, Clock, load, store, validate_api_key_cached,
  invalidate_api_key_cache,
}

-- what happens to the cache
pub data Event : Type 0 where
  validate : Clock → String → Event
  invalidate : String → Event
  set_ttl : ℕ → Event

-- a request's clock, its key and the answer
pub record Answer : Type 0 where
  pub clock : Clock
  pub api_key : String
  pub found : Option ApiKey

module _ (database : ℕ → String → Option ApiKey) (hash : String → String) where
  unfoldable pub answers : List Event → ℕ → Cache → List Answer
  unfolding validate_api_key_cached invalidate_api_key_cache
  answers [] ttl cache = []
  answers (validate clock api_key ∷ rest) ttl cache =
      let (found, kept) = validate_api_key_cached database hash ttl clock api_key cache in
      record { clock = clock; api_key = api_key; found = found } ∷ answers rest ttl kept
  answers (invalidate api_key ∷ rest) ttl cache =
      answers rest ttl (invalidate_api_key_cache database hash api_key cache)
  answers (set_ttl d ∷ rest) ttl cache = answers rest d cache

  -- Requests follow each other. In each of them the clock does not run backwards, and the answer of
  -- the database is kept within `lag` of the question. A lifetime is at most `max`.
  abbrev pub IsTimely : ℕ → ℕ → ℕ → List Event → Type 0
  IsTimely lag max now [] = Unit
  IsTimely lag max now (validate clock api_key ∷ rest) =
      (now ≤ clock.check)
      × (clock.check ≤ clock.query)
      × (clock.query ≤ clock.keep)
      × (clock.keep ≤ clock.query + lag)
      × IsTimely lag max clock.keep rest
  IsTimely lag max now (invalidate api_key ∷ rest) = IsTimely lag max now rest
  IsTimely lag max now (set_ttl d ∷ rest) = (d ≤ max) × IsTimely lag max now rest

  -- the database held this row under this hash at a time that is not older than the window
  abbrev pub IsRecent : ℕ → ℕ → ℕ → String → ApiKey → Type 0
  IsRecent window first last hashed k =
      (s : ℕ) × (s ≤ last) × (first ≤ s + window) × (database s hashed ≡ some k)

  abbrev pub IsAllowed : ℕ → Answer → Type 0
  IsAllowed window a = elim a.found [
    | none ↦ database a.clock.query (hash a.api_key) ≡ none
    | some k ↦ IsRecent window a.clock.check a.clock.query (hash a.api_key) k
  ]

  -- each entry expires at most a window after a time at which the database held its key
  abbrev pub IsFresh : ℕ → ℕ → Cache → Type 0
  IsFresh window now cache =
      (h : String) (e : CachedKey)
      → cache h ≡ some e
      → (s : ℕ) × (s ≤ now) × (e.expires_at ≤ s + window) × (database s h ≡ some e.key)

  put-none-held :
      (h other : String) (e : CachedKey) (cache : Cache)
      → put h none cache other ≡ some e
      → cache other ≡ some e
  put-none-held h other e cache held = ground (arith, held)

  put-some-held :
      (h other : String) (x e : CachedKey) (cache : Cache)
      → put h (some x) cache other ≡ some e
      → ((other ≡ h) × (x ≡ e)) ⊎ (cache other ≡ some e)
  put-some-held h other x e cache held = elim (Bool-cases (str_eq other h)) [
    | inl same ↦ inl ((eq_iff other h).0 same, ground (arith, held, same))
    | inr differs ↦ inr (ground (arith, held, differs))
  ]

  module _ (window : ℕ) where
    IsFresh-later :
        (now later : ℕ) (cache : Cache)
        → now ≤ later
        → IsFresh window now cache
        → IsFresh window later cache
    IsFresh-later now later cache h fresh other e held =
        let (s, past, limit, row) = fresh other e held in (s, omega (arith, past, h), limit, row)

    IsFresh-put-none :
        (now : ℕ) (h : String) (cache : Cache)
        → IsFresh window now cache
        → IsFresh window now (put h none cache)
    IsFresh-put-none now h cache fresh other e held =
        fresh other e (put-none-held h other e cache held)

    load-IsFresh :
        (ttl now check : ℕ) (h : String) (cache : Cache)
        → IsFresh window now cache
        → IsFresh window now (load ttl check h cache).1
    load-IsFresh ttl now check h cache fresh = elim (Bool-cases (ltb 0 ttl)) [
      | inr off ↦ rw off fresh
      | inl on ↦ elim (Option-cases (cache h)) [
        | inl e ↦ rw (on, e) fresh
        | inr (entry, e) ↦ elim (Bool-cases (ltb check entry.expires_at)) [
          | inl live ↦ rw (on, e, live) fresh
          | inr dead ↦ rw (on, e, dead) (IsFresh-put-none now h cache fresh)
        ]
      ]
    ]

    load-IsRecent :
        (ttl now check query : ℕ) (h : String) (cache : Cache) (k : ApiKey)
        → IsFresh window now cache
        → now ≤ check
        → check ≤ query
        → (load ttl check h cache).0 ≡ some k
        → IsRecent window check query h k
    load-IsRecent ttl now check query h cache k fresh ordered order hit =
        elim (Bool-cases (ltb 0 ttl)) [
          | inr off ↦ absurd (ground (arith, off, hit))
          | inl on ↦ elim (Option-cases (cache h)) [
            | inl e ↦ absurd (ground (arith, on, e, hit))
            | inr (entry, e) ↦ elim (Bool-cases (ltb check entry.expires_at)) [
              | inr dead ↦ absurd (ground (arith, on, e, dead, hit))
              | inl live ↦
                  let (s, past, limit, row) = fresh h entry e in
                  (
                    s,
                    omega (arith, past, ordered, order),
                    omega (arith, limit, ltb→lt check entry.expires_at live),
                    row ∙ ground (arith, on, e, live, hit),
                  )
            ]
          ]
        ]

    store-IsFresh :
        (ttl lag now query keep : ℕ) (h : String) (k : ApiKey) (cache : Cache)
        → IsFresh window now cache
        → now ≤ query
        → query ≤ keep
        → keep ≤ query + lag
        → lag + ttl ≤ window
        → database query h ≡ some k
        → IsFresh window keep (store ttl keep h k cache)
    store-IsFresh ttl lag now query keep h k cache fresh o1 o2 o3 o4 row =
        elim (Bool-cases (ltb 0 ttl)) [
          | inr off ↦ rw off (IsFresh-later now keep cache (omega arith) fresh)
          | inl on ↦ rw on λ other e held.
              elim (put-some-held h other (record { key = k; expires_at = keep + ttl }) e cache
                held) [
                  | inr old ↦ IsFresh-later now keep cache (omega arith) fresh other e old
                  | inl (same, new) ↦ (
                    query,
                    o2,
                    omega (arith, ap (λ x. x.expires_at) new, o3, o4),
                    ap (database query) same ∙ row ∙ ap (λ x. some x.key) new,
                  )
                ]
        ]

    -- one request, whose answer and cache are those of the theorem below
    module _ (ttl lag now : ℕ) (clock : Clock) (api_key : String) (cache : Cache)
        (fresh : IsFresh window now cache) (start : now ≤ clock.check)
        (asked : clock.check ≤ clock.query) where
      pub validate_api_key_cached-IsAllowed : IsAllowed window (record {
        clock = clock;
        api_key = api_key;
        found = (validate_api_key_cached database hash ttl clock api_key cache).0;
      })
      unfolding validate_api_key_cached
      validate_api_key_cached-IsAllowed =
          let h = hash api_key in
          elim (Option-cases (load ttl clock.check h cache).0) [
            | inr (k, hit) ↦
                rw (validate_api_key_cached, hit)
                  (load-IsRecent ttl now clock.check clock.query h cache k fresh start asked hit)
            | inl miss ↦ elim (Option-cases (database clock.query h)) [
              | inl e ↦ rw (validate_api_key_cached, miss, e) e
              | inr (k, e) ↦
                  rw (validate_api_key_cached, miss, e)
                    (clock.query, omega arith, omega (arith, asked), e)
            ]
          ]

      pub validate_api_key_cached-IsFresh :
          clock.query ≤ clock.keep
          → clock.keep ≤ clock.query + lag
          → lag + ttl ≤ window
          → IsFresh window clock.keep
              (validate_api_key_cached database hash ttl clock api_key cache).1
      unfolding validate_api_key_cached
      validate_api_key_cached-IsFresh o1 o2 o3 =
          let h = hash api_key in
          let loaded = load-IsFresh ttl now clock.check h cache fresh in
          let later =
            IsFresh-later now clock.keep (load ttl clock.check h cache).1
              (omega (arith, start, asked, o1)) loaded in
          elim (Option-cases (load ttl clock.check h cache).0) [
            | inr (k, hit) ↦ rw (validate_api_key_cached, hit) later
            | inl miss ↦ elim (Option-cases (database clock.query h)) [
              | inl e ↦ rw (validate_api_key_cached, miss, e) later
              | inr (k, e) ↦
                  rw (validate_api_key_cached, miss, e)
                    (store-IsFresh ttl lag now clock.query clock.keep h k _ loaded
                      (omega (arith, start, asked)) o1 o2 o3 e)
            ]
          ]

  pub IsAllowed-IsRecent :
      (window : ℕ) (a : Answer) (k : ApiKey)
      → a.found ≡ some k
      → IsAllowed window a
      → IsRecent window a.clock.check a.clock.query (hash a.api_key) k
  IsAllowed-IsRecent window a k same allowed =
      subst (λ o. IsAllowed window (record a { found = o })) same allowed

  answers-kept :
      (lag max : ℕ) (events : List Event) (ttl now : ℕ) (cache : Cache)
      → ttl ≤ max
      → IsTimely lag max now events
      → IsFresh (lag + max) now cache
      → All (IsAllowed (lag + max)) (answers events ttl cache)
  unfolding answers
  answers-kept lag max [] ttl now cache small timely fresh = tt
  answers-kept lag max (validate clock api_key ∷ rest) ttl now cache small timely fresh =
      let (o1, o2, o3, o4, later) = timely in
      (
        validate_api_key_cached-IsAllowed (lag + max) ttl lag now clock api_key cache fresh o1 o2,
        answers-kept lag max rest ttl clock.keep _ small later (
            validate_api_key_cached-IsFresh (lag + max) ttl lag now clock api_key cache fresh o1 o2
              o3 o4 (omega arith)),
      )
  answers-kept lag max (invalidate api_key ∷ rest) ttl now cache small timely fresh =
      answers-kept lag max rest ttl now _ small timely
        (IsFresh-put-none (lag + max) now (hash api_key) cache fresh)
  answers-kept lag max (set_ttl d ∷ rest) ttl now cache small timely fresh =
      answers-kept lag max rest d now cache timely.0 timely.1 fresh

  -- From an empty cache, with lifetimes of at most `max` and answers of the database that are kept
  -- within `lag`, the cache implements the database with bounded staleness, whatever keys are
  -- validated and invalidated: a key is refused only when the query gives no row for it at that time,
  -- be it that the database does not hold the key or that it cannot be read, and a row is answered only if the database held it, under the hash of the presented key,
  -- at a time that is over and at most `lag + max` before the request.
  pub answers_refine :
      (lag max : ℕ) (events : List Event) (ttl : ℕ)
      → ttl ≤ max
      → IsTimely lag max 0 events
      → All (IsAllowed (lag + max)) (answers events ttl (λ h. none))
  answers_refine lag max events ttl small timely =
      answers-kept lag max events ttl 0 _ small timely (λ h e held. absurd (ground (arith, held)))
