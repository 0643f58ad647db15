-- ===== src/Auth/Keys.antt =====
-- The cache of validated keys in morf/auth/middleware.go, and the key of morf/models/APIKey.go. The
-- database and the hash are arguments.
use morf.Prelude.{
  ℕ, ◌+◌, String, Bool, false, not, ◌&&◌, Option, none, some, List, if◌then◌else◌, str_eq, ltb,
}

pub record ApiKey : Type 0 where
  pub id : ℕ
  pub key : String
  pub name : String
  pub scopes : List String
  pub rate_limit : ℕ
  pub expires_at : Option ℕ
  pub is_active : Bool

abbrev pub is_expired : ℕ → ApiKey → Bool
is_expired now k = elim k.expires_at [ none ↦ false | some t ↦ ltb t now ]

abbrev pub is_valid : ℕ → ApiKey → Bool
is_valid now k = k.is_active && not (is_expired now k)

pub record CachedKey : Type 0 where
  pub key : ApiKey
  pub expires_at : ℕ

abbrev pub Cache : Type 0
Cache = String → Option CachedKey

abbrev pub put : String → Option CachedKey → Cache → Cache
put hashed entry cache other = if str_eq other hashed then entry else cache other

-- The readings of the clock in one request: when it asks the cache, asks the database, keeps the
-- answer, and judges the key.
pub record Clock : Type 0 where
  pub check : ℕ
  pub query : ℕ
  pub keep : ℕ
  pub judge : ℕ

-- a lookup in the cache, which drops an entry that has expired
abbrev pub load : ℕ → ℕ → String → Cache → Option ApiKey × Cache
load ttl now hashed cache =
    if ltb 0 ttl
    then elim (cache hashed) [
      | none ↦ (none, cache)
      | some entry ↦
          if ltb now entry.expires_at
          then (some entry.key, cache)
          else (none, put hashed none cache)
    ]
    else (none, cache)

abbrev pub store : ℕ → ℕ → String → ApiKey → Cache → Cache
store ttl now hashed k cache =
    if ltb 0 ttl
    then put hashed (some (record { key = k; expires_at = now + ttl })) cache
    else cache

-- `database t h` is the row whose key is the hash `h` at time `t`, if one can be read
module _ (database : ℕ → String → Option ApiKey) (hash : String → String) where
  unfoldable pub validate_api_key_cached : ℕ → Clock → String → Cache → Option ApiKey × Cache
  validate_api_key_cached ttl clock api_key cache =
      let (hit, loaded) = load ttl clock.check (hash api_key) cache in
      elim hit [
        | some k ↦ (some k, loaded)
        | none ↦ elim (database clock.query (hash api_key)) [
          | none ↦ (none, loaded)
          | some k ↦ (some k, store ttl clock.keep (hash api_key) k loaded)
        ]
      ]

  unfoldable pub invalidate_api_key_cache : String → Cache → Cache
  invalidate_api_key_cache api_key cache = put (hash api_key) none cache
