-- ===== src/Verify/Transport.antt =====
-- The shared client of morf/verify/client.go: its cache of outcomes, and the requests it has sent.
-- What the network answers and the readings of the clock are listed in advance.
use morf.Prelude.{
  ℕ, suc, ◌+◌, ◌*◌, String, not, ◌&&◌, Option, none, some, List, ◌∷◌, if◌then◌else◌, str_eq, ltb,
  length,
}
use morf.Verify.Providers.{HttpRequest, HttpResponse, status_active, status_inactive}

pub record CacheEntry : Type 0 where
  pub status : String
  pub expires : ℕ

-- `replies n` answers the request after `n` others, or fails; `log` has the latest request first
pub record Client : Type 0 where
  pub cache : String → Option CacheEntry
  pub replies : ℕ → HttpRequest → Option HttpResponse
  pub log : List (HttpRequest × Option HttpResponse)
  pub clock : ℕ → ℕ
  pub ticks : ℕ

abbrev pub now : Client → ℕ
now c = c.clock c.ticks

abbrev pub tick : Client → Client
tick c = record c { ticks = suc c.ticks }

abbrev pub put : String → Option CacheEntry → Client → Client
put key entry c = record c { cache = λ other. if str_eq other key then entry else c.cache other }

unfoldable pub cache_get : String → Client → Option String × Client
cache_get key c = elim (c.cache key) [
  | none ↦ (none, c)
  | some e ↦
      if ltb e.expires (now c) then (none, put key none (tick c)) else (some e.status, tick c)
]

abbrev pub cache_ttl : ℕ
cache_ttl = 5 * 60_000_000_000

unfoldable pub cache_set : String → String → Client → Client
cache_set key status c =
    if not (str_eq status status_active) && not (str_eq status status_inactive)
    then c
    else put key (some (record { status = status; expires = now c + cache_ttl })) (tick c)

abbrev pub as_sent : HttpRequest → HttpRequest
as_sent r = record r { headers = ("User-Agent", "MORF-verifier") ∷ r.headers }

-- `(*client).do`, where a failed wait for the rate limiter is a request without a response
unfoldable pub do_request : HttpRequest → Client → Option HttpResponse × Client
do_request r c =
    let resp = c.replies (length c.log) (as_sent r) in
    (resp, record c { log = (as_sent r, resp) ∷ c.log })
