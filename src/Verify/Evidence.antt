-- ===== src/Verify/Evidence.antt =====
-- What stands behind a finding that the verification of morf/verify/verify.go marks "active".
pub mod Pairs
pub mod Batch
use Prim.Native.String
use mathlib.Core.List.{Memᴰ}
use mathlib.Core.List.Memᴰ as Memᴰ
use morf.Prelude.{
  ℕ, zero, suc, ◌≡◌, refl, sym, ap, ◌∙◌, String, Bool, true, false, Option, none, some, List, [],
  ◌∷◌, arith, inl, inr, ◌⊎◌, Bool-cases, Option-cases, str_eq, eq_iff, ltb, All, not, ◌&&◌,
}
use morf.Finding.{SecretModel}
use morf.Verify.Providers.{
  Library, Provider, HttpRequest, HttpResponse, status_active, status_unknown, status_inactive,
  provider_status, provider_request,
}
use morf.Verify.Transport.{
  Client, CacheEntry, as_sent, put, cache_get, cache_set, do_request, now, tick,
}
use morf.Verify.Aws.{
  sts_status, verify_pair, try_candidate, candidate_loop, collect_aws_secret_candidates,
}
use morf.Verify.Accepted.{provider_status-active, sts_status-active}
use morf.Verify.{
  RegistryEntry, Verifier, provider, aws_verifier, verify, check_secret, pre_pass_loop,
  aws_pre_pass, main_loop, verify_with_registry, lookup, or_unknown, is_pairable, with_status,
}

abbrev pub Log : Type 0
Log = List (HttpRequest × Option HttpResponse)

abbrev pub text_of : Option String → String
text_of none = status_active
text_of (some s) = s

pub unknown-not_active : {A : Type 0} → status_unknown ≡ status_active → A
unknown-not_active e = absurd (ground (arith, (eq_iff status_unknown status_active).1 e))

module _ (lib : Library) where
  abbrev pub pair_text : String → String → String
  pair_text id key = String.◌++◌ id (String.◌++◌ ":" key)

  -- the request is a provider's for a secret with this hash, or one to AWS for a pair with this hash
  abbrev pub IsAbout : String → HttpRequest → Type 0
  IsAbout hashed req =
      ((p : Provider) × (secret : String) × (req ≡ as_sent (provider_request lib p secret))
        × (lib.hash secret ≡ hashed))
      ⊎ ((id : String) × (key : String) × (time : ℕ) × (unsigned : HttpRequest) × (lib.sts_request
              id key time
            ≡ some unsigned)
          × (req ≡ as_sent unsigned)
          × (lib.hash (pair_text id key) ≡ hashed))

  -- such a request has been answered with status 200
  abbrev pub IsProven : Log → String → Type 0
  IsProven log hashed =
      (req : HttpRequest) × (resp : HttpResponse) × Memᴰ (req, some resp) log
      × (resp.status_code ≡ 200)
      × IsAbout hashed req

  -- every outcome "active" in the cache is proven
  abbrev pub IsBacked : Client → Type 0
  IsBacked c =
      (key : String) (e : CacheEntry)
      → c.cache key ≡ some e
      → e.status ≡ status_active
      → IsProven c.log key

  -- what an operation keeps
  pub record Step (c d : Client) : Type 0 where
    pub grows : (x : HttpRequest × Option HttpResponse) → Memᴰ x c.log → Memᴰ x d.log
    pub backed : IsBacked c → IsBacked d

  pub IsProven-later :
      {c d : Client} (key : String) → Step c d → IsProven c.log key → IsProven d.log key
  IsProven-later key step (req, resp, held, ok, about) =
      (req, resp, step.grows (req, some resp) held, ok, about)

  pub stay : (c : Client) → Step c c
  stay c = record { grows = λ x h. h; backed = λ b. b }

  pub and_then : {c d e : Client} → Step c d → Step d e → Step c e
  and_then first second = record {
    grows = λ x h. second.grows x (first.grows x h);
    backed = λ b. second.backed (first.backed b);
  }

  pub cache_get-Step : (key : String) (c : Client) → Step c (cache_get key c).1
  unfolding cache_get
  cache_get-Step key c = elim (Option-cases (c.cache key)) [
    | inl e ↦ rw (cache_get, e) (stay c)
    | inr (entry, e) ↦ elim (Bool-cases (ltb entry.expires (now c))) [
      | inr live ↦ rw (cache_get, e, live) (record { grows = λ x h. h; backed = λ b. b })
      | inl dead ↦
          rw (cache_get, e, dead)
            (record {
              grows = λ x h. h;
              backed = λ b other entry2 held active. b other entry2 (ground (arith, held)) active;
            })
    ]
  ]

  pub cache_get-IsProven :
      (key : String) (c : Client)
      → IsBacked c
      → (cache_get key c).0 ≡ some status_active
      → IsProven c.log key
  unfolding cache_get
  cache_get-IsProven key c backed hit = elim (Option-cases (c.cache key)) [
    | inl e ↦ absurd (ground (arith, e, hit))
    | inr (entry, e) ↦ backed key entry e (ground (arith, e, hit))
  ]

  put-Step :
      (key status : String) (expires : ℕ) (c : Client)
      → (status ≡ status_active → IsProven c.log key)
      → Step c (put key (some (record { status = status; expires = expires })) (tick c))
  put-Step key status expires c proven = record {
    grows = λ x h. h;
    backed = λ b other entry held active. elim (Bool-cases (str_eq other key)) [
      | inr differs ↦ b other entry (ground (arith, held, differs)) active
      | inl same ↦
          rw ((eq_iff other key).0 same)
            (proven (ap (λ e. e.status) (written other entry held same) ∙ active))
    ];
  }
    where
      written :
          (other : String) (entry : CacheEntry)
          → (put key (some (record { status = status; expires = expires })) c).cache other
            ≡ some entry
          → str_eq other key ≡ true
          → record { status = status; expires = expires } ≡ entry
      written other entry held same = ground (arith, held, same)

  pub cache_set-Step :
      (key status : String) (c : Client)
      → (status ≡ status_active → IsProven c.log key)
      → Step c (cache_set key status c)
  unfolding cache_set
  cache_set-Step key status c proven =
      elim (Bool-cases (not (str_eq status "active") && not (str_eq status "inactive"))) [
        | inl e ↦ rw (cache_set, e) (stay c)
        | inr e ↦ rw (cache_set, e) (put-Step key status _ c proven)
      ]

  pub do_request-Step : (r : HttpRequest) (c : Client) → Step c (do_request r c).1
  unfolding do_request
  do_request-Step r c = record {
    grows = λ x h. Memᴰ.tail h;
    backed = λ b key entry held active.
        let (req, resp, sent, ok, about) = b key entry held active in
        (req, resp, Memᴰ.tail sent, ok, about);
  }

  pub do_request-sent :
      (r : HttpRequest) (c : Client) (resp : HttpResponse)
      → (do_request r c).0 ≡ some resp
      → Memᴰ (as_sent r, some resp) (do_request r c).1.log
  unfolding do_request
  do_request-sent r c resp e = Memᴰ.head (ap (λ o. (as_sent r, o)) (sym e))

  pub verify-Step : (v : Verifier) (secret : String) (c : Client) → Step c (verify lib v secret c).1
  unfolding verify
  verify-Step aws_verifier secret c = stay c
  verify-Step (provider p) secret c =
      let req = provider_request lib p secret in
      elim (Bool-cases (lib.is_valid_url req.url)) [
        | inr e ↦ rw (verify, e) (stay c)
        | inl e ↦ elim (Option-cases (do_request req c).0) [
          | inl d ↦ rw (verify, e, d) (do_request-Step req c)
          | inr (resp, d) ↦ rw (verify, e, d) (do_request-Step req c)
        ]
      ]

  pub verify-IsProven :
      (v : Verifier) (secret : String) (c : Client)
      → (verify lib v secret c).0 ≡ some status_active
      → IsProven (verify lib v secret c).1.log (lib.hash secret)
  unfolding verify
  verify-IsProven aws_verifier secret c active = unknown-not_active (ap text_of active)
  verify-IsProven (provider p) secret c active =
      let req = provider_request lib p secret in
      elim (Bool-cases (lib.is_valid_url req.url)) [
        | inr e ↦ absurd (ground (arith, e, active))
        | inl e ↦ elim (Option-cases (do_request req c).0) [
          | inl d ↦ absurd (ground (arith, e, d, active))
          | inr (resp, d) ↦
              rw (verify, e, d)
                (
                  as_sent req,
                  resp,
                  do_request-sent req c resp d,
                  provider_status-active lib p resp (ground (arith, e, d, active)),
                  inl (p, secret, refl, refl),
                )
        ]
      ]
