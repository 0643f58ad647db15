-- ===== src/Ingest/Vetted.antt =====
-- What a fetch of morf/ingest/https.go has seen to when it returns a file.
use morf.Prelude.{
  ℕ, ◌≤◌, ◌<◌, ◌≡◌, refl, sym, ap, ◌∙◌, String, Bool, true, false, not, ◌&&◌, ◌||◌, Option, none,
  some, List, [], ◌∷◌, str_eq, ltb, leb, length, arith, Bool-cases, Option-cases, inl, inr,
}
use morf.Ingest.Address.{control, validate_webhook_url}
use morf.Ingest.Download.{
  Files, Source, limited, cap_of, artifact_ext, resolve_dest_dir, copy_capped,
}
use morf.Ingest.Capped.{Fits, IsStored, created-IsStored}
use morf.Ingest.Https.{
  Url, Answer, Network, UrlTexts, Adapter, extract_sha256, scheme_allowed, admitted, dial, asked,
  accepted, verified, stored, https_fetch,
}

abbrev pub IsSuccess : Answer → Type 0
IsSuccess r = (200 ≤ r.status_code) × (r.status_code < 300) × (r.redirects ≡ false)

module _ (texts : UrlTexts) (net : Network) (a : Adapter) where
  admitted-some :
      (o : Option Url) (u : Url)
      → admitted texts net a o ≡ some u
      → (o ≡ some u)
        × (scheme_allowed texts net a u ≡ true)
        × (validate_webhook_url net.resolver u.scheme u.hostname ≡ true)
  admitted-some none u h = absurd (ground (arith, h))
  admitted-some (some v) u h = elim (Bool-cases (scheme_allowed texts net a v)) [
    | inr e ↦ absurd (ground (arith, e, h))
    | inl e ↦ elim (Bool-cases (validate_webhook_url net.resolver v.scheme v.hostname)) [
      | inr k ↦ absurd (ground (arith, e, k, h))
      | inl k ↦
          let same : v ≡ u = ground (arith, e, k, h) in (ap some same, rw (← same) e, rw (← same) k)
    ]
  ]

  dial-some :
      (tries : List (String × Bool)) (address : String)
      → dial texts net tries ≡ some address
      → control net.resolver address ≡ true
  dial-some [] address h = absurd (ground (arith, h))
  dial-some ((first, accepts) ∷ rest) address h =
      elim (Bool-cases (control net.resolver first && accepts)) [
        | inr e ↦ dial-some rest address (rw e at h)
        | inl e ↦
            let same : some first ≡ some address = rw e at h in
            let here : first ≡ address = cc same in rw (← here) (ground (arith, e))
      ]

  accepted-some :
      (o : Option Answer) (r : Answer)
      → accepted texts net a o ≡ some r
      → (o ≡ some r) × IsSuccess r
  accepted-some none r h = absurd (ground (arith, h))
  accepted-some (some q) r h =
      elim (Bool-cases (q.redirects || ltb q.status_code 200 || leb 300 q.status_code)) [
        | inl e ↦ absurd (ground (arith, e, h))
        | inr e ↦ elim (Bool-cases (ltb 0 q.content_length && ltb a.max_bytes q.content_length)) [
          | inl k ↦ absurd (ground (arith, e, k, h))
          | inr k ↦
              let same : q ≡ r = ground (arith, e, k, h) in
              (ap some same, rw (← same) (ground (arith, e), ground (arith, e), ground (arith, e)))
        ]
      ]

  module _ (fs : Files) (default_max : ℕ) where
    abbrev pub cap : ℕ
    cap = cap_of default_max a.max_bytes

    -- the digest that the URL asks for, if it asks for one
    abbrev pub HasDigest : String → List ℕ → Type 0
    HasDigest want bytes = (str_eq want "" || texts.equal_fold (texts.sha256_hex bytes) want) ≡ true

    verified-some :
        (want got path : String) (x : Option String × fs.Disk)
        → (verified texts net fs default_max want got x).0 ≡ some path
        → (x ≡ (some path, (verified texts net fs default_max want got x).1))
          × ((str_eq want "" || texts.equal_fold got want) ≡ true)
    verified-some want got path (none, d) h = absurd (ground (arith, h))
    verified-some want got path (some local_path, d) h =
        elim (Bool-cases (not (str_eq want "") && not (texts.equal_fold got want))) [
          | inl e ↦ absurd (ground (arith, e, h))
          | inr e ↦
              let same : some local_path ≡ some path = rw e at h in
              rw (e, same) (refl, ground (arith, e))
        ]

    abbrev pub IsKept : String → Source → String → fs.Disk → Type 0
    IsKept want body path d =
        (fs.files d path ≡ some body.bytes) × (length body.bytes ≤ cap) × HasDigest want body.bytes

    stored-some :
        (u : Url) (want path : String) (body : Source) (x : Option String × fs.Disk)
        → Fits cap
        → (stored texts net fs default_max a u want body x).0 ≡ some path
        → IsKept want body path (stored texts net fs default_max a u want body x).1
    unfolding copy_capped
    stored-some u want path body (none, d) h k = absurd (ground (arith, k))
    stored-some u want path body (some dest_dir, d) h k =
        let ext = artifact_ext texts.has_suffix (texts.to_lower (texts.base u.path)) in
        let copied = copy_capped fs default_max dest_dir ext body a.max_bytes d in
        let got = texts.sha256_hex (limited cap body.bytes) in
        let (ended, digest) = verified-some want got path copied k in
        let whole : IsStored fs body cap copied =
          created-IsStored fs body cap (fs.create_temp dest_dir ext d) h in
        let kept : IsStored fs body cap
            (some path, (verified texts net fs default_max want got copied).1) =
          rw ended at whole in
        (kept.0, kept.1, rw kept.2 at digest)

    -- what stands behind a fetched file
    pub record IsVetted (ref path : String) (d : fs.Disk) : Type 0 where
      pub url : Url
      pub address : String
      pub response : Answer
      pub parsed : net.parse (texts.trim_space ref) ≡ some url
      pub scheme_ok : scheme_allowed texts net a url ≡ true
      pub host_ok : validate_webhook_url net.resolver url.scheme url.hostname ≡ true
      pub connected : dial texts net (net.addresses (extract_sha256 texts url).1) ≡ some address
      pub address_ok : control net.resolver address ≡ true
      pub answered : net.answer address (extract_sha256 texts url).1 ≡ some response
      pub success : IsSuccess response
      pub kept : IsKept (extract_sha256 texts url).0 response.body path d

    -- A file that `Fetch` returns comes from a URL of an allowed scheme whose host passed the check,
    -- over a connection to an address that the dialer has checked again, with a 2xx answer that is no
    -- redirect; it holds the whole body, within the size limit, and has the digest that the URL asks
    -- for. The limit plus one is an int64.
    pub https_fetch-IsVetted :
        (ref path : String) (d : fs.Disk)
        → Fits cap
        → (https_fetch texts net fs default_max a ref d).0 ≡ some path
        → IsVetted ref path (https_fetch texts net fs default_max a ref d).1
    unfolding https_fetch
    https_fetch-IsVetted ref path d h ok =
        elim (Option-cases (admitted texts net a (net.parse (texts.trim_space ref)))) [
          | inl e ↦ absurd (ground (arith, e, ok))
          | inr (u, e) ↦
              let want = (extract_sha256 texts u).0 in
              let url = (extract_sha256 texts u).1 in
              let tries = dial texts net (net.addresses url) in
              elim (Option-cases (accepted texts net a (asked texts net url tries))) [
                | inl k ↦ absurd (ground (arith, e, k, ok))
                | inr (r, k) ↦ elim (Option-cases tries) [
                  | inl n ↦ absurd (ground (arith, n, k))
                  | inr (address, n) ↦
                      let (parsed, scheme_ok, host_ok) =
                        admitted-some (net.parse (texts.trim_space ref)) u e in
                      let (answered, success) = accepted-some (asked texts net url tries) r k in
                      let dest = resolve_dest_dir fs (texts.trim_space a.dest_dir) d in
                      let ended : https_fetch texts net fs default_max a ref d
                          ≡ stored texts net fs default_max a u want r.body dest =
                        rw (https_fetch, e, k) refl in
                      let kept =
                        stored-some u want path r.body dest h (sym (ap (λ x. x.0) ended) ∙ ok) in
                      record {
                        url = u;
                        address = address;
                        response = r;
                        parsed = parsed;
                        scheme_ok = scheme_ok;
                        host_ok = host_ok;
                        connected = n;
                        address_ok = dial-some (net.addresses url) address n;
                        answered = rw n at answered;
                        success = success;
                        kept = rw ended kept;
                      }
                ]
              ]
        ]
