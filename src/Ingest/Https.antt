-- ===== src/Ingest/Https.antt =====
-- morf/ingest/https.go: `Fetch` of the adapter for https and http. The parser of URLs, the network and
-- the hash are arguments; a dial tries addresses in their order, and asks the Control hook about each.
use Prim.Native.String.{slice, len}
use morf.Prelude.{
  ℕ, String, Bool, not, ◌&&◌, ◌||◌, Option, none, some, List, [], ◌∷◌, if◌then◌else◌, str_eq, ltb,
  leb,
}
use morf.Ingest.Address.{Resolver, control, validate_webhook_url}
use morf.Ingest.Download.{
  Files, Source, limited, cap_of, artifact_ext, resolve_dest_dir, copy_capped,
}

pub record Url : Type 0 where
  pub scheme : String
  pub hostname : String
  pub path : String
  pub fragment : String
  -- the value of the query's sha256, "" where it has none
  pub sha256 : String
  -- the text without the fragment, and without the query's sha256 too
  pub text : String
  pub text_without_sha256 : String

pub record Answer : Type 0 where
  -- a redirect that the client would follow
  pub redirects : Bool
  pub status_code : ℕ
  -- 0 where none is declared
  pub content_length : ℕ
  pub body : Source

pub record Network : Type 0 where
  pub resolver : Resolver
  pub parse : String → Option Url
  -- the addresses that a dial for a URL tries, and which of them accept
  pub addresses : String → List (String × Bool)
  pub answer : String → String → Option Answer

pub record UrlTexts : Type 0 where
  pub trim_space : String → String
  pub to_lower : String → String
  pub has_prefix : String → String → Bool
  pub has_suffix : String → String → Bool
  pub base : String → String
  pub sha256_hex : List ℕ → String
  pub equal_fold : String → String → Bool

pub record Adapter : Type 0 where
  pub dest_dir : String
  pub max_bytes : ℕ
  pub allow_http : Bool

module _ (texts : UrlTexts) where
  abbrev fragment_digest : String → String
  fragment_digest fragment =
      let frag = texts.trim_space fragment in
      if not (str_eq frag "") && texts.has_prefix (texts.to_lower frag) "sha256="
      then texts.to_lower (slice frag 7 (len frag))
      else ""

  -- the digest and the URL to request
  unfoldable pub extract_sha256 : Url → String × String
  extract_sha256 u =
      let v = texts.trim_space u.sha256 in
      if not (str_eq v "")
      then (texts.to_lower v, u.text_without_sha256)
      else (fragment_digest u.fragment, u.text)

  module _ (net : Network) where
    abbrev pub scheme_allowed : Adapter → Url → Bool
    scheme_allowed a u =
        let scheme = texts.to_lower u.scheme in
        str_eq scheme "https" || (str_eq scheme "http" && a.allow_http)

    abbrev pub admitted : Adapter → Option Url → Option Url
    admitted a none = none
    admitted a (some u) =
        if not (scheme_allowed a u)
        then none
        else if validate_webhook_url net.resolver u.scheme u.hostname
        then some u
        else none

    -- the address of the connection
    abbrev pub dial : List (String × Bool) → Option String
    dial [] = none
    dial ((address, accepts) ∷ rest) =
        if control net.resolver address && accepts then some address else dial rest

    abbrev pub asked : String → Option String → Option Answer
    asked url none = none
    asked url (some address) = net.answer address url

    abbrev pub accepted : Adapter → Option Answer → Option Answer
    accepted a none = none
    accepted a (some r) =
        if r.redirects || ltb r.status_code 200 || leb 300 r.status_code
        then none
        else if ltb 0 r.content_length && ltb a.max_bytes r.content_length
        then none
        else some r

    module _ (fs : Files) (default_max : ℕ) where
      -- `got` is the digest of what was read through the cap
      abbrev pub verified : String → String → Option String × fs.Disk → Option String × fs.Disk
      verified want got (none, d) = (none, d)
      verified want got (some local_path, d) =
          if not (str_eq want "") && not (texts.equal_fold got want)
          then (none, (fs.remove local_path d).1)
          else (some local_path, d)

      abbrev pub stored :
          Adapter → Url → String → Source → Option String × fs.Disk → Option String × fs.Disk
      stored a u want src (none, d) = (none, d)
      stored a u want src (some dest_dir, d) =
          verified want (texts.sha256_hex (limited (cap_of default_max a.max_bytes) src.bytes)) (
            copy_capped fs default_max dest_dir
              (artifact_ext texts.has_suffix (texts.to_lower (texts.base u.path))) src a.max_bytes
              d)

      abbrev pub downloaded :
          Adapter → Url → String → Option Answer → fs.Disk → Option String × fs.Disk
      downloaded a u want none d = (none, d)
      downloaded a u want (some r) d =
          stored a u want r.body (resolve_dest_dir fs (texts.trim_space a.dest_dir) d)

      abbrev pub requested : Adapter → Option Url → fs.Disk → Option String × fs.Disk
      requested a none d = (none, d)
      requested a (some u) d =
          let (want, url) = extract_sha256 u in
          downloaded a u want (accepted a (asked url (dial (net.addresses url)))) d

      unfoldable pub https_fetch : Adapter → String → fs.Disk → Option String × fs.Disk
      unfolding control validate_webhook_url extract_sha256 resolve_dest_dir copy_capped
      https_fetch a ref d = requested a (admitted a (net.parse (texts.trim_space ref))) d
