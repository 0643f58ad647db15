-- ===== src/Ingest/Tests.antt =====
-- The theorems on morf/ingest at a small download.
use morf.Prelude.{
  ℕ, ◌^◌, ◌-◌, ◌≡◌, refl, String, true, false, Option, none, some, List, [], ◌∷◌, if◌then◌else◌,
  str_eq, eq_refl, arith,
}
use morf.Prelude.Text.{str_eq_of_ne}
use morf.Ingest.Address.{Ip}
use morf.Ingest.Download.{Files, copy_capped}
use morf.Ingest.Capped.{copy_capped-wraps}
use morf.Ingest.Https.{Url, Network, UrlTexts, Adapter, https_fetch}
use morf.Ingest.Vetted.{IsVetted, https_fetch-IsVetted}
use morf.Ingest.Leaves.{https_fetch-leaves}

abbrev Held : Type 0
Held = String → Option (List ℕ)

abbrev put : String → Option (List ℕ) → Held → Held
put t v d p = if str_eq p t then v else d p

-- a file system on which "tmp" is the name of a temporary file while nothing is stored there
abbrev fresh_name : Option (List ℕ) → Option String
fresh_name none = some "tmp"
fresh_name (some bytes) = none

fresh : (o : Option (List ℕ)) (t : String) → fresh_name o ≡ some t → (t ≡ "tmp") × (o ≡ none)
fresh none t h = (cc, refl)
fresh (some bytes) t h = cc

tmp-fresh : (d : Held) (t : String) → fresh_name (d "tmp") ≡ some t → d t ≡ none
tmp-fresh d t e = let (named, free) = fresh (d "tmp") t e in rw named free

abbrev memory : Files
memory = record {
  Disk = Held;
  files = λ d p. d p;
  is_dir = λ p d. true;
  mkdir_temp = λ d. (some "dir", d);
  create_temp = λ dir ext d. (fresh_name (d "tmp"), d);
  write = λ t bytes d. (true, put t (some bytes) d);
  close = λ t d. (true, d);
  remove = λ t d. (true, put t none d);
  mkdir_temp-files = λ d. refl;
  create_temp-fresh = λ dir ext t d e. tmp-fresh d t e;
  create_temp-others = λ dir ext p d h. refl;
  write-holds = λ t bytes d e. rw (eq_refl t) refl;
  write-others = λ t p bytes d h. rw (str_eq_of_ne p t h) refl;
  close-files = λ t d. refl;
  remove-removes = λ t d e. rw (eq_refl t) refl;
  remove-others = λ t p d h. rw (str_eq_of_ne p t h) refl;
}

abbrev url : Url
url = record {
  scheme = "https";
  hostname = "example.org";
  path = "/a.apk";
  fragment = "";
  sha256 = "";
  text = "https://example.org/a.apk";
  text_without_sha256 = "https://example.org/a.apk";
}

-- the first address is inside the network, and the dialer passes it over
abbrev net : Network
net = record {
  resolver = record {
    parse_ip = λ s.
        if str_eq s "93.184.216.34"
        then some (Ip.v4 93 184 216 34)
        else if str_eq s "169.254.169.254"
        then some (Ip.v4 169 254 169 254)
        else none;
    split_host_port = λ s. some s;
    lookup_ip_addr = λ s. some (Ip.v4 93 184 216 34 ∷ []);
  };
  parse = λ s. some url;
  addresses = λ s. ("169.254.169.254", true) ∷ ("93.184.216.34", true) ∷ [];
  answer = λ address s.
      if str_eq address "93.184.216.34"
      then some (record {
        redirects = false;
        status_code = 200;
        content_length = 3;
        body = record { bytes = 1 ∷ 2 ∷ 3 ∷ []; fails = false };
      })
      else none;
}

abbrev texts : UrlTexts
texts = record {
  trim_space = λ s. s;
  to_lower = λ s. s;
  has_prefix = λ s p. false;
  has_suffix = str_eq;
  base = λ s. s;
  sha256_hex = λ bytes. "";
  equal_fold = str_eq;
}

abbrev no_files : Held
no_files p = none

abbrev adapter : ℕ → Adapter
adapter n = record { dest_dir = "out"; max_bytes = n; allow_http = false }

fetched : (https_fetch texts net memory 500 (adapter 3) "u" no_files).0 ≡ some "tmp"
unfolding https_fetch
fetched = refl

too_large : (https_fetch texts net memory 500 (adapter 2) "u" no_files).0 ≡ none
unfolding https_fetch
too_large = refl

https_fetch-IsVetted_example :
    IsVetted texts net
      (adapter 3)
      memory
      500
      "u"
      "tmp"
      (https_fetch texts net memory 500 (adapter 3) "u" no_files).1
https_fetch-IsVetted_example =
    https_fetch-IsVetted texts net (adapter 3) memory 500 "u" "tmp" no_files (omega arith) fetched

https_fetch-leaves_example :
    (https_fetch texts net memory 500 (adapter 2) "u" no_files).1 "tmp" ≡ none
https_fetch-leaves_example =
    https_fetch-leaves texts net (adapter 2) memory 500 (λ t d. refl) "u" "tmp" no_files too_large

copy_capped-wraps_example :
    let r =
      copy_capped memory 500 "out" ".apk"
        (record { bytes = 1 ∷ []; fails = false })
        (2 ^ 63 - 1)
        no_files in
    (r.0 ≡ some "tmp") × (r.1 "tmp" ≡ some [])
copy_capped-wraps_example =
    copy_capped-wraps memory 500 "out" ".apk" "tmp" (record { bytes = 1 ∷ []; fails = false })
      no_files refl (λ bytes d. refl) (λ d. refl)
