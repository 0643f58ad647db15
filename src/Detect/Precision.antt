-- ===== src/Detect/Precision.antt =====
-- morf/detect/precision.go: which findings `ApplyPrecision` drops, downgrades or keeps. The regular
-- expressions, the functions of the Go library and the score in floating-point numbers are arguments.
pub mod Tiers
use Prim.Native.String.{◌++◌ as append}
use morf.Prelude.{
  ℕ, zero, suc, ◌+◌, String, Bool, true, false, not, ◌&&◌, ◌||◌, List, [], ◌∷◌, if◌then◌else◌,
  str_eq, leb, any, all, select, length, ◌%◌, Option, none, some,
}
use morf.Finding.{SecretModel}

-- What the source takes from the Go library. Runes are code points.
pub record Matchers (F : Type 0) : Type 0 where
  pub trim_space : String → String
  -- `strings.ReplaceAll(s, "\n", " ")`
  pub without_newlines : String → String
  -- `precisionScore` of the entropy, the digits and the length
  pub score_of : String → F
  pub to_lower : String → String
  pub contains : String → String → Bool
  pub contains_any : String → String → Bool
  pub has_prefix : String → String → Bool
  pub fields : String → List String
  pub byte_len : String → ℕ
  pub runes : String → List ℕ
  pub placeholder : String → Bool
  pub bcrypt : String → Bool
  pub benign_domain : String → Bool
  pub valid_keychain : String → Bool
  -- `pemMarkerRE.ReplaceAllString(v, "")`
  pub without_pem_markers : String → String
  pub pem_body : String → Bool
  -- the text before the first dot, or all of it
  pub before_dot : String → String
  pub url_decode : String → Option String
  pub raw_url_decode : String → Option String
  -- `strings.TrimRight(seg, "=")`
  pub without_padding : String → String
  -- the member names of a JSON object
  pub object_keys : String → Option (List String)

pub data PrecisionVerdict : Type 0 where
  precision_drop precision_info precision_keep : PrecisionVerdict

abbrev pub public_types : String → Bool
public_types t = any (str_eq t) (
    "Google Cloud Platform OAuth" ∷ "iOS Google Reversed Client ID Scheme" ∷ "Firebase Database URL"
    ∷ [])

module _ {F : Type 0} (m : Matchers F) where
  open m use {
    trim_space, without_newlines, score_of, to_lower, contains, contains_any, has_prefix, fields,
    byte_len, runes, placeholder, bcrypt, benign_domain, valid_keychain, without_pem_markers,
    pem_body, before_dot, url_decode, raw_url_decode, without_padding, object_keys,
  }

  abbrev pub is_private_key_type : String → Bool
  is_private_key_type t = contains (to_lower t) "private key"

  abbrev pub is_keychain_group_type : String → Bool
  is_keychain_group_type t = has_prefix t "iOS Keychain Access Group"

  abbrev pub is_credential_type : String → Bool
  is_credential_type t =
      if is_private_key_type t || str_eq t "JSON Web Token (JWT)" || is_keychain_group_type t
      then false
      else true

  abbrev pub has_pem_body : String → Bool
  has_pem_body v = pem_body (without_pem_markers v)

  abbrev normalize : String → String
  normalize s = trim_space (without_newlines s)

  abbrev pub is_all_alpha : String → Bool
  is_all_alpha w =
      not (str_eq w "") && all (λ c. leb 97 c && leb c 122 || leb 65 c && leb c 90) (runes w)

  abbrev pub looks_natural_language : String → Bool
  looks_natural_language v =
      let words = select (λ w. leb 4 (byte_len w) && is_all_alpha w) (fields v) in
      contains_any (trim_space v) " \t" && leb 2 (length words)

  abbrev pad : ℕ → String → String
  pad zero seg = seg
  pad (suc zero) seg = append seg "==="
  pad (suc (suc zero)) seg = append seg "=="
  pad n seg = append seg "="

  abbrev decode_header : String → Option String → Option String
  decode_header seg none = raw_url_decode (without_padding seg)
  decode_header seg (some raw) = some raw

  abbrev has_key : String → List String → Bool
  has_key k = any (str_eq k)

  abbrev names_cert : Option (List String) → Bool
  names_cert none = false
  names_cert (some keys) = has_key "x5c" keys || has_key "x5u" keys || has_key "jku" keys

  abbrev header_keys : Option String → Option (List String)
  header_keys none = none
  header_keys (some raw) = object_keys raw

  abbrev pub jwt_is_public_cert : String → Bool
  jwt_is_public_cert v =
      let seg = pad (byte_len (before_dot v) % 4) (before_dot v) in
      names_cert (header_keys (decode_header seg (url_decode seg)))

  -- the checks that apply to the type of an access group
  abbrev bad_keychain_group : String → Bool
  bad_keychain_group v =
      if str_eq v "keychain-access-groups"
      then true
      else if benign_domain v
      then true
      else not (valid_keychain v)

  unfoldable pub classify_precision : SecretModel F → PrecisionVerdict
  classify_precision s =
      let t = s.secret_type in
      let v = normalize s.secret_string in
      if placeholder v
      then precision_drop
      else if bcrypt v
      then precision_drop
      else if is_credential_type t && looks_natural_language v
      then precision_drop
      else if is_private_key_type t && not (has_pem_body v)
      then precision_drop
      else if str_eq t "JSON Web Token (JWT)" && jwt_is_public_cert v
      then precision_drop
      else if is_keychain_group_type t && bad_keychain_group v
      then precision_drop
      else if public_types t
      then precision_info
      else if is_keychain_group_type t
      then precision_info
      else precision_keep

  abbrev pub downgraded : SecretModel F → SecretModel F
  downgraded s = record s {
    tier = "info";
    secret_confidence = "low";
    score = score_of (normalize s.secret_string);
  }

  abbrev pub retained : SecretModel F → SecretModel F
  retained s = record s { tier = "keep"; score = score_of (normalize s.secret_string) }

  abbrev pub with_tier :
      PrecisionVerdict → SecretModel F → List (SecretModel F) → List (SecretModel F)
  with_tier precision_drop s rest = rest
  with_tier precision_info s rest = downgraded s ∷ rest
  with_tier precision_keep s rest = retained s ∷ rest

  unfoldable pub apply_precision : List (SecretModel F) → List (SecretModel F)
  apply_precision [] = []
  apply_precision (s ∷ rest) = with_tier (classify_precision s) s (apply_precision rest)
