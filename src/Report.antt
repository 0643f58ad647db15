-- ===== src/Report.antt =====
-- morf/report/sarif.go: the masked preview of a secret, the masking of a stored result, and the SARIF
-- document of a scan. A text is given by its runes where these are counted; scores are an argument.
pub mod Json
pub mod Preview
pub mod Masked
pub mod Rules
mod Tests
use Prim.Native.String
use morf.Prelude.{
  ℕ, ◌+◌, ◌-◌, String, Bool, true, false, not, List, [], ◌∷◌, ◌++◌, if◌then◌else◌, str_eq, ltb,
  ◌==◌, length, take, drop, any,
}
use morf.Finding.{SecretModel}
use morf.Exposure.{
  PlatformFinding, Severity, severity_info, severity_low, severity_medium, severity_high,
  tier_for_severity,
}

abbrev pub ellipsis : List ℕ
ellipsis = 8230 ∷ []

unfoldable pub mask_secret : List ℕ → List ℕ
mask_secret runes =
    let n = length runes in
    let first = if ltb n 4 then n else 4 in
    let last = if ltb n (first + 2) then 0 else 2 in
    let tail = if ltb 0 last then drop (n - last) runes else [] in
    if n == 0 then ellipsis else take first runes ++ (ellipsis ++ tail)

abbrev pub level_for_tier : String → String
level_for_tier tier =
    if str_eq tier "keep" then "error" else if str_eq tier "info" then "note" else "warning"

abbrev pub level_for_platform_severity : Severity → String
level_for_platform_severity severity_high = "error"
level_for_platform_severity severity_info = "note"
level_for_platform_severity severity_medium = "warning"
level_for_platform_severity severity_low = "warning"

pub record Rule : Type 0 where
  pub id : String
  pub name : String
  pub short_description : String
  pub tags : List String

pub data Prop (F : Type 0) : Type 0 where
  text : String → Prop F
  number : F → Prop F

pub record SarifResult (F : Type 0) : Type 0 where
  pub rule_id : String
  pub level : String
  pub message : String
  pub uri : String
  pub start_line : List ℕ
  pub properties : List (String × Prop F)

pub record SarifRun (F : Type 0) : Type 0 where
  pub rules : List Rule
  pub results : List (SarifResult F)
  pub target : String
  pub platform : String

abbrev pub contains_string : List String → String → Bool
contains_string xs s = any (λ x. str_eq x s) xs

abbrev pub tag : String → Rule → Rule
tag masvs_id r =
    if str_eq masvs_id ""
    then r
    else if contains_string r.tags masvs_id
    then r
    else record r { tags = r.tags ++ masvs_id ∷ [] }

-- `ruleIndex` is where the rule of an id stands
abbrev pub add_rule : String → String → String → String → List Rule → List Rule
add_rule id name description masvs_id [] =
    record {
      id = id;
      name = name;
      short_description = description;
      tags = if str_eq masvs_id "" then [] else masvs_id ∷ [];
    }
    ∷ []
add_rule id name description masvs_id (r ∷ rest) =
    if str_eq r.id id then tag masvs_id r ∷ rest else r ∷ add_rule id name description masvs_id rest

abbrev property : {F : Type 0} → String → String → List (String × Prop F)
property key value = if str_eq value "" then [] else (key, text value) ∷ []

abbrev pub secret_rule : {F : Type 0} → SecretModel F → List Rule → List Rule
secret_rule s rules =
    add_rule s.secret_type s.secret_type
      (String.◌++◌ "Hardcoded secret of type " (String.◌++◌ s.secret_type " detected by MORF."))
      s.masvs_id rules

abbrev pub platform_rule : PlatformFinding → List Rule → List Rule
platform_rule pf rules =
    add_rule pf.rule_id pf.title (String.◌++◌ pf.title " detected by MORF.") pf.masvs_id rules

module _ {F : Type 0} (is_zero : F → Bool) (runes_of : String → List ℕ)
    (text_of : List ℕ → String) where
  abbrev pub secret_result : SecretModel F → SarifResult F
  secret_result s = record {
    rule_id = s.secret_type;
    level = level_for_tier s.tier;
    message = String.◌++◌ s.secret_type (
        String.◌++◌ " (masked: "
          (String.◌++◌ (text_of (mask_secret (runes_of s.secret_string))) ")"));
    uri = s.file_location;
    start_line = s.line_no ∷ [];
    properties =
        (if is_zero s.score then [] else ("score", number s.score) ∷ [])
        ++ (property "tier" s.tier
            ++ (property "verificationStatus" s.verification_status
                ++ property "masvsId" s.masvs_id));
  }

  abbrev pub platform_result : PlatformFinding → SarifResult F
  platform_result pf =
      let tier = if str_eq pf.tier "" then tier_for_severity pf.severity else pf.tier in
      record {
        rule_id = pf.rule_id;
        level = level_for_platform_severity pf.severity;
        message = String.◌++◌ pf.title (String.◌++◌ ": " pf.evidence);
        uri = pf.location;
        start_line = [];
        properties =
            property "category" pf.category
            ++ (property "tier" tier ++ property "masvsId" pf.masvs_id);
      }

  abbrev pub add_secrets : List (SecretModel F) → SarifRun F → SarifRun F
  add_secrets [] run = run
  add_secrets (s ∷ rest) run = add_secrets rest (record run {
    rules = secret_rule s run.rules;
    results = run.results ++ secret_result s ∷ [];
  })

  abbrev pub add_platform : List PlatformFinding → SarifRun F → SarifRun F
  add_platform [] run = run
  add_platform (pf ∷ rest) run = add_platform rest (record run {
    rules = platform_rule pf run.rules;
    results = run.results ++ platform_result pf ∷ [];
  })

  -- the run of the document that is then printed as JSON
  unfoldable pub encode_sarif_with_findings :
      String → String → List (SecretModel F) → List PlatformFinding → SarifRun F
  unfolding mask_secret
  encode_sarif_with_findings target platform secrets platform_findings =
      add_platform platform_findings (
        add_secrets secrets
          (record { rules = []; results = []; target = target; platform = platform }))

  abbrev pub encode_sarif : String → String → List (SecretModel F) → SarifRun F
  unfolding encode_sarif_with_findings
  encode_sarif target platform secrets = encode_sarif_with_findings target platform secrets []
