-- ===== src/Exposure.antt =====
-- morf/apk/exposure.go: the findings on exported components and deep links of a parsed manifest, with
-- the types of morf/models/manifest_types.go and morf/models/PlatformFinding.go that it reads.
-- `strings.ToLower` is an argument.
pub mod Guards
mod Tests
use Prim.Native.String
use morf.Prelude.{
  String, Bool, true, false, not, ◌&&◌, ◌||◌, List, [], ◌∷◌, ◌++◌, if◌then◌else◌, str_eq, any,
}

pub data Severity : Type 0 where
  severity_info severity_low severity_medium severity_high : Severity

abbrev pub tier_for_severity : Severity → String
tier_for_severity severity_high = "keep"
tier_for_severity _ = "info"

pub record PlatformFinding : Type 0 where
  pub rule_id : String
  pub title : String
  pub severity : Severity
  pub masvs_id : String
  pub category : String
  pub location : String
  pub evidence : String
  pub tier : String

pub record FilterData : Type 0 where
  pub scheme : String
  pub host : String

pub record Filter : Type 0 where
  pub categories : List String
  pub data_items : List FilterData
  pub auto_verify : Bool

-- an activity, a service or a broadcast receiver
pub record Component : Type 0 where
  pub name : String
  pub exported : Bool
  pub permission : String
  pub intent_filters : List Filter

pub record Provider : Type 0 where
  pub name : String
  pub exported : Bool
  pub permission : String
  pub read_permission : String
  pub write_permission : String

pub record Manifest : Type 0 where
  pub activities : List Component
  pub services : List Component
  pub broadcast_receivers : List Component
  pub content_providers : List Provider

abbrev pub platform_finding : String → String → Severity → String → PlatformFinding
platform_finding rule_id title severity evidence = record {
  rule_id = rule_id;
  title = title;
  severity = severity;
  masvs_id = "MASVS-PLATFORM-1";
  category = "platform";
  location = "AndroidManifest.xml";
  evidence = evidence;
  tier = tier_for_severity severity;
}

abbrev pub new_exported_finding : String → String → Severity → PlatformFinding
new_exported_finding name kind severity =
    platform_finding "exported-component-no-permission"
      "Exported component without permission guard" severity
      (String.◌++◌ name
        (String.◌++◌ " (" (String.◌++◌ kind "): exported=true, no android:permission")))

abbrev pub custom_scheme_finding : String → String → PlatformFinding
custom_scheme_finding scheme host =
    let prefix = String.◌++◌ scheme "://" in
    platform_finding "browsable-custom-scheme-deeplink"
      "Browsable custom-scheme deep-link (potential scheme hijack)" severity_medium
      (if str_eq host "" then prefix else String.◌++◌ prefix host)

abbrev pub app_link_no_auto_verify_finding : String → String → PlatformFinding
app_link_no_auto_verify_finding name host =
    platform_finding "app-link-no-autoverify" "App Link intent-filter missing android:autoVerify"
      severity_low (if str_eq host "" then name else host)

abbrev pub has_browsable_category : Filter → Bool
has_browsable_category f = any (λ cat. str_eq cat "android.intent.category.BROWSABLE") f.categories

unfoldable pub provider_is_permission_guarded : Provider → Bool
provider_is_permission_guarded p =
    if not (str_eq p.permission "")
    then true
    else not (str_eq p.read_permission "") && not (str_eq p.write_permission "")

unfoldable pub provider_findings : List Provider → List PlatformFinding
unfolding provider_is_permission_guarded
provider_findings [] = []
provider_findings (p ∷ rest) =
    let others = provider_findings rest in
    if not p.exported
    then others
    else if not (provider_is_permission_guarded p)
    then new_exported_finding p.name "provider" severity_high ∷ others
    else others

module _ (to_lower : String → String) where
  -- one round of the inner loop of `analyzeIntentFilters`
  unfoldable pub data_findings : String → Filter → FilterData → List PlatformFinding
  data_findings name f d =
      let browsable = has_browsable_category f in
      let scheme = to_lower d.scheme in
      if str_eq d.scheme ""
      then []
      else if not (str_eq scheme "http") && not (str_eq scheme "https")
      then (if browsable then custom_scheme_finding d.scheme d.host ∷ [] else [])
      else if str_eq scheme "https" && browsable
      then (if not f.auto_verify then app_link_no_auto_verify_finding name d.host ∷ [] else [])
      else []

  unfoldable pub filter_findings : String → Filter → List FilterData → List PlatformFinding
  unfolding data_findings
  filter_findings name f [] = []
  filter_findings name f (d ∷ rest) = data_findings name f d ++ filter_findings name f rest

  unfoldable pub analyze_intent_filters : String → List Filter → List PlatformFinding
  unfolding filter_findings
  analyze_intent_filters name [] = []
  analyze_intent_filters name (f ∷ rest) =
      filter_findings name f f.data_items ++ analyze_intent_filters name rest

  unfoldable pub component_findings : String → List Component → List PlatformFinding
  unfolding analyze_intent_filters
  component_findings kind [] = []
  component_findings kind (a ∷ rest) =
      let others = component_findings kind rest in
      if not a.exported
      then others
      else (if str_eq a.permission ""
          then new_exported_finding a.name kind severity_medium ∷ []
          else [])
        ++ (analyze_intent_filters a.name a.intent_filters ++ others)

  unfoldable pub analyze_exposure : Manifest → List PlatformFinding
  unfolding component_findings provider_findings
  analyze_exposure m =
      component_findings "activity" m.activities
      ++ (component_findings "service" m.services
          ++ (component_findings "receiver" m.broadcast_receivers
              ++ provider_findings m.content_providers))
