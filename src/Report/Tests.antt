-- ===== src/Report/Tests.antt =====
-- The theorems on morf/report/sarif.go at small secrets and findings.
use morf.Prelude.{ℕ, ◌≡◌, refl, String, true, List, [], ◌∷◌, ◌++◌, map}
use morf.Finding.{SecretModel}
use morf.Exposure.{PlatformFinding, severity_high}
use morf.Report.{mask_secret, secret_result, platform_result, encode_sarif_with_findings}
use morf.Report.Json.{
  Fields, str, num, array, object, no_element, element, end, field, mask_envelope,
}
use morf.Report.Masked.{
  after, at_it, objects, related, no_items, arrays, same_preview, mask_envelope-hides,
}
use morf.Report.Rules.{ids, first_seen, secret_ids, platform_ids, encode_sarif_with_findings-rules}

abbrev long : List ℕ
long = 65 ∷ 75 ∷ 73 ∷ 65 ∷ 1 ∷ 2 ∷ 88 ∷ 89 ∷ []

abbrev longer : List ℕ
longer = 65 ∷ 75 ∷ 73 ∷ 65 ∷ 7 ∷ 7 ∷ 7 ∷ 88 ∷ 89 ∷ []

abbrev envelope : List ℕ → Fields
envelope secret = field "code" (num "200") (
    field "data"
      (object (
        field "secrets"
          (array (element (object (field "secretString" (str secret) end)) no_element)) end))
      end)

previews : mask_secret long ≡ mask_secret longer
unfolding mask_secret
previews = refl

mask_envelope-hides_example : mask_envelope (envelope long) ≡ mask_envelope (envelope longer)
mask_envelope-hides_example = mask_envelope-hides (envelope long) (envelope longer) (
    after "code" (num "200") refl (
      at_it "data" end refl (
        objects (
          at_it "secrets" end refl (
            arrays (
              related (objects (at_it "secretString" end refl (same_preview long longer previews)))
                no_items))))))

abbrev secret : String → SecretModel ℕ
secret secret_type = record {
  type = secret_type;
  line_no = 3;
  file_location = "a.xml";
  secret_type = secret_type;
  secret_string = "k";
  secret_confidence = "high";
  score = 0;
  tier = "keep";
  verification_status = "";
  masvs_id = "";
}

abbrev exported : PlatformFinding
exported = record {
  rule_id = "exported";
  title = "Exported";
  severity = severity_high;
  masvs_id = "MASVS-PLATFORM-1";
  category = "platform";
  location = "AndroidManifest.xml";
  evidence = "Main";
  tier = "";
}

abbrev secrets : List (SecretModel ℕ)
secrets = secret "aws" ∷ secret "gcp" ∷ secret "aws" ∷ []

encode_sarif_with_findings-rules_example :
    let run =
      encode_sarif_with_findings
        (λ n. true)
        (λ s. [])
        (λ r. "")
        "a.apk"
        "android"
        secrets
        (exported ∷ []) in
    (ids run.rules ≡ first_seen [] (secret_ids secrets ++ platform_ids (exported ∷ [])))
    × (run.results
        ≡ map (secret_result (λ n. true) (λ s. []) (λ r. "")) secrets
          ++ map (platform_result (λ n. true) (λ s. []) (λ r. "")) (exported ∷ []))
encode_sarif_with_findings-rules_example =
    encode_sarif_with_findings-rules (λ n. true) (λ s. []) (λ r. "") "a.apk" "android" secrets
      (exported ∷ [])
