-- ===== src/Exposure/Tests.antt =====
-- The theorem on morf/apk/exposure.go at a concrete manifest.
use morf.Prelude.{◌≡◌, true, false, [], ◌∷◌, map, select}
use morf.Exposure.{Manifest, Filter, analyze_exposure}
use morf.Exposure.Guards.{is_confident, is_open, open_provider_finding, analyze_exposure-confident}

abbrev deep_link : Filter
deep_link = record {
  categories = "android.intent.category.BROWSABLE" ∷ [];
  data_items = record { scheme = "shop"; host = "" } ∷ [];
  auto_verify = false;
}

abbrev manifest : Manifest
manifest = record {
  activities =
      record { name = "Main"; exported = true; permission = ""; intent_filters = deep_link ∷ [] }
      ∷ [];
  services = [];
  broadcast_receivers = [];
  content_providers =
      record {
        name = "Files";
        exported = true;
        permission = "";
        read_permission = "READ";
        write_permission = "";
      }
      ∷ record {
        name = "Notes";
        exported = true;
        permission = "P";
        read_permission = "";
        write_permission = "";
      }
      ∷ [];
}

analyze_exposure-confident_example :
    select is_confident (analyze_exposure (λ s. s) manifest)
    ≡ map open_provider_finding (select is_open manifest.content_providers)
analyze_exposure-confident_example = analyze_exposure-confident (λ s. s) manifest
