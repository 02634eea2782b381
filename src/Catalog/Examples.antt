-- ===== src/Catalog/Examples.antt =====
-- Documents on which the theorems about catalogs are used.
use bootup.Common.{
  All, Distinct, List, String, [], contains, err, none, ok, pos, refl, true, ◌↔◌, ◌∷◌, ◌≡◌,
}
use bootup.Catalog.Composition.{IsCurrent, all_entries, compose_iff, target_ids}
use bootup.Catalog.Parsing.{IsUsable, check_document-generate_document, check_document_iff}
use bootup.Provider.{SourceEntry, local_boot}
use bootup.Provider.Source.{UrlParser}
use bootup.Catalog.{
  Document, SourceDocument, SourceTarget, check_document, compose, document_of, duplicate_target,
  generate_document, generated_target,
}
use bootup.Text.{trim_space}
use bootup.Provider.Validation.{validate_target}

abbrev no_urls : UrlParser
no_urls = λ _. none

abbrev no_source : SourceEntry
no_source = record {
  base_url = "";
  iso_name = "";
  iso_sha256 = "";
  kernel_path = "";
  initrd_path = "";
  kernel_sha256 = "";
  initrd_sha256 = "";
  cmdline = "";
}

abbrev source_target : SourceTarget
source_target = record {
  id = "local";
  name = "Local disk";
  action = local_boot;
  distribution = "";
  release = "any";
  architecture = "amd64";
  kind = "disk";
  source = no_source;
  lifecycle = record { status = ""; origin = ""; date = "" };
  options = [];
  secrets = [];
}

-- The same target twice: it is generated, and does not parse.
abbrev twice : SourceDocument
twice = record {
  schema_version = pos 1;
  providers = record { id = "localdisk"; targets = source_target ∷ source_target ∷ [] } ∷ [];
}

abbrev doubled : Document
doubled =
    document_of
      (generated_target "localdisk" source_target ∷ generated_target "localdisk" source_target ∷ [])

abbrev known : List String
known = "localdisk" ∷ []

twice_generates : generate_document no_urls twice ≡ ok doubled
unfolding generate_document validate_target trim_space
twice_generates = refl

doubled_fails : check_document no_urls doubled known ≡ err duplicate_target
unfolding check_document generated_target validate_target trim_space
doubled_fails = refl

known_providers : All (λ t. contains t.provider_id known ≡ true) doubled.entries
unfolding generated_target
known_providers = (refl, (refl, tt))

compose_iff_example : (compose (doubled ∷ []) ≡ ok doubled) ↔ (
    All IsCurrent (doubled ∷ [])
    × Distinct (target_ids (all_entries (doubled ∷ [])))
    × (doubled ≡ document_of (all_entries (doubled ∷ []))))
compose_iff_example = compose_iff (doubled ∷ []) doubled

check_document_iff_example : (check_document no_urls doubled known ≡ ok doubled) ↔ (
    (doubled ≡ doubled)
    × (doubled.schema_version ≡ pos 1)
    × Distinct (target_ids doubled.entries)
    × All (IsUsable no_urls known) doubled.entries)
check_document_iff_example = check_document_iff no_urls doubled doubled known

check_document-generate_document_example :
    (check_document no_urls doubled known ≡ ok doubled) ↔ Distinct (target_ids doubled.entries)
check_document-generate_document_example =
    check_document-generate_document no_urls twice doubled known twice_generates known_providers
