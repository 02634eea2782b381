-- ===== src/Provider/Registry/Examples.antt =====
-- A registry on which the theorems about it are used, and tests of the definitions.
use mathlib.Core.List.{Permᴰ}
use bootup.Provider.{
  Artifact, BootPlan, PlanInput, SecretInput, SecretRef, SecretStore, SourceEntry, Target,
  TargetOption, duplicate_provider, linux_kexec, provider_error,
}
use bootup.Provider.Source.{UrlParser}
use bootup.Provider.Options.{bool_type, valid_option_id, validate_target_options}
use bootup.Provider.Validation.{staged_file, validate_target}
use bootup.Provider.SecretRefs.{resolve_secret_refs}
use bootup.Provider.SecretRefs.Laws.{AreResolved, resolve_secret_refs-AreResolved}
use bootup.Provider.Registry.{
  Discoverer, Provider, Registry, StageConfig, discover_targets, discovery_families, plan, register,
  stage, targets,
}
use bootup.Provider.Registry.Laws.{IsListed, IsOffered, targets_sound}
use bootup.Provider.Registry.Order.{IsSameMap, targets-IsSameMap}
use bootup.Provider.Registry.Planning.{IsPlanned, plan-IsPlanned}
use bootup.Provider.Registry.Discovery.{IsDiscovered, discover_targets-IsDiscovered}
use bootup.Common.{
  All, Bool-cases, String, [], arith, eq_iff, err, false, inl, inr, lookup, none, ok, refl, some,
  true, ◌==◌, ◌∷◌, ◌≡◌,
}
use bootup.Text.{is_control, trim_space}
use bootup.Provider.Fragments.CommandLine.{IsApplied, IsPrintable, apply_selected_options-IsApplied}
use bootup.Provider.Fragments.{apply_selected_options, validate_selected_options}

abbrev no_urls : UrlParser
no_urls = λ _. none

abbrev empty_source : SourceEntry
empty_source = record {
  base_url = "";
  iso_name = "";
  iso_sha256 = "";
  kernel_path = "";
  initrd_path = "";
  kernel_sha256 = "";
  initrd_sha256 = "";
  cmdline = "";
}

abbrev quiet : TargetOption
quiet = record {
  id = "quiet";
  label = "Quiet";
  type = bool_type;
  fragment = "quiet";
  values = [];
  template = "";
  secret = false;
}

abbrev token : SecretInput
token = record {
  id = "token";
  label = "Token";
  purpose = "Access";
  required = true;
  delivery = staged_file;
}

abbrev target : Target
target = record {
  id = "mini-1";
  provider_id = "mini";
  name = "Mini 1";
  action = "";
  catalog = record { distribution = "mini"; release = "1"; architecture = "amd64"; kind = "live" };
  source = empty_source;
  lifecycle = record { status = "supported"; origin = ""; date = "2026-04-30" };
  options = quiet ∷ [];
  secrets = token ∷ [];
}

abbrev store : SecretStore
store = record { ids = "token" ∷ []; has = λ id. id == "token" }

abbrev no_artifact : Artifact
no_artifact = record { name = ""; url = ""; sha256 = ""; path = "" }

abbrev boot_plan : BootPlan
boot_plan = record {
  target = target;
  action = linux_kexec;
  kernel = no_artifact;
  initrd = no_artifact;
  cmdline = "ro";
  verification = record { metadata_url = ""; checksum_url = ""; signature_url = "" };
  freebsd_kboot = record {
    loader = no_artifact;
    loader_help = no_artifact;
    loader_archive = no_artifact;
    payload = no_artifact;
    payload_root = "";
    args = [];
  };
  secret_refs = [];
}

abbrev discoverer : Discoverer
discoverer = record {
  discovery_family = record {
    id = "minis";
    provider_id = "mini";
    name = "Minis";
    description = "";
  };
  discover_targets = ok (target ∷ []);
}

abbrev provider : Provider
provider = record {
  id = "mini";
  targets = ok (target ∷ []);
  plan = λ input. ok (record boot_plan { target = input.target });
  discoverer = some discoverer;
  stager = some (λ config. ok (record (config.plan) { secret_refs = config.secret_refs }));
}

abbrev other : Provider
other = record {
  id = "alpha";
  targets = ok [];
  plan = λ _. err (provider_error "none");
  discoverer = none;
  stager = none;
}

abbrev registry : Registry
registry = record { providers = ("mini", provider) ∷ ("alpha", other) ∷ [] }

abbrev turned : Registry
turned = record { providers = ("alpha", other) ∷ ("mini", provider) ∷ [] }

abbrev input : PlanInput
input = record {
  target = target;
  options = record { id = "quiet"; value = "true" } ∷ [];
  secrets = some store;
  secret_refs = [];
  offline = false;
}

abbrev token_ref : SecretRef
token_ref = record { id = "token"; input_id = "token" }

abbrev result : BootPlan
result = record boot_plan { secret_refs = token_ref ∷ [] }

abbrev config : StageConfig
config = record {
  plan = result;
  staging_dir = "/stage";
  secrets = some store;
  secret_refs = [];
  progress = none;
}

alpha_registers : register (record { providers = ("mini", provider) ∷ [] }) other ≡ ok turned
unfolding register
alpha_registers = refl

mini_again_fails : register registry provider ≡ err (duplicate_provider "mini")
unfolding register
mini_again_fails = refl

token_resolves : resolve_secret_refs (token ∷ []) [] (some store) ≡ ok (token_ref ∷ [])
unfolding resolve_secret_refs trim_space valid_option_id
token_resolves = refl

targets_list : targets no_urls registry ≡ ok (target ∷ [])
unfolding targets validate_target trim_space is_control
targets_list = refl

targets_discovered : discover_targets no_urls registry "minis" ≡ ok (target ∷ [])
unfolding discover_targets trim_space validate_target is_control
targets_discovered = refl

options_accepted : validate_target_options (quiet ∷ []) ≡ ok tt
unfolding validate_target_options trim_space is_control
options_accepted = refl

planned_boot : plan registry input ≡ ok result
unfolding plan validate_selected_options trim_space resolve_secret_refs valid_option_id
planned_boot = refl

staged_plan : stage registry config ≡ ok result
unfolding stage resolve_secret_refs trim_space valid_option_id
staged_plan = refl

turned_same : IsSameMap registry turned
turned_same = record { order = Permᴰ.swap refl refl; values = λ id. values_same id }
  where
    values_same : (id : String) → lookup id registry.providers ≡ lookup id turned.providers
    values_same id = elim (Bool-cases ("mini" == id)) [
      | inl here ↦ let same : "mini" ≡ id = (eq_iff "mini" id).0 here in rw (← same) refl
      | inr later ↦ ground (arith, later)
    ]

resolve_secret_refs-AreResolved_example : AreResolved (token ∷ []) (some store) (token_ref ∷ [])
resolve_secret_refs-AreResolved_example =
    resolve_secret_refs-AreResolved (token ∷ []) (some store) [] (token_ref ∷ []) token_resolves

targets_sound_example :
    All (IsOffered no_urls registry) (target ∷ [])
    × ((id : String) (p : Provider)
        → lookup id registry.providers ≡ some p
        → IsListed no_urls registry p (target ∷ []))
targets_sound_example = targets_sound no_urls registry (target ∷ []) targets_list

targets-IsSameMap_example :
    (targets no_urls registry ≡ targets no_urls turned)
    × (discovery_families registry ≡ discovery_families turned)
    × ((family_id : String)
        → discover_targets no_urls registry family_id ≡ discover_targets no_urls turned family_id)
targets-IsSameMap_example = targets-IsSameMap registry turned turned_same no_urls

plan-IsPlanned_example : IsPlanned registry input result
plan-IsPlanned_example = plan-IsPlanned registry input result options_accepted planned_boot

discover_targets-IsDiscovered_example : IsDiscovered no_urls registry "minis" (target ∷ [])
discover_targets-IsDiscovered_example =
    discover_targets-IsDiscovered no_urls registry "minis" (target ∷ []) targets_discovered

options_apply :
    apply_selected_options boot_plan input.options ≡ ok (record boot_plan { cmdline = "ro quiet" })
unfolding apply_selected_options
options_apply = refl

cmdline_clear : IsPrintable boot_plan.cmdline
unfolding is_control
cmdline_clear = (refl, (refl, tt))

apply_selected_options-IsApplied_example :
    IsApplied boot_plan input.options (record boot_plan { cmdline = "ro quiet" })
apply_selected_options-IsApplied_example =
    apply_selected_options-IsApplied boot_plan input.options
      (record boot_plan { cmdline = "ro quiet" }) options_accepted cmdline_clear options_apply
