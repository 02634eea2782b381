-- ===== src/Providers/LocalDisk.antt =====
-- internal/providers/localdisk/provider.go: booting from the local disk.
use bootup.Provider.{BootPlan, PlanInput, Target, invalid_target, local_boot, resolve_boot_action}
use bootup.Provider.Source.{UrlParser}
use bootup.Provider.Validation.{validate_target}
use bootup.Provider.Registry.{StageConfig, targets}
use bootup.Providers.{
  ProviderError, apply_options, base_source, find_target, linux_plan, no_artifact, no_verification,
  of_provider, unsupported_action,
}
use bootup.Common.{
  List, Option, Result, String, [], none, not, ok, refuse_if, some, wrap, ◌==◌, ◌>>=◌, ◌>>◌, ◌∷◌,
}

abbrev provider_id : String
provider_id = "local"

pub record LocalDiskProvider : Type 0 where
  pub targets : List Target

-- `defaultTargets`
abbrev pub default_targets : List Target
default_targets =
    record {
      id = "local-disk-auto";
      provider_id = provider_id;
      name = "Boot from local disk";
      action = local_boot;
      catalog = record {
        distribution = "local";
        release = "disk";
        architecture = "amd64";
        kind = "localboot";
      };
      source = base_source "";
      lifecycle = record { status = ""; origin = ""; date = "" };
      options = [];
      secrets = [];
    }
    ∷ []

-- `NewProvider`; a nil list of targets is `none`
abbrev pub new_provider : Option (List Target) → LocalDiskProvider
new_provider none = record { targets = default_targets }
new_provider (some targets) = record { targets = targets }

-- `selectedTarget`
unfoldable pub selected_target :
    UrlParser → LocalDiskProvider → Target → Result ProviderError Target
unfolding find_target validate_target
selected_target parse_url p target = elim (find_target target.id p.targets) [
  | some selected ↦ ok selected
  | none ↦ do
    wrap (λ e. of_provider (invalid_target e)) (validate_target parse_url provider_id target)
    ok target
]

-- `Plan`
unfoldable pub plan : UrlParser → LocalDiskProvider → PlanInput → Result ProviderError BootPlan
unfolding selected_target resolve_boot_action
plan parse_url p input = do
  selected ← selected_target parse_url p input.target
  refuse_if (not (resolve_boot_action selected.action == local_boot)) unsupported_action
  apply_options (linux_plan selected local_boot no_artifact no_artifact "" no_verification)
      input.options

-- `Stage`
abbrev pub stage_plan : StageConfig → Result ProviderError BootPlan
stage_plan config = ok config.plan
