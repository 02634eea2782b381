-- ===== src/Providers/Debian.antt =====
-- internal/providers/debian/provider.go: the Debian provider, up to its plans. The discovery of
-- its targets and its staging are in the children.
mod Examples
pub mod Discovery
pub mod Staging
use bootup.Verify.{Bytes}
use bootup.Provider.{Artifact, BootPlan, LifecycleEntry, PlanInput, Target, invalid_target}
use bootup.Provider.Source.{UrlParser}
use bootup.Provider.Validation.{validate_target}
use bootup.Providers.{
  ProviderError, apply_options, base_source, find_target, linux_plan, of_provider,
  unsupported_architecture, unsupported_distribution, unsupported_kind,
}
use bootup.Common.{
  List, Option, Result, String, [], if◌then◌else◌, none, not, ok, refuse_if, some, wrap, ◌==◌,
  ◌>>=◌, ◌>>◌, ◌∷◌,
}
use bootup.Text.{concat, is_empty, trim_right_rune, trim_space}

abbrev pub default_mirror_url : String
default_mirror_url = "https://deb.debian.org/debian"

abbrev pub provider_id : String
provider_id = "debian"

-- A nil list of targets is `none`.
pub record Config : Type 0 where
  pub mirror_url : String
  pub discovery_url : String
  pub discovery_file : String
  pub keyring : Bytes
  pub targets : Option (List Target)
  pub lifecycle : List (String × LifecycleEntry)

pub record DebianProvider : Type 0 where
  pub mirror_url : String
  pub discovery_url : String
  pub discovery_file : String
  pub keyring : Bytes
  pub targets : List Target
  pub lifecycle : List (String × LifecycleEntry)

-- `defaultTargets`
abbrev pub default_targets : List Target
default_targets =
    record {
      id = "debian-trixie-amd64-netboot";
      provider_id = provider_id;
      name = "Debian trixie amd64 netboot";
      action = "";
      catalog = record {
        distribution = "debian";
        release = "trixie";
        architecture = "amd64";
        kind = "installer";
      };
      source = base_source "";
      lifecycle = record { status = ""; origin = ""; date = "" };
      options = [];
      secrets = [];
    }
    ∷ []

abbrev configured_targets : Option (List Target) → List Target
configured_targets none = default_targets
configured_targets (some targets) = targets

-- `NewProvider`
unfoldable pub new_provider : Config → DebianProvider
unfolding trim_right_rune trim_space
new_provider config =
    let mirror = trim_right_rune b'/' config.mirror_url in
    let mirror_url = if is_empty mirror then default_mirror_url else mirror in
    let discovery_url = trim_right_rune b'/' config.discovery_url in
    record {
      mirror_url = mirror_url;
      discovery_url = if is_empty discovery_url then mirror_url else discovery_url;
      discovery_file = trim_space config.discovery_file;
      keyring = config.keyring;
      targets = configured_targets config.targets;
      lifecycle = config.lifecycle;
    }

-- `targetBaseURL`
unfoldable pub target_base_url : Target → String → String
unfolding trim_right_rune
target_base_url target fallback =
    if is_empty target.source.base_url
    then fallback
    else trim_right_rune b'/' target.source.base_url

-- `selectedTarget`
unfoldable pub selected_target : UrlParser → DebianProvider → Target → Result ProviderError Target
unfolding find_target validate_target
selected_target parse_url p target = elim (find_target target.id p.targets) [
  | some selected ↦ ok selected
  | none ↦ do
    wrap (λ e. of_provider (invalid_target e)) (validate_target parse_url provider_id target)
    refuse_if (not (target.catalog.distribution == provider_id)) unsupported_distribution
    refuse_if (not (target.catalog.kind == "installer")) unsupported_kind
    ok target
]

-- an artifact of a Debian plan, which has no pin
abbrev installer_artifact : String → String → String → Artifact
installer_artifact name base_url architecture = record {
  name = name;
  url = concat (base_url ∷ "/debian-installer/" ∷ architecture ∷ "/" ∷ name ∷ []);
  sha256 = "";
  path = "";
}

-- the plan of `Plan`, before the selected options
unfoldable pub base_plan : Target → String → BootPlan
base_plan selected base_url =
    let release = selected.catalog.release in
    let architecture = selected.catalog.architecture in
    let images_base = concat (
      base_url ∷ "/dists/" ∷ release ∷ "/main/installer-" ∷ architecture ∷ "/current/images"
      ∷ []) in
    let installer_base = concat (images_base ∷ "/netboot" ∷ []) in
    linux_plan selected "" (installer_artifact "linux" installer_base architecture)
      (installer_artifact "initrd.gz" installer_base architecture) "priority=low console=ttyS0"
      (record {
        metadata_url = concat (base_url ∷ "/dists/" ∷ release ∷ "/InRelease" ∷ []);
        checksum_url = concat (images_base ∷ "/SHA256SUMS" ∷ []);
        signature_url = "";
      })

-- `Plan`
unfoldable pub plan : UrlParser → DebianProvider → PlanInput → Result ProviderError BootPlan
unfolding selected_target target_base_url base_plan
plan parse_url p input = do
  selected ← selected_target parse_url p input.target
  refuse_if (not (selected.catalog.architecture == "amd64")) unsupported_architecture
  apply_options (base_plan selected (target_base_url selected p.mirror_url)) input.options
