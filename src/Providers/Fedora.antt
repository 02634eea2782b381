-- ===== src/Providers/Fedora.antt =====
-- internal/providers/fedora/provider.go: the Fedora provider, up to its plans.
mod Examples
pub mod Laws
pub mod Pins
pub mod Treeinfo
pub mod Discovery
use Prim.Native.String
use bootup.Provider.{Artifact, BootPlan, LifecycleEntry, PlanInput, Target, invalid_target}
use bootup.Provider.Validation.{validate_target}
use bootup.Http.{fetch, status}
use bootup.Providers.{
  ProviderError, Step, apply_options, base_source, checksums_offline, find_target, linux_plan,
  no_verification, of_http, of_provider, pins_incomplete, staging_dir_required,
  unsupported_architecture, unsupported_distribution, unsupported_kind, with_path,
}
use bootup.Providers.Staging.{World, and_then, reading, require_https, stage_checked}
use bootup.Providers.Fedora.Treeinfo.{
  TreeinfoChecksums, initrd_treeinfo_path, kernel_treeinfo_path, parse_treeinfo_checksums,
}
use bootup.Common.{
  Bool, List, Option, Result, String, [], differ, if◌then◌else◌, none, not, ok, refuse_if, some,
  wrap, ◌&&◌, ◌++◌, ◌==◌, ◌>>=◌, ◌>>◌, ◌∷◌,
}
use bootup.Text.{concat, is_blank, is_empty, to_lower, trim_right_rune, trim_space}

abbrev pub default_release_url : String
default_release_url =
    "https://download.fedoraproject.org/pub/fedora/linux/releases/44/Server/x86_64/os"

abbrev pub default_discovery_url : String
default_discovery_url = "https://download.fedoraproject.org/pub/fedora/linux/releases"

abbrev pub provider_id : String
provider_id = "fedora"

-- A nil list of targets is `none`.
pub record Config : Type 0 where
  pub release_url : String
  pub discovery_url : String
  pub discovery_file : String
  pub kernel_sha256 : String
  pub initrd_sha256 : String
  pub targets : Option (List Target)
  pub lifecycle : List (String × LifecycleEntry)

pub record FedoraProvider : Type 0 where
  pub release_url : String
  pub discovery_url : String
  pub discovery_file : String
  pub kernel_sha256 : String
  pub initrd_sha256 : String
  pub targets : List Target
  pub lifecycle : List (String × LifecycleEntry)
  pub release_url_configured : Bool

-- `defaultTargets`
abbrev pub default_targets : List Target
default_targets =
    record {
      id = "fedora-44-amd64-server-netboot";
      provider_id = provider_id;
      name = "Fedora Server 44 amd64 netboot";
      action = "";
      catalog = record {
        distribution = provider_id;
        release = "44";
        architecture = "amd64";
        kind = "installer";
      };
      source = base_source default_release_url;
      lifecycle = record { status = "supported"; origin = "catalog"; date = "" };
      options = [];
      secrets = [];
    }
    ∷ []

abbrev configured_targets : Option (List Target) → List Target
configured_targets none = default_targets
configured_targets (some targets) = targets

-- `NewProvider`
unfoldable pub new_provider : Config → FedoraProvider
unfolding trim_right_rune trim_space
new_provider config =
    let release_url = trim_right_rune b'/' config.release_url in
    let discovery_url = trim_right_rune b'/' config.discovery_url in
    record {
      release_url = if is_empty release_url then default_release_url else release_url;
      discovery_url = if is_empty discovery_url then default_discovery_url else discovery_url;
      discovery_file = trim_space config.discovery_file;
      kernel_sha256 = config.kernel_sha256;
      initrd_sha256 = config.initrd_sha256;
      targets = configured_targets config.targets;
      lifecycle = config.lifecycle;
      release_url_configured = not (is_blank config.release_url);
    }

-- `targetBaseURL`
unfoldable pub target_base_url : FedoraProvider → Target → String
unfolding trim_right_rune
target_base_url p target =
    if not (is_empty target.source.base_url) && not p.release_url_configured
    then trim_right_rune b'/' target.source.base_url
    else p.release_url

module _ {Keyring : Type 0} (world : World Keyring) where
  -- `selectedTarget`
  unfoldable pub selected_target : FedoraProvider → Target → Result ProviderError Target
  unfolding find_target validate_target
  selected_target p target = elim (find_target target.id p.targets) [
    | some selected ↦ ok selected
    | none ↦ do
      wrap (λ e. of_provider (invalid_target e))
          (validate_target world.http.parse_url provider_id target)
      refuse_if (not (target.catalog.distribution == provider_id)) unsupported_distribution
      refuse_if (not (target.catalog.kind == "installer")) unsupported_kind
      ok target
  ]

  -- the download at the end of `artifactChecksums`
  unfoldable pub fetch_checksums : String → Result ProviderError TreeinfoChecksums
  unfolding require_https fetch parse_treeinfo_checksums
  fetch_checksums release_url = do
    let treeinfo_url = String.◌++◌ release_url "/.treeinfo"
    require_https world.http.parse_url (treeinfo_url ∷ [])
    message ← wrap of_http (fetch world.http treeinfo_url)
    parse_treeinfo_checksums world message

  -- the part of `artifactChecksums` behind the provider's own pins
  unfoldable pub target_checksums : Target → String → Bool → Result ProviderError TreeinfoChecksums
  unfolding to_lower fetch_checksums
  target_checksums target release_url offline = do
    let source = target.source
    refuse_if (differ (is_empty source.kernel_sha256) (is_empty source.initrd_sha256))
        pins_incomplete
    if not (is_empty source.kernel_sha256)
        then ok (record {
          kernel_sha256 = to_lower world.crypto.lower_wide source.kernel_sha256;
          initrd_sha256 = to_lower world.crypto.lower_wide source.initrd_sha256;
        })
        else (do refuse_if offline checksums_offline; fetch_checksums release_url)

  -- `artifactChecksums`
  unfoldable pub artifact_checksums :
      FedoraProvider → Target → String → Bool → Result ProviderError TreeinfoChecksums
  unfolding target_checksums
  artifact_checksums p target release_url offline = do
    refuse_if (differ (is_empty p.kernel_sha256) (is_empty p.initrd_sha256)) pins_incomplete
    if not (is_empty p.kernel_sha256)
        then ok (record { kernel_sha256 = p.kernel_sha256; initrd_sha256 = p.initrd_sha256 })
        else target_checksums target release_url offline

  -- the plan of `Plan`, before the selected options
  unfoldable pub base_plan : Target → String → TreeinfoChecksums → BootPlan
  base_plan selected release_url checksums =
      linux_plan selected ""
        (record {
          name = "vmlinuz";
          url = concat (release_url ∷ "/" ∷ kernel_treeinfo_path ∷ []);
          sha256 = checksums.kernel_sha256;
          path = "";
        })
        (record {
          name = "initrd.img";
          url = concat (release_url ∷ "/" ∷ initrd_treeinfo_path ∷ []);
          sha256 = checksums.initrd_sha256;
          path = "";
        })
        (concat ("inst.repo=" ∷ release_url ∷ " ip=dhcp console=ttyS0" ∷ [])) no_verification

  -- `Plan`
  unfoldable pub plan : FedoraProvider → PlanInput → Result ProviderError BootPlan
  unfolding selected_target target_base_url artifact_checksums base_plan
  plan p input = do
    selected ← selected_target p input.target
    refuse_if (not (selected.catalog.architecture == "amd64")) unsupported_architecture
    let release_url = target_base_url p selected
    checksums ← artifact_checksums p selected release_url input.offline
    apply_options (base_plan selected release_url checksums) input.options

  -- `fetchStageVerify`
  unfoldable pub fetch_stage_verify : String → Artifact → Step String
  unfolding stage_checked
  fetch_stage_verify dir artifact = stage_checked world dir artifact.name artifact

  -- the guards of `FetchAndStageArtifacts`
  unfoldable pub check_plan : String → BootPlan → Result ProviderError (Unit {0})
  unfolding require_https
  check_plan dir boot_plan = do
    refuse_if (is_empty dir) staging_dir_required
    refuse_if (differ (is_empty boot_plan.kernel.sha256) (is_empty boot_plan.initrd.sha256))
        pins_incomplete
    if is_empty boot_plan.kernel.sha256
        then require_https world.http.parse_url (boot_plan.kernel.url ∷ boot_plan.initrd.url ∷ [])
        else ok tt

  -- `FetchAndStageArtifacts`, which is `Stage`
  unfoldable pub fetch_and_stage_artifacts : String → BootPlan → Step BootPlan
  unfolding check_plan fetch_stage_verify
  fetch_and_stage_artifacts dir boot_plan disk =
      and_then (check_plan dir boot_plan, disk)
        (λ _ disk1. and_then (fetch_stage_verify dir boot_plan.kernel disk1) (λ kernel_path disk2.
          and_then (fetch_stage_verify dir boot_plan.initrd disk2) (λ initrd_path. reading (
            ok (record boot_plan {
              kernel = with_path kernel_path boot_plan.kernel;
              initrd = with_path initrd_path boot_plan.initrd;
            })))))
