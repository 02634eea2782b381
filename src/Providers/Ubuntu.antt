-- ===== src/Providers/Ubuntu.antt =====
-- internal/providers/ubuntu/provider.go: the Ubuntu provider, up to its plans. The discovery of its
-- targets and its staging are in the children.
mod Examples
pub mod Discovery
pub mod Staging
use Prim.Native.String
use bootup.Verify.{Bytes}
use bootup.Provider.{BootPlan, LifecycleEntry, PlanInput, Target, invalid_target}
use bootup.Provider.Source.{UrlParser}
use bootup.Provider.Validation.{validate_target}
use bootup.Providers.{
  ProviderError, apply_options, base_source, find_target, iso_name_required, linux_plan,
  of_provider, unsupported_architecture, unsupported_distribution, unsupported_kind,
}
use bootup.Common.{
  List, Option, Result, String, [], err, if◌then◌else◌, none, not, ok, refuse_if, some, wrap, ◌++◌,
  ◌==◌, ◌>>=◌, ◌>>◌, ◌∷◌,
}
use bootup.Text.{concat, is_empty, trim_right_rune, trim_space}

abbrev pub default_release_url : String
default_release_url = "https://releases.ubuntu.com/26.04"

abbrev pub default_discovery_url : String
default_discovery_url = "https://releases.ubuntu.com/releases"

abbrev pub provider_id : String
provider_id = "ubuntu"

abbrev pub target_id : String
target_id = "ubuntu-2604-amd64-netboot"

abbrev pub live_server_iso : String
live_server_iso = "ubuntu-26.04-live-server-amd64.iso"

-- A nil list of targets is `none`.
pub record Config : Type 0 where
  pub release_url : String
  pub discovery_url : String
  pub discovery_file : String
  pub keyring : Bytes
  pub kernel_sha256 : String
  pub initrd_sha256 : String
  pub targets : Option (List Target)
  pub lifecycle : List (String × LifecycleEntry)

pub record UbuntuProvider : Type 0 where
  pub release_url : String
  pub discovery_url : String
  pub discovery_file : String
  pub keyring : Bytes
  pub kernel_sha256 : String
  pub initrd_sha256 : String
  pub targets : List Target
  pub lifecycle : List (String × LifecycleEntry)

-- `defaultTargets`
abbrev pub default_targets : List Target
default_targets =
    record {
      id = target_id;
      provider_id = provider_id;
      name = "Ubuntu 26.04 amd64 netboot";
      action = "";
      catalog = record {
        distribution = "ubuntu";
        release = "26.04";
        architecture = "amd64";
        kind = "installer";
      };
      source = base_source "";
      lifecycle = record { status = ""; origin = ""; date = "" };
      options = [];
      secrets = [];
    }
    ∷ []

abbrev configured_targets : Option (List Target) → List Target
configured_targets none = default_targets
configured_targets (some targets) = targets

-- `NewProvider`
unfoldable pub new_provider : Config → UbuntuProvider
unfolding trim_right_rune trim_space
new_provider config =
    let release_url = trim_right_rune b'/' config.release_url in
    let discovery_url = trim_right_rune b'/' config.discovery_url in
    record {
      release_url = if is_empty release_url then default_release_url else release_url;
      discovery_url = if is_empty discovery_url then default_discovery_url else discovery_url;
      discovery_file = trim_space config.discovery_file;
      keyring = config.keyring;
      kernel_sha256 = config.kernel_sha256;
      initrd_sha256 = config.initrd_sha256;
      targets = configured_targets config.targets;
      lifecycle = config.lifecycle;
    }

-- `targetBaseURL`
unfoldable pub target_base_url : Target → String → String
unfolding trim_right_rune
target_base_url target fallback =
    if is_empty target.source.base_url
    then fallback
    else trim_right_rune b'/' target.source.base_url

-- `targetISOName`
unfoldable pub target_iso_name : Target → Result ProviderError String
target_iso_name target =
    if not (is_empty target.source.iso_name)
    then ok target.source.iso_name
    else if target.id == target_id
    then ok live_server_iso
    else err iso_name_required

-- `selectedTarget`
unfoldable pub selected_target : UrlParser → UbuntuProvider → Target → Result ProviderError Target
unfolding find_target validate_target
selected_target parse_url p target = elim (find_target target.id p.targets) [
  | some selected ↦ ok selected
  | none ↦ do
    wrap (λ e. of_provider (invalid_target e)) (validate_target parse_url provider_id target)
    refuse_if (not (target.catalog.distribution == provider_id)) unsupported_distribution
    refuse_if (not (target.catalog.kind == "installer")) unsupported_kind
    ok target
]

-- the plan of `Plan`, before the selected options
unfoldable pub base_plan : UbuntuProvider → Target → String → String → BootPlan
base_plan p selected release_url iso_name =
    let base = concat (release_url ∷ "/netboot/" ∷ selected.catalog.architecture ∷ "/" ∷ []) in
    linux_plan selected ""
      (record {
        name = "linux";
        url = String.◌++◌ base "linux";
        sha256 = p.kernel_sha256;
        path = "";
      })
      (record {
        name = "initrd";
        url = String.◌++◌ base "initrd";
        sha256 = p.initrd_sha256;
        path = "";
      })
      (concat ("url=" ∷ release_url ∷ "/" ∷ iso_name ∷ " ip=dhcp console=ttyS0" ∷ []))
      (record {
        metadata_url = "";
        checksum_url = String.◌++◌ release_url "/SHA256SUMS";
        signature_url = String.◌++◌ release_url "/SHA256SUMS.gpg";
      })

-- `Plan`
unfoldable pub plan : UrlParser → UbuntuProvider → PlanInput → Result ProviderError BootPlan
unfolding selected_target target_base_url target_iso_name base_plan
plan parse_url p input = do
  selected ← selected_target parse_url p input.target
  refuse_if (not (selected.catalog.architecture == "amd64")) unsupported_architecture
  iso_name ← target_iso_name selected
  apply_options (base_plan p selected (target_base_url selected p.release_url) iso_name)
      input.options
