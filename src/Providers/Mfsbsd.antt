-- ===== src/Providers/Mfsbsd.antt =====
-- internal/providers/mfsbsd/provider.go: the mfsBSD provider, up to its plans. Its staging and the
-- reader of its ISO images are in the children.
mod Examples
pub mod Iso
pub mod Files
pub mod Staging
use Prim.Native.String
use bootup.Provider.{
  BootPlan, PlanInput, Target, TargetOption, freebsd_kboot, invalid_target, resolve_boot_action,
}
use bootup.Provider.Source.{UrlParser}
use bootup.Provider.Validation.{validate_target}
use bootup.Providers.{
  ProviderError, apply_options, base_url_required, find_target, linux_plan, no_artifact, no_kboot,
  no_verification, of_kboot, of_provider, payload_name_required, payload_sha256_required,
  unsupported_action, unsupported_architecture, unsupported_distribution,
}
use bootup.Providers.Staging.{World}
use bootup.Providers.Linux.{join_url_path}
use bootup.Common.{
  List, Option, Result, String, [], false, if◌then◌else◌, none, not, ok, refuse_if, some, wrap,
  ◌==◌, ◌>>=◌, ◌>>◌, ◌||◌, ◌∷◌,
}
use bootup.Text.{base_name, is_empty, to_lower, trim_right_rune, trim_space}

abbrev pub provider_id : String
provider_id = "mfsbsd"

abbrev pub default_loader_archive_url : String
default_loader_archive_url =
    "https://download.freebsd.org/releases/amd64/amd64/15.0-RELEASE/base.txz"

abbrev pub default_loader_archive_sha256 : String
default_loader_archive_sha256 = "ac0c933cc02ee8af4da793f551e4a9a15cdcf0e67851290b1e8c19dd6d30bba8"

-- A nil list of targets is `none`.
pub record Config : Type 0 where
  pub targets : Option (List Target)
  pub loader_archive_url : String
  pub loader_archive_sha256 : String

pub record MfsbsdProvider : Type 0 where
  pub targets : List Target
  pub loader_archive_url : String
  pub loader_archive_sha256 : String

abbrev hostname_option : TargetOption
hostname_option = record {
  id = "hostname";
  label = "Hostname";
  type = "string";
  fragment = "";
  values = [];
  template = "mfsbsd.hostname={value}";
  secret = false;
}

-- `defaultTargets`
abbrev pub default_targets : List Target
default_targets =
    record {
      id = "mfsbsd-142-amd64";
      provider_id = provider_id;
      name = "mfsBSD 14.2 amd64";
      action = freebsd_kboot;
      catalog = record {
        distribution = provider_id;
        release = "14.2";
        architecture = "amd64";
        kind = "rescue";
      };
      source = record {
        base_url = "https://mfsbsd.vx.sk/files/iso/14/amd64";
        iso_name = "mfsbsd-14.2-RELEASE-amd64.iso";
        iso_sha256 = "2803be01ef284cb4d58c9177475c7a20ac72292e4943bc91eb159c592bfc3b5c";
        kernel_path = "";
        initrd_path = "";
        kernel_sha256 = "";
        initrd_sha256 = "";
        cmdline = "";
      };
      lifecycle = record { status = "supported"; origin = "catalog"; date = "" };
      options = hostname_option ∷ [];
      secrets = [];
    }
    ∷ []

abbrev configured_targets : Option (List Target) → List Target
configured_targets none = default_targets
configured_targets (some targets) = targets

-- `artifactNameFromURL`
unfoldable pub artifact_name_from_url : UrlParser → String → String → String
unfolding base_name
artifact_name_from_url parse_url url fallback = elim (parse_url url) [
  | none ↦ fallback
  | some parsed ↦
      let name = base_name parsed.path in if name == "." || name == "/" then fallback else name
]

module _ {Keyring : Type 0} (world : World Keyring) where
  -- `NewProvider`
  unfoldable pub new_provider : Config → MfsbsdProvider
  unfolding trim_space to_lower
  new_provider config =
      let url = trim_space config.loader_archive_url in
      let sha256 = to_lower world.crypto.lower_wide (trim_space config.loader_archive_sha256) in
      record {
        targets = configured_targets config.targets;
        loader_archive_url = if is_empty url then default_loader_archive_url else url;
        loader_archive_sha256 = if is_empty sha256 then default_loader_archive_sha256 else sha256;
      }

  -- `selectedTarget`
  unfoldable pub selected_target : MfsbsdProvider → Target → Result ProviderError Target
  unfolding find_target validate_target
  selected_target p target = elim (find_target target.id p.targets) [
    | some selected ↦ ok selected
    | none ↦ do
      wrap (λ e. of_provider (invalid_target e))
          (validate_target world.http.parse_url provider_id target)
      ok target
  ]

  -- the plan of `Plan`, before the selected options
  unfoldable pub base_plan : MfsbsdProvider → Target → String → BootPlan
  unfolding join_url_path artifact_name_from_url
  base_plan p selected base_url =
      let source = selected.source in
      let url = p.loader_archive_url in
      record (linux_plan selected freebsd_kboot no_artifact no_artifact "" no_verification) {
        freebsd_kboot = record no_kboot {
          payload = record {
            name = source.iso_name;
            url = join_url_path base_url source.iso_name;
            sha256 = source.iso_sha256;
            path = "";
          };
          loader_archive = record {
            name = artifact_name_from_url world.http.parse_url url "base.txz";
            url = url;
            sha256 = p.loader_archive_sha256;
            path = "";
          };
        };
      }

  -- `Plan`
  unfoldable pub plan : MfsbsdProvider → PlanInput → Result ProviderError BootPlan
  unfolding selected_target resolve_boot_action trim_right_rune base_plan
  plan p input = do
    selected ← selected_target p input.target
    refuse_if (not (resolve_boot_action selected.action == freebsd_kboot)) unsupported_action
    refuse_if (not (selected.catalog.distribution == provider_id)) unsupported_distribution
    refuse_if (not (selected.catalog.architecture == "amd64")) unsupported_architecture
    let base_url = trim_right_rune b'/' selected.source.base_url
    refuse_if (is_empty base_url) base_url_required
    refuse_if (is_empty selected.source.iso_name) (of_kboot payload_name_required)
    refuse_if (is_empty selected.source.iso_sha256) (of_kboot payload_sha256_required)
    apply_options (base_plan p selected base_url) input.options
