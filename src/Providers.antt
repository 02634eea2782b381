-- ===== src/Providers.antt =====
-- internal/providers: the providers of boot targets. Each child is the package of its name;
-- Staging has the steps that their staging functions share.
mod Examples
pub mod Staging
pub mod Linux
pub mod LocalDisk
pub mod Fedora
pub mod Debian
pub mod Mfsbsd
pub mod Ubuntu
pub mod Discovery
use bootup.Verify.{VerifyError}
use bootup.Provider.{
  Artifact, BootAction, BootPlan, Error, FreeBsdKbootPlan, SelectedOption, SourceEntry, Target,
  Verification, freebsd_kboot, invalid_target_option,
}
use bootup.Http.{HttpError}
use bootup.Policy.Loading.{Disk}
use bootup.Provider.Fragments.{apply_selected_options}
use bootup.Common.{List, Option, Result, String, [], if◌then◌else◌, none, some, wrap, ◌==◌, ◌∷◌}

-- What the mfsBSD provider refuses.
pub data KbootError : Type 0 where
  payload_name_required payload_sha256_required artifact_url_required : KbootError
  artifact_sha256_required artifact_name_invalid directory_not_created : KbootError
  stat_refused gzip_missing gzip_malformed replacement_failed : KbootError
  archive_unread archive_malformed loader_absent loader_help_absent : KbootError

-- What a provider refuses, and the errors of the packages that it calls.
pub data ProviderError : Type 0 where
  of_provider : Error → ProviderError
  of_http : HttpError → ProviderError
  of_verify : VerifyError → ProviderError
  write_failed : String → ProviderError
  of_kboot : KbootError → ProviderError
  unsupported_action unsupported_architecture unsupported_distribution : ProviderError
  unsupported_kind unsupported_release : ProviderError
  base_url_required kernel_path_required kernel_url_required iso_name_required : ProviderError
  staging_dir_required keyring_required : ProviderError
  url_malformed url_not_secure : ProviderError
  pins_incomplete checksums_offline : ProviderError
  metadata_malformed metadata_missing : String → ProviderError

-- A step that may write to the disk: `if err != nil { return err }` keeps what is written.
abbrev pub Step : Type 0 → Type 0
Step A = Disk → Result ProviderError A × Disk

-- the loop of the providers' `target`
unfoldable pub find_target : String → List Target → Option Target
find_target id [] = none
find_target id (target ∷ targets) = if target.id == id then some target else find_target id targets

-- the source of a target of which only the base URL is set
abbrev pub base_source : String → SourceEntry
base_source url = record {
  base_url = url;
  iso_name = "";
  iso_sha256 = "";
  kernel_path = "";
  initrd_path = "";
  kernel_sha256 = "";
  initrd_sha256 = "";
  cmdline = "";
}

abbrev pub no_artifact : Artifact
no_artifact = record { name = ""; url = ""; sha256 = ""; path = "" }

abbrev pub no_verification : Verification
no_verification = record { metadata_url = ""; checksum_url = ""; signature_url = "" }

abbrev pub no_kboot : FreeBsdKbootPlan
no_kboot = record {
  loader = no_artifact;
  loader_help = no_artifact;
  loader_archive = no_artifact;
  payload = no_artifact;
  payload_root = "";
  args = [];
}

-- A plan with the fields that a literal sets, the others zero.
abbrev pub linux_plan : Target → BootAction → Artifact → Artifact → String → Verification → BootPlan
linux_plan target action kernel initrd cmdline verification = record {
  target = target;
  action = action;
  kernel = kernel;
  initrd = initrd;
  cmdline = cmdline;
  verification = verification;
  freebsd_kboot = no_kboot;
  secret_refs = [];
}

-- `BootPlan{}` with the path of an artifact set
abbrev pub with_path : String → Artifact → Artifact
with_path path artifact = record artifact { path = path }

-- `provider.ApplySelectedOptions` at the end of the providers' `Plan`
abbrev pub apply_options : BootPlan → List SelectedOption → Result ProviderError BootPlan
apply_options plan options =
    wrap (λ e. of_provider (invalid_target_option e)) (apply_selected_options plan options)
