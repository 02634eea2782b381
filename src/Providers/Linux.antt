-- ===== src/Providers/Linux.antt =====
-- internal/providers/linux/provider.go: kernels and initrds of catalog targets.
mod Examples
pub mod Laws
use Prim.Native.String
use bootup.Provider.{
  Artifact, BootPlan, PlanInput, Target, invalid_target, linux_kexec, resolve_boot_action,
}
use bootup.Provider.Validation.{validate_target}
use bootup.Providers.{
  ProviderError, Step, apply_options, base_url_required, find_target, kernel_path_required,
  kernel_url_required, linux_plan, no_artifact, no_verification, of_provider, staging_dir_required,
  unsupported_action, with_path,
}
use bootup.Providers.Staging.{World, and_then, reading, require_https, stage_checked}
use bootup.Common.{
  List, Result, String, [], if◌then◌else◌, none, not, ok, refuse_if, some, wrap, ◌++◌, ◌==◌, ◌>>=◌,
  ◌>>◌, ◌∷◌,
}
use bootup.Text.{base_name, is_empty, replace_all, to_lower, trim_left_rune, trim_right_rune}

abbrev provider_id : String
provider_id = "linux"

abbrev base_placeholder : String
base_placeholder = "{base_url}"

pub record LinuxProvider : Type 0 where
  pub targets : List Target

-- `joinURLPath`
unfoldable pub join_url_path : String → String → String
unfolding trim_right_rune trim_left_rune
join_url_path base_url elem =
    String.◌++◌ (trim_right_rune b'/' base_url) (String.◌++◌ "/" (trim_left_rune b'/' elem))

module _ {Keyring : Type 0} (world : World Keyring) where
  -- `selectedTarget`
  unfoldable pub selected_target : LinuxProvider → Target → Result ProviderError Target
  unfolding find_target validate_target
  selected_target p target = elim (find_target target.id p.targets) [
    | some selected ↦ ok selected
    | none ↦ do
      wrap (λ e. of_provider (invalid_target e))
          (validate_target world.http.parse_url provider_id target)
      ok target
  ]

  -- an artifact of the plan: the file of a source path, with its pin
  unfoldable pub source_artifact : String → String → String → Artifact
  unfolding base_name join_url_path to_lower
  source_artifact base_url path pin = record {
    name = base_name path;
    url = join_url_path base_url path;
    sha256 = to_lower world.crypto.lower_wide pin;
    path = "";
  }

  -- `Plan`
  unfoldable pub plan : LinuxProvider → PlanInput → Result ProviderError BootPlan
  unfolding selected_target resolve_boot_action trim_right_rune source_artifact replace_all
  plan p input = do
    selected ← selected_target p input.target
    refuse_if (not (resolve_boot_action selected.action == linux_kexec)) unsupported_action
    let source = selected.source
    let base_url = trim_right_rune b'/' source.base_url
    refuse_if (is_empty base_url) base_url_required
    refuse_if (is_empty source.kernel_path) kernel_path_required
    let initrd =
        if is_empty source.initrd_path
        then no_artifact
        else source_artifact base_url source.initrd_path source.initrd_sha256
    apply_options
        (linux_plan selected linux_kexec
          (source_artifact base_url source.kernel_path source.kernel_sha256) initrd
          (replace_all source.cmdline base_placeholder base_url) no_verification)
        input.options

  -- `nonEmptyURLs`
  unfoldable pub non_empty_urls : List String → List String
  non_empty_urls [] = []
  non_empty_urls (url ∷ urls) =
      let rest = non_empty_urls urls in if is_empty url then rest else url ∷ rest

  -- the name of the staged file
  unfoldable pub stage_name : Artifact → String
  unfolding base_name
  stage_name artifact = if is_empty artifact.name then base_name artifact.url else artifact.name

  -- `fetchStageVerify`
  unfoldable pub fetch_stage_verify : String → Artifact → Step String
  unfolding stage_checked stage_name
  fetch_stage_verify dir artifact = stage_checked world dir (stage_name artifact) artifact

  -- the initrd of `FetchAndStageArtifacts`, where the plan has one
  unfoldable pub stage_initrd : String → BootPlan → Step BootPlan
  unfolding fetch_stage_verify
  stage_initrd dir boot_plan disk =
      if is_empty boot_plan.initrd.url
      then (ok boot_plan, disk)
      else and_then (fetch_stage_verify dir boot_plan.initrd disk)
          (λ path. reading (ok (record boot_plan { initrd = with_path path boot_plan.initrd })))

  -- the guards of `FetchAndStageArtifacts`
  unfoldable pub check_plan : String → BootPlan → Result ProviderError (Unit {0})
  unfolding require_https non_empty_urls
  check_plan dir boot_plan = do
    refuse_if (is_empty dir) staging_dir_required
    refuse_if (is_empty boot_plan.kernel.url) kernel_url_required
    require_https world.http.parse_url
        (non_empty_urls (boot_plan.kernel.url ∷ boot_plan.initrd.url ∷ []))

  -- `FetchAndStageArtifacts`, which is `Stage`
  unfoldable pub fetch_and_stage_artifacts : String → BootPlan → Step BootPlan
  unfolding check_plan fetch_stage_verify stage_initrd
  fetch_and_stage_artifacts dir boot_plan disk =
      and_then (check_plan dir boot_plan, disk)
        (λ _ disk1. and_then (fetch_stage_verify dir boot_plan.kernel disk1) (λ path.
          stage_initrd dir (record boot_plan { kernel = with_path path boot_plan.kernel })))
