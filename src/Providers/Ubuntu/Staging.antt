-- ===== src/Providers/Ubuntu/Staging.antt =====
-- internal/providers/ubuntu/provider.go: `FetchAndStageArtifacts` and `Stage`.
pub mod Signed
pub mod Laws
use bootup.Verify.{ArtifactInput, Bytes, checksum_not_found, parse_sha256_sums, verify_artifact}
use bootup.Provider.{Artifact, BootPlan}
use bootup.Providers.{
  ProviderError, Step, of_verify, pins_incomplete, staging_dir_required, with_path,
}
use bootup.Providers.Staging.{World, and_then, check_pin, reading, require_https, write_fetched}
use bootup.Providers.Debian.Staging.{fetch_with_progress, reported}
use bootup.Providers.Ubuntu.{UbuntuProvider, target_iso_name}
use bootup.Common.{
  Option, Result, String, [], differ, if◌then◌else◌, is_nil, is_none, lookup, none, ok, refuse_if,
  some, wrap, ◌>>=◌, ◌>>◌, ◌∷◌,
}
use bootup.Text.{is_empty}

module _ {Keyring : Type 0} (world : World Keyring) where
  -- `requireChecksumEntry`
  unfoldable pub require_checksum_entry : Bytes → String → Result ProviderError (Unit {0})
  unfolding parse_sha256_sums
  require_checksum_entry sums name = do
    checksums ← wrap of_verify (parse_sha256_sums world.crypto (some (some sums)))
    refuse_if (is_none (lookup name checksums)) (of_verify (checksum_not_found name))

  -- the input of `Artifact` for the checksum file
  abbrev pub signature_input : Bytes → Bytes → Bytes → ArtifactInput
  signature_input sums signature keyring = record {
    artifact = some (some sums);
    name = "SHA256SUMS";
    expected_sha256 = "";
    sha256_sums = none;
    signature = some (some signature);
    keyring = some (some keyring);
  }

  -- the part of `FetchAndStageArtifacts` for a keyring
  unfoldable pub check_sums_file : Bytes → BootPlan → Result ProviderError (Unit {0})
  unfolding fetch_with_progress reported verify_artifact target_iso_name require_checksum_entry
  check_sums_file keyring boot_plan = do
    sums ← fetch_with_progress world boot_plan.verification.checksum_url "SHA256SUMS"
    signature ← fetch_with_progress world boot_plan.verification.signature_url "SHA256SUMS.gpg"
    reported world "SHA256SUMS"
        (wrap of_verify (verify_artifact world.crypto (signature_input sums signature keyring)))
    iso_name ← target_iso_name boot_plan.target
    require_checksum_entry sums iso_name

  -- the test of the checksum file, where there is a keyring
  unfoldable pub check_list : Option Bytes → BootPlan → Result ProviderError (Unit {0})
  unfolding check_sums_file
  check_list none boot_plan = ok tt
  check_list (some keyring) boot_plan = check_sums_file keyring boot_plan

  -- the part of `FetchAndStageArtifacts` in front of the files
  unfoldable pub check_plan : String → Option Bytes → BootPlan → Result ProviderError (Unit {0})
  unfolding check_list require_https
  check_plan dir keyring boot_plan = do
    refuse_if (is_empty dir) staging_dir_required
    refuse_if (differ (is_empty boot_plan.kernel.sha256) (is_empty boot_plan.initrd.sha256))
        pins_incomplete
    check_list keyring boot_plan
    if is_empty boot_plan.kernel.sha256
        then require_https world.http.parse_url (boot_plan.kernel.url ∷ boot_plan.initrd.url ∷ [])
        else ok tt

  -- the part of `fetchStageVerify` in front of the write
  unfoldable pub fetch_pinned : Artifact → Result ProviderError Bytes
  unfolding fetch_with_progress check_pin
  fetch_pinned artifact = do
    message ← fetch_with_progress world artifact.url artifact.name
    check_pin world artifact message
    ok message

  -- `fetchStageVerify`
  unfoldable pub fetch_stage_verify : String → Artifact → Step String
  unfolding fetch_pinned write_fetched
  fetch_stage_verify dir artifact = write_fetched world dir artifact.name (fetch_pinned artifact)

  -- `FetchAndStageArtifacts`
  unfoldable pub fetch_and_stage_artifacts : String → Option Bytes → BootPlan → Step BootPlan
  unfolding check_plan fetch_stage_verify
  fetch_and_stage_artifacts dir keyring boot_plan disk =
      and_then (check_plan dir keyring boot_plan, disk)
        (λ _ disk1. and_then (fetch_stage_verify dir boot_plan.kernel disk1) (λ kernel_path disk2.
          and_then (fetch_stage_verify dir boot_plan.initrd disk2) (λ initrd_path. reading (
            ok (record boot_plan {
              kernel = with_path kernel_path boot_plan.kernel;
              initrd = with_path initrd_path boot_plan.initrd;
            })))))

  -- `Stage`
  unfoldable pub stage_plan : UbuntuProvider → String → BootPlan → Step BootPlan
  unfolding fetch_and_stage_artifacts
  stage_plan p dir boot_plan =
      fetch_and_stage_artifacts dir (if is_nil p.keyring then none else some p.keyring) boot_plan
