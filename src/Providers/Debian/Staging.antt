-- ===== src/Providers/Debian/Staging.antt =====
-- internal/providers/debian/provider.go: staging along the chain of trust from the keyring over
-- InRelease and SHA256SUMS to the files.
pub mod Trust
pub mod Chain
use bootup.Verify.{
  ArtifactInput, Bytes, Checksums, check_clearsigned, check_sha256, checksum_not_found,
  keyring_required, verify_artifact,
}
use bootup.Provider.{BootPlan}
use bootup.Provider.Registry.{completed, fetching, started, verifying}
use bootup.Http.{HttpError, bad_status, read_response, send, status, status_ok}
use bootup.Providers.{
  ProviderError, Step, keyring_required, metadata_malformed, of_http, of_verify,
  staging_dir_required, unsupported_release, url_malformed, with_path,
}
use bootup.Providers.Staging.{World, and_then, reading, report, write_fetched}
use bootup.Providers.Debian.{DebianProvider}
use bootup.Common.{
  Bool, List, Result, String, [], eqb, err, false, if◌then◌else◌, is_nil, lookup, none, not, ok,
  refuse_if, some, wrap, ◌==◌, ◌>>=◌, ◌>>◌, ◌||◌, ◌∷◌,
}
use bootup.Text.{after_part, concat, fields, has_suffix, is_blank, is_empty, split, trim_space}

-- the loop of `parseReleaseSHA256`; the flag is that of the section, and a later line of a file
-- replaces an earlier one
unfoldable pub parse_release_from : Bool → Checksums → List String → Result ProviderError Checksums
unfolding has_suffix trim_space fields
parse_release_from in_sha256 checksums [] = ok checksums
parse_release_from in_sha256 checksums (line ∷ lines) =
    let next = parse_release_from (line == "SHA256:") checksums lines in
    let skip = parse_release_from in_sha256 checksums lines in
    if has_suffix line ":"
    then next
    else if not in_sha256 || is_blank line
    then skip
    else elim (fields line) [
      | sum ∷ size ∷ name ∷ more ↦ parse_release_from in_sha256 ((name, sum) ∷ checksums) lines
      | _ ↦ err (metadata_malformed line)
    ]

module _ {Keyring : Type 0} (world : World Keyring) where
  -- `parseReleaseSHA256`
  unfoldable pub parse_release_sha256 : Bytes → Result ProviderError Checksums
  unfolding parse_release_from split
  parse_release_sha256 release =
      parse_release_from false [] (split 10 (world.crypto.to_text release))

  -- `VerifyArtifactChecksum`
  unfoldable pub verify_artifact_checksum :
      String → Bytes → Checksums → Result ProviderError (Unit {0})
  unfolding check_sha256
  verify_artifact_checksum name message checksums = elim (lookup name checksums) [
    | none ↦ err (of_verify (checksum_not_found name))
    | some want ↦ wrap of_verify (check_sha256 world.crypto (some (some message)) want)
  ]

  -- `verifyReleaseFileChecksum`
  unfoldable pub verify_release_file_checksum :
      String → Bytes → Bytes → Result ProviderError (Unit {0})
  unfolding parse_release_sha256 verify_artifact_checksum
  verify_release_file_checksum name message release = do
    checksums ← parse_release_sha256 release
    verify_artifact_checksum name message checksums

  -- `releasePath`
  unfoldable pub release_path : String → String → Result ProviderError String
  unfolding after_part
  release_path url release = elim (world.http.parse_url url) [
    | none ↦ err url_malformed
    | some parsed ↦ elim (after_part (concat ("/dists/" ∷ release ∷ "/" ∷ [])) parsed.path) [
      | none ↦ err unsupported_release
      | some path ↦ ok path
    ]
  ]

  -- `fetch`, which refuses a status before it reads the body
  unfoldable pub fetch_response : String → Result HttpError Bytes
  unfolding send
  fetch_response url = do
    response ← send world.http "GET" url
    refuse_if (not (eqb response.status status_ok)) (bad_status response.status)
    wrap read_response response.body

  -- `fetchWithProgress`
  unfoldable pub fetch_with_progress : String → String → Result ProviderError Bytes
  unfolding report fetch_response
  fetch_with_progress url name = do
    report world.progress fetching started name
    message ← wrap of_http (fetch_response url)
    report world.progress fetching completed name
    ok message

  -- a check with its reports around it
  unfoldable pub reported : {A : Type 0} → String → Result ProviderError A → Result ProviderError A
  unfolding report
  reported name outcome = do
    report world.progress verifying started name
    value ← outcome
    report world.progress verifying completed name
    ok value

  -- `VerifyInRelease`
  unfoldable pub verify_in_release : Bytes → Bytes → Result ProviderError Bytes
  unfolding check_clearsigned
  verify_in_release in_release keyring =
      wrap of_verify (check_clearsigned world.crypto in_release (some (some keyring)))

  -- the first half of `FetchAndStageArtifacts`: the signed release
  unfoldable pub fetch_release : Bytes → BootPlan → Result ProviderError Bytes
  unfolding fetch_with_progress reported verify_in_release
  fetch_release keyring boot_plan = do
    in_release ← fetch_with_progress boot_plan.verification.metadata_url "InRelease"
    reported "InRelease" (verify_in_release in_release keyring)

  -- and the checksum file that it vouches for
  unfoldable pub fetch_sums : Bytes → BootPlan → Result ProviderError Bytes
  unfolding fetch_release fetch_with_progress reported release_path verify_release_file_checksum
  fetch_sums keyring boot_plan = do
    release ← fetch_release keyring boot_plan
    let url = boot_plan.verification.checksum_url
    sums ← fetch_with_progress url "SHA256SUMS"
    path ← release_path url boot_plan.target.catalog.release
    reported "SHA256SUMS" (verify_release_file_checksum path sums release)
    ok sums

  -- the input of `Artifact` in `fetchStageVerify`
  abbrev pub sums_input : Bytes → String → Bytes → ArtifactInput
  sums_input message checksum_name sums = record {
    artifact = some (some message);
    name = checksum_name;
    expected_sha256 = "";
    sha256_sums = some (some sums);
    signature = none;
    keyring = none;
  }

  -- the part of `fetchStageVerify` in front of the write
  unfoldable pub fetch_verified : String → String → String → Bytes → Result ProviderError Bytes
  unfolding fetch_with_progress reported verify_artifact
  fetch_verified url filename checksum_name sums = do
    message ← fetch_with_progress url filename
    reported filename
        (wrap of_verify (verify_artifact world.crypto (sums_input message checksum_name sums)))
    ok message

  -- `fetchStageVerify`
  unfoldable pub fetch_stage_verify : String → String → String → String → Bytes → Step String
  unfolding fetch_verified write_fetched
  fetch_stage_verify dir url filename checksum_name sums =
      write_fetched world dir filename (fetch_verified url filename checksum_name sums)

  -- the name of an installer file in SHA256SUMS
  abbrev pub checksum_name_of : BootPlan → String → String
  checksum_name_of boot_plan name =
      concat ("netboot/debian-installer/" ∷ boot_plan.target.catalog.architecture ∷ "/" ∷ name ∷ [])

  -- the second half of `FetchAndStageArtifacts`: the files
  unfoldable pub stage_files : String → BootPlan → Bytes → Step BootPlan
  unfolding fetch_stage_verify
  stage_files dir boot_plan sums disk =
      and_then
        (fetch_stage_verify dir boot_plan.kernel.url "linux" (checksum_name_of boot_plan "linux")
          sums disk)
        (λ kernel_path disk1.
          and_then
            (fetch_stage_verify dir boot_plan.initrd.url "initrd.gz"
              (checksum_name_of boot_plan "initrd.gz") sums disk1)
            (λ initrd_path. reading (
              ok (record boot_plan {
                kernel = with_path kernel_path boot_plan.kernel;
                initrd = with_path initrd_path boot_plan.initrd;
              }))))

  -- `FetchAndStageArtifacts`, with a keyring, as `Stage` always gives one
  unfoldable pub fetch_and_stage_artifacts : String → Bytes → BootPlan → Step BootPlan
  unfolding fetch_sums stage_files
  fetch_and_stage_artifacts dir keyring boot_plan disk =
      and_then
        ((do refuse_if (is_empty dir) staging_dir_required; fetch_sums keyring boot_plan), disk)
        (λ sums. stage_files dir boot_plan sums)

  -- `Stage`
  unfoldable pub stage_plan : DebianProvider → String → BootPlan → Step BootPlan
  unfolding fetch_and_stage_artifacts
  stage_plan p dir boot_plan disk =
      if is_nil p.keyring
      then (err keyring_required, disk)
      else fetch_and_stage_artifacts dir p.keyring boot_plan disk
