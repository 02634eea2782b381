-- ===== src/Providers/Mfsbsd/Staging.antt =====
-- internal/providers/mfsbsd/provider.go: `FetchAndStageArtifacts`, which is `Stage`. The extractor
-- of ISO images is an argument, as it is an interface in the program.
pub mod Loader
pub mod Laws
use bootup.Verify.{Bytes, check_sha256}
use bootup.Provider.{Artifact, BootPlan, freebsd_kboot, resolve_boot_action}
use bootup.Provider.Registry.{completed, extracting, started}
use bootup.Providers.{
  ProviderError, Step, archive_unread, artifact_name_invalid, artifact_sha256_required,
  artifact_url_required, directory_not_created, of_kboot, staging_dir_required, unsupported_action,
  with_path,
}
use bootup.Providers.Staging.{
  World, and_then, check_reported, fetch_reported, reading, report, require_https, write_fetched,
}
use bootup.Providers.Mfsbsd.{artifact_name_from_url}
use bootup.Providers.Mfsbsd.Files.{
  KbootFiles, default_loader_args, extract_loader_archive, make_parents, normalize_memory_root,
}
use bootup.Policy.Loading.{Disk, put}
use bootup.Common.{
  Result, String, [], err, if◌then◌else◌, none, not, ok, refuse_if, some, ◌++◌, ◌==◌, ◌>>=◌, ◌>>◌,
  ◌||◌, ◌∷◌,
}
use bootup.Text.{base_name, is_blank, is_empty}

-- `validateArtifact`
unfoldable pub validate_artifact : Artifact → Result ProviderError (Unit {0})
validate_artifact artifact = do
  refuse_if (is_blank artifact.url) (of_kboot artifact_url_required)
  refuse_if (is_blank artifact.sha256) (of_kboot artifact_sha256_required)

module _ {Keyring : Type 0} (world : World Keyring) (files : KbootFiles) where
  -- the name under which `fetchStageVerify` stages an artifact
  unfoldable pub staged_name : Artifact → String
  unfolding artifact_name_from_url
  staged_name artifact =
      if is_empty artifact.name
      then artifact_name_from_url world.http.parse_url artifact.url ""
      else artifact.name

  -- the part of `fetchStageVerify` in front of the write
  unfoldable pub fetch_named : Artifact → Result ProviderError Bytes
  unfolding staged_name fetch_reported base_name check_reported check_sha256
  fetch_named artifact = do
    let name = staged_name artifact
    message ← fetch_reported world artifact.url name
    refuse_if (is_empty name || not (base_name name == name)) (of_kboot artifact_name_invalid)
    check_reported world name (check_sha256 world.crypto (some (some message)) artifact.sha256)
    ok message

  -- `fetchStageVerify`
  unfoldable pub fetch_stage_verify : String → Artifact → Step String
  unfolding fetch_named write_fetched staged_name
  fetch_stage_verify dir artifact =
      write_fetched world dir (staged_name artifact) (fetch_named artifact)

  -- the guards of `FetchAndStageArtifacts`
  unfoldable pub check_plan : String → BootPlan → Result ProviderError (Unit {0})
  unfolding resolve_boot_action validate_artifact require_https
  check_plan dir boot_plan = do
    let kboot = boot_plan.freebsd_kboot
    refuse_if (is_empty dir) staging_dir_required
    refuse_if (not (resolve_boot_action boot_plan.action == freebsd_kboot)) unsupported_action
    validate_artifact kboot.payload
    validate_artifact kboot.loader_archive
    require_https world.http.parse_url (kboot.payload.url ∷ kboot.loader_archive.url ∷ [])

  -- os.MkdirTemp
  abbrev pub make_temporary : String → String → Step String
  make_temporary dir prefix disk = elim (files.temporary_directory dir prefix) [
    | none ↦ (err (of_kboot directory_not_created), disk)
    | some path ↦ (ok path, put path (some none) disk)
  ]

  -- the payload: the ISO image is extracted, and its compressed files are unpacked
  unfoldable pub stage_payload : String → String → Step String
  unfolding report normalize_memory_root
  stage_payload dir iso_path disk = and_then (make_temporary dir "mfsbsd-root-" disk) (λ root disk1.
      and_then (report world.progress extracting started "mfsBSD ISO", disk1)
        (λ _ disk2. and_then (files.extract iso_path root disk2) (λ _ disk3.
          and_then (report world.progress extracting completed "mfsBSD ISO", disk3)
            (λ _ disk4.
              and_then (normalize_memory_root files root disk4) (λ _. reading (ok root))))))

  -- os.ReadFile
  abbrev pub read_file : String → Disk → Result ProviderError Bytes
  read_file path disk = elim (disk path) [
    | some (some bytes) ↦ ok bytes
    | _ ↦ err (of_kboot archive_unread)
  ]

  -- the loader: the archive is read back, and its two members are written
  unfoldable pub stage_loader : String → String → Step (String × String)
  unfolding report extract_loader_archive
  stage_loader dir archive_path disk =
      and_then (make_temporary dir "freebsd-kboot-" disk) (λ loader_dir disk1.
        and_then (read_file archive_path disk1, disk1)
          (λ archive disk2.
            and_then (report world.progress extracting started "FreeBSD loader archive", disk2)
              (λ _ disk3.
                and_then (extract_loader_archive files archive loader_dir disk3) (λ paths disk4.
                  and_then
                    (report world.progress extracting completed "FreeBSD loader archive", disk4)
                    (λ _. reading (ok paths))))))

  -- the plan that `FetchAndStageArtifacts` returns
  unfoldable pub staged_plan : BootPlan → String → String → String → String × String → BootPlan
  staged_plan boot_plan payload_path archive_path root (loader, help) =
      let kboot = boot_plan.freebsd_kboot in
      record boot_plan {
        freebsd_kboot = record {
          loader = record { name = "loader.kboot"; url = ""; sha256 = ""; path = loader };
          loader_help = record { name = "loader.help.kboot"; url = ""; sha256 = ""; path = help };
          loader_archive = with_path archive_path kboot.loader_archive;
          payload = with_path payload_path kboot.payload;
          payload_root = root;
          args = default_loader_args root ++ kboot.args;
        };
      }

  -- `FetchAndStageArtifacts`
  unfoldable pub fetch_and_stage_artifacts : String → BootPlan → Step BootPlan
  unfolding check_plan make_parents fetch_stage_verify stage_payload stage_loader staged_plan
  fetch_and_stage_artifacts dir boot_plan disk =
      let kboot = boot_plan.freebsd_kboot in
      and_then (check_plan dir boot_plan, disk)
        (λ _ disk0. and_then (make_parents files dir dir disk0) (λ _ disk1.
          and_then (fetch_stage_verify dir kboot.payload disk1) (λ payload_path disk2.
            and_then (fetch_stage_verify dir kboot.loader_archive disk2) (λ archive_path disk3.
              and_then (stage_payload dir payload_path disk3) (λ root disk4.
                and_then (stage_loader dir archive_path disk4) (λ loaders.
                  reading (ok (staged_plan boot_plan payload_path archive_path root loaders))))))))
