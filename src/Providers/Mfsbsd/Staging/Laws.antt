-- ===== src/Providers/Mfsbsd/Staging/Laws.antt =====
-- What the mfsBSD provider stages.
use bootup.Verify.{Bytes}
use bootup.Verify.Digests.{IsLawful}
use bootup.Provider.{Artifact, BootPlan, freebsd_kboot}
use bootup.Http.{fetch}
use bootup.Providers.Staging.{World}
use bootup.Providers.Staging.Laws.{IsSecure}
use bootup.Providers.Mfsbsd.Files.{KbootFiles, default_loader_args}
use bootup.Providers.Mfsbsd.Staging.{stage_loader, stage_payload, staged_name}
use bootup.Providers.Mfsbsd.Staging.Loader.{IsLoaded}
use bootup.Policy.Loading.{Disk, make_all, put}
use bootup.Common.{String, false, ok, some, ◌++◌, ◌≡◌}
use bootup.Text.{base_name, decode_hex, is_empty, join_path}

module _ {Keyring : Type 0} (world : World Keyring) (files : KbootFiles)
    (lawful : IsLawful world.crypto) where
  -- What an artifact is staged with: a path under a file name, and bytes that were downloaded from
  -- its HTTPS URL and whose SHA-256 is its pin.
  pub record IsDownloaded (dir : String) (artifact : Artifact) (path : String) : Type 0 where
    pub secure : IsSecure world.http.parse_url artifact.url
    pub name_given : is_empty (staged_name world files artifact) ≡ false
    pub file_name : base_name (staged_name world files artifact) ≡ staged_name world files artifact
    pub target : join_path dir (staged_name world files artifact) ≡ path
    pub message : Bytes
    pub downloaded : fetch world.http artifact.url ≡ ok message
    pub pinned : decode_hex artifact.sha256 ≡ some (world.crypto.sha256 message)

  -- What staging gives where it succeeds: the downloads, the disk on which both stand, and the
  -- unpacking that starts on that disk and ends on the last one.
  pub record IsStaged (dir : String) (boot_plan result : BootPlan) (before after : Disk)
      : Type 0 where
    pub payload : IsDownloaded dir boot_plan.freebsd_kboot.payload result.freebsd_kboot.payload.path
    pub archive :
        IsDownloaded dir boot_plan.freebsd_kboot.loader_archive
          result.freebsd_kboot.loader_archive.path
    pub downloads : Disk
    pub written :
        downloads
        ≡ put result.freebsd_kboot.loader_archive.path (some (some archive.message)) (
            put result.freebsd_kboot.payload.path
              (some (some payload.message))
              (make_all (files.replacement dir) dir before))
    pub unpacked :
        (stage_payload world files dir result.freebsd_kboot.payload.path downloads).0
        ≡ ok result.freebsd_kboot.payload_root
    pub loaded :
        (stage_loader world files dir result.freebsd_kboot.loader_archive.path
          (stage_payload world files dir result.freebsd_kboot.payload.path downloads).1).0
        ≡ ok (result.freebsd_kboot.loader.path, result.freebsd_kboot.loader_help.path)
    pub loader :
        IsLoaded files dir result.freebsd_kboot.loader_archive.path
          (stage_payload world files dir result.freebsd_kboot.payload.path downloads).1
          (result.freebsd_kboot.loader.path, result.freebsd_kboot.loader_help.path)
    pub final :
        after
        ≡ (stage_loader world files dir result.freebsd_kboot.loader_archive.path
            (stage_payload world files dir result.freebsd_kboot.payload.path downloads).1).1
    pub args :
        result.freebsd_kboot.args
        ≡ default_loader_args result.freebsd_kboot.payload_root ++ boot_plan.freebsd_kboot.args
