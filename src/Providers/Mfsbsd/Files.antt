-- ===== src/Providers/Mfsbsd/Files.antt =====
-- internal/providers/mfsbsd/provider.go: the files of a kboot payload, `normalizeMemoryRoot` and
-- `extractLoaderArchive`. What gzip, xz and tar make of bytes are arguments.
use Prim.Native.String
use bootup.Verify.{Bytes}
use bootup.Providers.{
  KbootError, ProviderError, Step, archive_malformed, directory_not_created, gzip_malformed,
  gzip_missing, loader_absent, loader_help_absent, of_kboot, replacement_failed, stat_refused,
}
use bootup.Providers.Staging.{and_then}
use bootup.Policy.Loading.{CacheWrite, make_all, put}
use bootup.Common.{
  Bool, List, Option, Result, String, [], err, false, if◌then◌else◌, none, not, ok, refuse_if, some,
  true, ◌==◌, ◌>>◌, ◌||◌, ◌∷◌,
}
use bootup.Text.{clean, dir_name, join_path, trim_prefix}

-- A member of an archive; content that cannot be read is `none`.
pub record Member : Type 0 where
  pub name : String
  pub regular : Bool
  pub content : Option Bytes

-- The file system's answers and the formats. `replacement` has the answers to the steps that make
-- a directory and write a file at a path. `gunzip` is `none` where the header is bad, and
-- `some none` where the rest is; `members` is `none` where the archive cannot be opened, and has
-- `none` where the next header cannot be read.
pub record KbootFiles : Type 0 where
  pub temporary_directory : String → String → Option String
  pub stat_refuses : String → Bool
  pub replacement : String → CacheWrite
  pub gunzip : Bytes → Option (Option Bytes)
  pub members : Bytes → Option (List (Option Member))
  pub extract : String → String → Step (Unit {0})

abbrev fail_with : {A : Type 0} → KbootError → Step A
fail_with e disk = (err (of_kboot e), disk)

module _ (files : KbootFiles) where
  -- os.MkdirAll, for the writes at a path
  unfoldable pub make_parents : String → String → Step (Unit {0})
  unfolding make_all
  make_parents path dir disk =
      let made = make_all (files.replacement path) dir disk in
      if (files.replacement path).mkdir_ok
      then (ok tt, made)
      else fail_with directory_not_created made

  -- the steps from os.CreateTemp to os.Rename; the temporary file is removed where one fails
  unfoldable pub replace_file : String → Option Bytes → Step (Unit {0})
  replace_file path content disk =
      let w = files.replacement path in
      if not w.create_ok then fail_with replacement_failed disk else elim content [
        | none ↦ fail_with replacement_failed (put w.temp_path none disk)
        | some bytes ↦
            let written = put w.temp_path (some (some bytes)) disk in
            if not w.write_ok || not w.close_ok || not w.chmod_ok || not w.rename_ok
            then fail_with replacement_failed (put w.temp_path none written)
            else (ok tt, put w.temp_path none (put path (some (some bytes)) written))
      ]

  -- the part of `normalizeGzipFile` behind os.Stat
  unfoldable pub unpack_file : String → Step (Unit {0})
  unfolding replace_file make_parents dir_name
  unpack_file path disk = elim (disk (String.◌++◌ path ".gz")) [
    | none ↦ fail_with gzip_missing disk
    | some none ↦ fail_with gzip_malformed disk
    | some (some bytes) ↦ elim (files.gunzip bytes) [
      | none ↦ fail_with gzip_malformed disk
      | some content ↦
          and_then (make_parents path (dir_name path) disk) (λ _. replace_file path content)
    ]
  ]

  -- `normalizeGzipFile`
  unfoldable pub normalize_gzip_file : String → Step (Unit {0})
  unfolding unpack_file
  normalize_gzip_file path disk = elim (disk path) [
    | some content ↦ (ok tt, disk)
    | none ↦ if files.stat_refuses path then fail_with stat_refused disk else unpack_file path disk
  ]

  -- `normalizeMemoryRoot`
  unfoldable pub normalize_memory_root : String → Step (Unit {0})
  unfolding normalize_gzip_file
  normalize_memory_root root disk =
      and_then (normalize_gzip_file (join_path root "boot/kernel/kernel") disk)
        (λ _. normalize_gzip_file (join_path root "mfsroot"))

  -- the end of `extractLoaderArchive`
  unfoldable pub loader_paths : String → Bool → Bool → Result ProviderError (String × String)
  loader_paths dir found_loader found_help = do
    refuse_if (not found_loader) (of_kboot loader_absent)
    refuse_if (not found_help) (of_kboot loader_help_absent)
    ok (join_path dir "loader.kboot", join_path dir "loader.help.kboot")

  -- the loop of `extractLoaderArchive`
  unfoldable pub extract_members :
      String → Bool → Bool → List (Option Member) → Step (String × String)
  unfolding loader_paths replace_file clean trim_prefix
  extract_members dir found_loader found_help [] disk =
      (loader_paths dir found_loader found_help, disk)
  extract_members dir found_loader found_help (none ∷ members) disk =
      fail_with archive_malformed disk
  extract_members dir found_loader found_help (some member ∷ members) disk =
      let name = trim_prefix (clean member.name) "./" in
      let skip = extract_members dir found_loader found_help members disk in
      if not member.regular
      then skip
      else if name == "boot/loader.kboot"
      then and_then (replace_file (join_path dir "loader.kboot") member.content disk)
          (λ _. extract_members dir true found_help members)
      else if name == "boot/loader.help.kboot"
      then and_then (replace_file (join_path dir "loader.help.kboot") member.content disk)
          (λ _. extract_members dir found_loader true members)
      else skip

  -- `extractLoaderArchive`
  unfoldable pub extract_loader_archive : Bytes → String → Step (String × String)
  unfolding extract_members
  extract_loader_archive archive dir disk = elim (files.members archive) [
    | none ↦ fail_with archive_malformed disk
    | some members ↦ extract_members dir false false members disk
  ]

-- `defaultLoaderArgs`
abbrev pub default_loader_args : String → List String
default_loader_args root =
    String.◌++◌ "hostfs_root=" root
    ∷ "bootdev=host:/"
    ∷ "boot_serial=YES"
    ∷ "boot_multicons=YES"
    ∷ "boot_verbose=YES"
    ∷ "autoboot_delay=0"
    ∷ "beastie_disable=YES"
    ∷ "mfsbsd.autodhcp=YES"
    ∷ "mfsbsd.hostname=mfsbsd"
    ∷ []
