-- ===== src/Providers/Mfsbsd/Staging/Loader.antt =====
-- What the loader of mfsBSD is unpacked from.
use bootup.Verify.{Bytes}
use bootup.Provider.Registry.{completed, extracting, started}
use bootup.Providers.{loader_absent, loader_help_absent, of_kboot}
use bootup.Providers.Staging.Laws.{and_then-eq-ok}
use bootup.Providers.Mfsbsd.Files.{
  KbootFiles, Member, extract_loader_archive, extract_members, loader_paths, replace_file,
}
use bootup.Policy.Loading.{Disk, put}
use bootup.Common.{
  >>-eq-ok, Bool, Bool-cases, List, Option, Option-cases, String, [], ap, arith, eq_iff, false, inl,
  inr, none, not, ok, refl, refuse_if, refuse_if-eq-ok, some, sym, true, ◌==◌, ◌∙◌, ◌∷◌, ◌≡◌, ◌⊎◌,
}
use bootup.Text.{clean, join_path, trim_prefix}
use bootup.Providers.Staging.{World, report}
use bootup.Providers.Mfsbsd.Staging.{make_temporary, read_file, stage_loader}

-- A regular file of an archive, under a name, with content that can be read.
pub data HasFile (name : String) : List (Option Member) → Type 0 where
  here :
      (member : Member) (content : Bytes) (members : List (Option Member))
      → member.regular ≡ true
      → trim_prefix (clean member.name) "./" ≡ name
      → member.content ≡ some content
      → HasFile name (some member ∷ members)
  there :
      (member : Option Member) (members : List (Option Member))
      → HasFile name members
      → HasFile name (member ∷ members)

later :
    (found : Bool) (name : String) (member : Option Member) (members : List (Option Member))
    → (found ≡ true) ⊎ HasFile name members
    → (found ≡ true) ⊎ HasFile name (member ∷ members)
later found name member members (inl h) = inl h
later found name member members (inr h) = inr (there member members h)

module _ (files : KbootFiles) where
  replace_file-content :
      (path : String) (content : Option Bytes) (disk : Disk) {u : Unit {0}}
      → (replace_file files path content disk).0 ≡ ok u
      → (bytes : Bytes) × (content ≡ some bytes)
  unfolding replace_file
  replace_file-content path (some bytes) disk h = (bytes, refl)
  replace_file-content path none disk h = absurd (ground (arith, h))

  -- What success of the loop over the members shows, with what was found before.
  pub record AreFound (dir : String) (found_loader found_help : Bool)
      (members : List (Option Member)) (paths : String × String) : Type 0 where
    pub loader : (found_loader ≡ true) ⊎ HasFile "boot/loader.kboot" members
    pub help : (found_help ≡ true) ⊎ HasFile "boot/loader.help.kboot" members
    pub targets : (join_path dir "loader.kboot", join_path dir "loader.help.kboot") ≡ paths

  extract_members-AreFound :
      (dir : String) (found_loader found_help : Bool) (members : List (Option Member)) (disk : Disk)
      (paths : String × String)
      → (extract_members files dir found_loader found_help members disk).0 ≡ ok paths
      → AreFound dir found_loader found_help members paths
  unfolding extract_members loader_paths
  extract_members-AreFound dir found_loader found_help [] disk paths h =
      let (_, one, h1) = >>-eq-ok (refuse_if (not found_loader) (of_kboot loader_absent)) _ h in
      let (_, two, same) =
        >>-eq-ok (refuse_if (not found_help) (of_kboot loader_help_absent)) _ h1 in
      record {
        loader = inl (ground (arith, refuse_if-eq-ok _ _ one));
        help = inl (ground (arith, refuse_if-eq-ok _ _ two));
        targets = cc;
      }
  extract_members-AreFound dir found_loader found_help (none ∷ members) disk paths h = cc
  extract_members-AreFound dir found_loader found_help (some member ∷ members) disk paths h =
      let name = trim_prefix (clean member.name) "./" in
      let skip : (extract_members files dir found_loader found_help members disk).0 ≡ ok paths
          → AreFound dir found_loader found_help (some member ∷ members) paths =
        λ h1.
          let found = extract_members-AreFound dir found_loader found_help members disk paths h1 in
          record {
            loader = later found_loader _ (some member) members found.loader;
            help = later found_help _ (some member) members found.help;
            targets = found.targets;
          } in
      elim (Bool-cases member.regular) [
        | inr other ↦ skip (rw other at h)
        | inl regular ↦ elim (Bool-cases (name == "boot/loader.kboot")) [
          | inl is_loader ↦
              let (_, replaced, h1, _) =
                and_then-eq-ok
                  (replace_file files (join_path dir "loader.kboot") member.content disk) _
                  (rw (regular, is_loader) at h) in
              let (content, readable) = replace_file-content _ member.content disk replaced in
              let found = extract_members-AreFound dir true found_help members _ paths h1 in
              record {
                loader =
                    inr
                      (here member content members regular ((eq_iff name _).0 is_loader) readable);
                help = later found_help _ (some member) members found.help;
                targets = found.targets;
              }
          | inr no_loader ↦ elim (Bool-cases (name == "boot/loader.help.kboot")) [
            | inr neither ↦ skip (rw (regular, no_loader, neither) at h)
            | inl is_help ↦
                let (_, replaced, h1, _) =
                  and_then-eq-ok
                    (replace_file files (join_path dir "loader.help.kboot") member.content disk) _
                    (rw (regular, no_loader, is_help) at h) in
                let (content, readable) = replace_file-content _ member.content disk replaced in
                let found = extract_members-AreFound dir found_loader true members _ paths h1 in
                record {
                  loader = later found_loader _ (some member) members found.loader;
                  help =
                      inr
                        (here member content members regular ((eq_iff name _).0 is_help) readable);
                  targets = found.targets;
                }
          ]
        ]
      ]

  -- What the unpacking of the loader shows: it goes to a new directory, and the archive that the disk
  -- then holds has both files.
  pub record IsLoaded (dir archive_path : String) (disk : Disk) (paths : String × String)
      : Type 0 where
    pub loader_dir : String
    pub created : files.temporary_directory dir "freebsd-kboot-" ≡ some loader_dir
    pub archive : Bytes
    pub read_back : put loader_dir (some none) disk archive_path ≡ some (some archive)
    pub members : List (Option Member)
    pub unpacked : files.members archive ≡ some members
    pub loader : HasFile "boot/loader.kboot" members
    pub help : HasFile "boot/loader.help.kboot" members
    pub targets :
        (join_path loader_dir "loader.kboot", join_path loader_dir "loader.help.kboot") ≡ paths

  found_now : {A : Type 0} → (false ≡ true) ⊎ A → A
  found_now (inl h) = cc
  found_now (inr a) = a

  extract_loader_archive-AreFound :
      (archive : Bytes) (dir : String) (disk : Disk) (paths : String × String)
      → (extract_loader_archive files archive dir disk).0 ≡ ok paths
      → (members : List (Option Member)) × (files.members archive ≡ some members)
        × AreFound dir false false members paths
  unfolding extract_loader_archive
  extract_loader_archive-AreFound archive dir disk paths h =
      elim (Option-cases (files.members archive)) [
        | inl broken ↦ absurd (cc (rw (broken, extract_loader_archive) at h))
        | inr (members, opened) ↦ (
          members,
          opened,
          extract_members-AreFound dir false false members disk paths
              (rw (opened, extract_loader_archive) at h),
        )
      ]

  module _ {Keyring : Type 0} (world : World Keyring) where
    make_temporary-eq-ok :
        (dir prefix : String) (disk : Disk) (path : String)
        → (make_temporary world files dir prefix disk).0 ≡ ok path
        → (files.temporary_directory dir prefix ≡ some path)
          × ((make_temporary world files dir prefix disk).1 ≡ put path (some none) disk)
    make_temporary-eq-ok dir prefix disk path h =
        elim (Option-cases (files.temporary_directory dir prefix)) [
          | inl refused ↦ absurd (cc (rw (refused, make_temporary) at h))
          | inr (made, answer) ↦
              let same : made ≡ path = cc (rw (answer, make_temporary) at h) in
              (
                answer ∙ ap some same,
                rw (answer, make_temporary) (ap (λ p. put p (some none) disk) same),
              )
        ]

    read_file-eq-ok :
        (path : String) (disk : Disk) (bytes : Bytes)
        → read_file world files path disk ≡ ok bytes
        → disk path ≡ some (some bytes)
    read_file-eq-ok path disk bytes h = go (disk path) refl
      where
        go : (content : Option (Option Bytes)) → disk path ≡ content → disk path ≡ some (some bytes)
        go none same = absurd (cc (rw (same, read_file) at h))
        go (some none) same = absurd (cc (rw (same, read_file) at h))
        go (some (some b)) same =
            let eq : b ≡ bytes = cc (rw (same, read_file) at h) in same ∙ ap (λ x. some (some x)) eq

    pub stage_loader-IsLoaded :
        (dir archive_path : String) (disk : Disk) (paths : String × String)
        → (stage_loader world files dir archive_path disk).0 ≡ ok paths
        → IsLoaded dir archive_path disk paths
    unfolding stage_loader
    stage_loader-IsLoaded dir archive_path disk paths h =
        let (loader_dir, made, h1, _) =
          and_then-eq-ok (make_temporary world files dir "freebsd-kboot-" disk) _ h in
        let (created, disk1) = make_temporary-eq-ok dir "freebsd-kboot-" disk loader_dir made in
        let start = (make_temporary world files dir "freebsd-kboot-" disk).1 in
        let (archive, got, h2, _) =
          and_then-eq-ok (read_file world files archive_path start, start) _ h1 in
        let (_, _, h3, _) =
          and_then-eq-ok (report world.progress extracting started _, start) _ h2 in
        let (loaders, extracted, h4, _) =
          and_then-eq-ok (extract_loader_archive files archive loader_dir start) _ h3 in
        let (_, _, same, _) =
          and_then-eq-ok (report world.progress extracting completed _, _) _ h4 in
        let (members, unpacked, found) =
          extract_loader_archive-AreFound archive loader_dir start loaders extracted in
        let eq : loaders ≡ paths = cc in
        record {
          loader_dir = loader_dir;
          created = created;
          archive = archive;
          read_back =
              ap (λ d. d archive_path) (sym disk1) ∙ read_file-eq-ok archive_path start archive got;
          members = members;
          unpacked = unpacked;
          loader = found_now found.loader;
          help = found_now found.help;
          targets = found.targets ∙ eq;
        }
