-- ===== src/Providers/Staging/Files.antt =====
-- Artifacts that are downloaded, checked and written: what they leave on the disk.
use bootup.Verify.{Bytes, Reader}
use bootup.Verify.Digests.{IsLawful}
use bootup.Provider.{Artifact}
use bootup.Providers.{ProviderError}
use bootup.Providers.Staging.{World, fetch_checked, stage_checked, write_fetched, write_reported}
use bootup.Providers.Staging.Laws.{
  IsGenuine, Touched, Touched-refl, and_then-Touched, and_then-eq-ok, fetch_checked-IsGenuine,
  write_reported-Touched, write_reported-eq-ok,
}
use bootup.Policy.Loading.{Disk, put}
use bootup.Common.{
  Option, Result, String, arith, eq_iff, false, ok, refl, some, sym, ◌==◌, ◌∙◌, ◌≡◌,
}
use bootup.Text.{join_path}

pub put-same :
    (path : String) (content : Option Reader) (disk : Disk) → put path content disk path ≡ content
put-same path content disk = ground (arith, eq_iff path path)

pub put-other :
    (path place : String) (content : Option Reader) (disk : Disk)
    → (path == place) ≡ false
    → put path content disk place ≡ disk place
put-other path place content disk apart = rw apart

module _ {Keyring : Type 0} (world : World Keyring) where
  -- Writing what a download gives touches the path of the file only.
  pub write_fetched-Touched :
      (P : String → Bytes → Type 0) (dir name : String) (fetched : Result ProviderError Bytes)
      (disk : Disk)
      → ((message : Bytes) → fetched ≡ ok message → P (join_path dir name) message)
      → Touched world.writer P disk (write_fetched world dir name fetched disk).1
  unfolding write_fetched
  write_fetched-Touched P dir name fetched disk allowed =
      and_then-Touched world.writer P disk (fetched, disk) _ (Touched-refl world.writer P disk)
        (λ message got. write_reported-Touched world P dir name message disk (allowed message got))

  pub write_fetched-eq-ok :
      (dir name : String) (fetched : Result ProviderError Bytes) (disk : Disk) (path : String)
      → (write_fetched world dir name fetched disk).0 ≡ ok path
      → (message : Bytes) × (fetched ≡ ok message)
        × (join_path dir name ≡ path)
        × ((write_fetched world dir name fetched disk).1 ≡ put path (some (some message)) disk)
  unfolding write_fetched
  write_fetched-eq-ok dir name fetched disk path h =
      let (message, got, h1, disk1) =
        and_then-eq-ok (fetched, disk) (λ m. write_reported world dir name m) h in
      let (same, disk2) = write_reported-eq-ok world dir name message disk path h1 in
      (message, got, sym same, disk1 ∙ disk2)

  -- the path and the content that an artifact may be staged with
  pub record IsStagedAt (dir name : String) (artifact : Artifact) (place : String) (message : Bytes)
      : Type 0 where
    pub target : join_path dir name ≡ place
    pub genuine : IsGenuine world artifact message

  -- An artifact that stands on the disk at its path.
  pub record IsOnDisk (dir name : String) (artifact : Artifact) (path : String) (disk : Disk)
      : Type 0 where
    pub message : Bytes
    pub staged : IsStagedAt dir name artifact path message
    pub stored : disk path ≡ some (some message)

  module _ (lawful : IsLawful world.crypto) where
    pub stage_checked-Touched :
        (P : String → Bytes → Type 0) (dir name : String) (artifact : Artifact) (disk : Disk)
        → ((place : String) (message : Bytes)
            → IsStagedAt dir name artifact place message
            → P place message)
        → Touched world.writer P disk (stage_checked world dir name artifact disk).1
    unfolding stage_checked
    stage_checked-Touched P dir name artifact disk allowed =
        write_fetched-Touched P dir name (fetch_checked world artifact) disk (λ message got.
          allowed _ message (record {
            target = refl;
            genuine = fetch_checked-IsGenuine world lawful artifact message got;
          }))

    pub stage_checked-eq-ok :
        (dir name : String) (artifact : Artifact) (disk : Disk) (path : String)
        → (stage_checked world dir name artifact disk).0 ≡ ok path
        → (message : Bytes) × IsStagedAt dir name artifact path message
          × ((stage_checked world dir name artifact disk).1 ≡ put path (some (some message)) disk)
    unfolding stage_checked
    stage_checked-eq-ok dir name artifact disk path h =
        let (message, got, target, after) =
          write_fetched-eq-ok dir name (fetch_checked world artifact) disk path h in
        (
          message,
          record {
            target = target;
            genuine = fetch_checked-IsGenuine world lawful artifact message got;
          },
          after,
        )
