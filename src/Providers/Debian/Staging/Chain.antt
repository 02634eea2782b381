-- ===== src/Providers/Debian/Staging/Chain.antt =====
-- What the Debian provider leaves on the disk, and what it stages where it succeeds.
use bootup.Verify.{Bytes}
use bootup.Verify.Digests.{IsLawful}
use bootup.Provider.{BootPlan}
use bootup.Providers.{ProviderError, staging_dir_required}
use bootup.Providers.Staging.{World, write_fetched}
use bootup.Providers.Staging.Laws.{Touched, Touched-refl, and_then-Touched, and_then-eq-ok}
use bootup.Providers.Staging.Files.{put-other, put-same, write_fetched-Touched, write_fetched-eq-ok}
use bootup.Providers.Debian.{DebianProvider}
use bootup.Providers.Debian.Staging.{
  checksum_name_of, fetch_and_stage_artifacts, fetch_stage_verify, fetch_sums, fetch_verified,
  stage_files, stage_plan,
}
use bootup.Providers.Debian.Staging.Trust.{
  IsListed, IsVouched, fetch_sums-IsVouched, fetch_verified-IsListed,
}
use bootup.Policy.Loading.{Disk, put}
use bootup.Common.{
  >>-eq-ok, Bool-cases, Result, String, ap, arith, false, inl, inr, is_nil, ok, refl, refuse_if,
  some, ◌==◌, ◌>>◌, ◌∙◌, ◌≡◌, ◌⊎◌,
}
use bootup.Text.{is_empty, join_path}

module _ {Keyring : Type 0} (world : World Keyring) (lawful : IsLawful world.crypto) where
  -- The kernel or the initrd, at its path, under a checksum file that the keyring vouches for.
  pub record IsChained (dir : String) (keyring : Bytes) (boot_plan : BootPlan) (place : String)
      (message : Bytes) : Type 0 where
    pub sums : Bytes
    pub vouched : IsVouched world keyring boot_plan sums
    pub name : String
    pub url : String
    pub which :
        ((name ≡ "linux") × (url ≡ boot_plan.kernel.url))
        ⊎ ((name ≡ "initrd.gz") × (url ≡ boot_plan.initrd.url))
    pub target : join_path dir name ≡ place
    pub listed : IsListed world sums url (checksum_name_of world boot_plan name) message

  stage_files-Touched :
      (dir : String) (keyring : Bytes) (boot_plan : BootPlan) (sums : Bytes) (disk : Disk)
      → IsVouched world keyring boot_plan sums
      → Touched world.writer
          (IsChained dir keyring boot_plan)
          disk
          (stage_files world dir boot_plan sums disk).1
  unfolding stage_files fetch_stage_verify
  stage_files-Touched dir keyring boot_plan sums disk vouched =
      let P = IsChained dir keyring boot_plan in
      let step : (name url : String) (disk' : Disk)
          → (((name ≡ "linux") × (url ≡ boot_plan.kernel.url))
              ⊎ ((name ≡ "initrd.gz") × (url ≡ boot_plan.initrd.url)))
          → Touched world.writer P disk'
              (fetch_stage_verify world dir url name (checksum_name_of world boot_plan name) sums
                disk').1 =
        λ name url disk' which.
          write_fetched-Touched world P dir name
            (fetch_verified world url name (checksum_name_of world boot_plan name) sums) disk'
            (λ message got. record {
              sums = sums;
              vouched = vouched;
              name = name;
              url = url;
              which = which;
              target = refl;
              listed = fetch_verified-IsListed world lawful sums url name _ message got;
            }) in
      and_then-Touched world.writer P disk
        (fetch_stage_verify world dir boot_plan.kernel.url "linux"
          (checksum_name_of world boot_plan "linux") sums disk)
        _ (step "linux" boot_plan.kernel.url disk (inl (refl, refl)))
        (λ _ _.
          and_then-Touched world.writer P _
            (fetch_stage_verify world dir boot_plan.initrd.url "initrd.gz"
              (checksum_name_of world boot_plan "initrd.gz") sums _)
            _ (step "initrd.gz" boot_plan.initrd.url _ (inr (refl, refl)))
            (λ _ _. Touched-refl world.writer P _))

  fetch_and_stage_artifacts-Touched :
      (dir : String) (keyring : Bytes) (boot_plan : BootPlan) (disk : Disk)
      → Touched world.writer
          (IsChained dir keyring boot_plan)
          disk
          (fetch_and_stage_artifacts world dir keyring boot_plan disk).1
  unfolding fetch_and_stage_artifacts
  fetch_and_stage_artifacts-Touched dir keyring boot_plan disk =
      let P = IsChained dir keyring boot_plan in
      and_then-Touched world.writer P disk
        (refuse_if (is_empty dir) staging_dir_required >> fetch_sums world keyring boot_plan, disk)
        _ (Touched-refl world.writer P disk)
        (λ sums got.
          let (_, _, fetched) = >>-eq-ok (refuse_if (is_empty dir) staging_dir_required) _ got in
          stage_files-Touched dir keyring boot_plan sums disk
            (fetch_sums-IsVouched world lawful keyring boot_plan sums fetched))

  -- Staging by the Debian provider, on every outcome, leaves each path as it was, or with a file
  -- that was downloaded from the URL of the kernel or of the initrd, at its path, and whose digest
  -- stands in a checksum file whose digest stands in a release that is signed under the keyring of
  -- the provider; or with what a failed write of such a file leaves.
  pub stage_plan-Touched :
      (p : DebianProvider) (dir : String) (boot_plan : BootPlan) (disk : Disk)
      → Touched world.writer
          (IsChained dir p.keyring boot_plan)
          disk
          (stage_plan world p dir boot_plan disk).1
  unfolding stage_plan
  stage_plan-Touched p dir boot_plan disk = elim (Bool-cases (is_nil p.keyring)) [
    | inl bare ↦ rw bare (Touched-refl world.writer (IsChained dir p.keyring boot_plan) disk)
    | inr given ↦ rw given (fetch_and_stage_artifacts-Touched dir p.keyring boot_plan disk)
  ]

  -- A file that stands on the disk at its path, under a checksum file.
  pub record IsStoredFile (dir : String) (boot_plan : BootPlan) (sums : Bytes)
      (url name path : String) (disk : Disk) : Type 0 where
    pub message : Bytes
    pub target : join_path dir name ≡ path
    pub listed : IsListed world sums url (checksum_name_of world boot_plan name) message
    pub stored : disk path ≡ some (some message)

  -- What staging gives where it succeeds.
  pub record IsStaged (dir : String) (keyring : Bytes) (boot_plan result : BootPlan) (disk : Disk)
      : Type 0 where
    pub sums : Bytes
    pub vouched : IsVouched world keyring boot_plan sums
    pub kernel :
        IsStoredFile dir boot_plan sums boot_plan.kernel.url "linux" result.kernel.path disk
    pub initrd :
        IsStoredFile dir boot_plan sums boot_plan.initrd.url "initrd.gz" result.initrd.path disk

  stage_files-eq-ok :
      (dir : String) (keyring : Bytes) (boot_plan result : BootPlan) (sums : Bytes) (disk : Disk)
      → IsVouched world keyring boot_plan sums
      → (join_path dir "initrd.gz" == join_path dir "linux") ≡ false
      → (stage_files world dir boot_plan sums disk).0 ≡ ok result
      → IsStaged dir keyring boot_plan result (stage_files world dir boot_plan sums disk).1
  unfolding stage_files fetch_stage_verify
  stage_files-eq-ok dir keyring boot_plan result sums disk vouched apart h =
      let fetch_file : String → String → Result ProviderError Bytes =
        λ name url. fetch_verified world url name (checksum_name_of world boot_plan name) sums in
      let kernel = fetch_file "linux" boot_plan.kernel.url in
      let initrd = fetch_file "initrd.gz" boot_plan.initrd.url in
      let (path, wrote, h1, disk1) =
        and_then-eq-ok (write_fetched world dir "linux" kernel disk) _ h in
      let (message, got, target, disk2) =
        write_fetched-eq-ok world dir "linux" kernel disk path wrote in
      let between = (write_fetched world dir "linux" kernel disk).1 in
      let (other, wrote_other, h2, disk3) =
        and_then-eq-ok (write_fetched world dir "initrd.gz" initrd between) _ h1 in
      let (bytes, got_other, target_other, disk4) =
        write_fetched-eq-ok world dir "initrd.gz" initrd between other wrote_other in
      let whole : (stage_files world dir boot_plan sums disk).1
          ≡ put other (some (some bytes)) between =
        disk1 ∙ disk3 ∙ disk4 in
      let shown : between path ≡ some (some message) =
        ap (λ d. d path) disk2 ∙ put-same path _ disk in
      let clear : (other == path) ≡ false = rw (← target_other, ← target) apart in
      let kernel_path : path ≡ result.kernel.path = cc in
      let initrd_path : other ≡ result.initrd.path = cc in
      record {
        sums = sums;
        vouched = vouched;
        kernel = record {
          message = message;
          target = target ∙ kernel_path;
          listed =
              fetch_verified-IsListed world lawful sums boot_plan.kernel.url "linux" _ message got;
          stored =
              rw (← kernel_path)
                (ap (λ d. d path) whole ∙ put-other other path _ between clear ∙ shown);
        };
        initrd = record {
          message = bytes;
          target = target_other ∙ initrd_path;
          listed =
              fetch_verified-IsListed world lawful sums boot_plan.initrd.url "initrd.gz" _ bytes
                got_other;
          stored = rw (← initrd_path) (ap (λ d. d other) whole ∙ put-same other _ between);
        };
      }

  -- A plan that the Debian provider stages stands on the disk with files whose digests stand in a
  -- checksum file whose digest stands in a release that is signed under the keyring of the
  -- provider, where the two files have different paths; the keyring is not empty.
  pub stage_plan-IsStaged :
      (p : DebianProvider) (dir : String) (boot_plan result : BootPlan) (disk : Disk)
      → (join_path dir "initrd.gz" == join_path dir "linux") ≡ false
      → (stage_plan world p dir boot_plan disk).0 ≡ ok result
      → (is_nil p.keyring ≡ false)
        × IsStaged dir p.keyring boot_plan result (stage_plan world p dir boot_plan disk).1
  unfolding stage_plan fetch_and_stage_artifacts
  stage_plan-IsStaged p dir boot_plan result disk apart h = elim (Bool-cases (is_nil p.keyring)) [
    | inl bare ↦ absurd (ground (arith, bare))
    | inr given ↦
        let (sums, got, h1, after) =
          and_then-eq-ok
            (
              refuse_if (is_empty dir) staging_dir_required >> fetch_sums world p.keyring boot_plan,
              disk,
            )
            (λ sums. stage_files world dir boot_plan sums) (rw given at h) in
        let (_, _, fetched) = >>-eq-ok (refuse_if (is_empty dir) staging_dir_required) _ got in
        let staged =
          stage_files-eq-ok dir p.keyring boot_plan result sums disk
            (fetch_sums-IsVouched world lawful p.keyring boot_plan sums fetched) apart h1 in
        (given, rw given (rw after staged))
  ]
