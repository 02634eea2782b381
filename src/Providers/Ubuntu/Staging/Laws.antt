-- ===== src/Providers/Ubuntu/Staging/Laws.antt =====
-- What the Ubuntu provider stages.
use bootup.Verify.{Bytes}
use bootup.Verify.Digests.{IsLawful, check_sha256_iff}
use bootup.Provider.{Artifact, BootPlan}
use bootup.Providers.{pins_incomplete, staging_dir_required}
use bootup.Providers.Staging.{World, check_pin, write_fetched}
use bootup.Providers.Staging.Laws.{
  IsSecure, and_then-eq-ok, check_reported-eq-ok, require_https-IsSecure,
}
use bootup.Providers.Staging.Files.{put-other, put-same, write_fetched-eq-ok}
use bootup.Providers.Debian.Staging.{fetch_response, fetch_with_progress}
use bootup.Providers.Debian.Staging.Trust.{fetch_with_progress-eq-ok}
use bootup.Providers.Ubuntu.Staging.{
  check_list, check_plan, fetch_and_stage_artifacts, fetch_pinned, fetch_stage_verify,
}
use bootup.Providers.Ubuntu.Staging.Signed.{IsSignedList, check_sums_file-IsSignedList}
use bootup.Policy.Loading.{Disk, put}
use bootup.Common.{
  >>-eq-ok, >>=-eq-ok, Option, String, [], ap, differ, differ-false, false, if-false, if-true, ok,
  refuse_if, refuse_if-eq-ok, some, sym, true, ◌==◌, ◌∙◌, ◌∷◌, ◌≡◌,
}
use bootup.Text.{decode_hex, is_empty, join_path}

module _ {Keyring : Type 0} (world : World Keyring) (lawful : IsLawful world.crypto) where
  -- A file that stands on the disk with bytes that were downloaded from its URL, and whose SHA-256
  -- is its pin, where it has one.
  pub record IsStoredFile (dir : String) (artifact : Artifact) (path : String) (disk : Disk)
      : Type 0 where
    pub message : Bytes
    pub target : join_path dir artifact.name ≡ path
    pub downloaded : fetch_response world artifact.url ≡ ok message
    pub pinned :
        is_empty artifact.sha256 ≡ false
        → decode_hex artifact.sha256 ≡ some (world.crypto.sha256 message)
    pub stored : disk path ≡ some (some message)

  fetch_pinned-eq-ok :
      (artifact : Artifact) (message : Bytes)
      → fetch_pinned world artifact ≡ ok message
      → (fetch_response world artifact.url ≡ ok message)
        × (is_empty artifact.sha256 ≡ false
            → decode_hex artifact.sha256 ≡ some (world.crypto.sha256 message))
  unfolding fetch_pinned check_pin
  fetch_pinned-eq-ok artifact message h =
      let (got, fetched, h1) =
        >>=-eq-ok (fetch_with_progress world artifact.url artifact.name) _ h in
      let (_, checked, same) = >>-eq-ok (check_pin world artifact got) _ h1 in
      let eq : got ≡ message = cc in
      (
        fetch_with_progress-eq-ok world artifact.url artifact.name got fetched ∙ ap ok eq,
        λ some_pin.
            (check_sha256_iff world.crypto lawful got artifact.sha256).0 (
              check_reported-eq-ok world artifact.name _
                (if-false (is_empty artifact.sha256) (ok tt) _ some_pin checked))
            ∙ ap (λ m. some (world.crypto.sha256 m)) eq,
      )

  -- What staging gives where it succeeds.
  pub record IsStaged (dir : String) (keyring : Option Bytes) (boot_plan result : BootPlan)
      (disk : Disk) : Type 0 where
    pub list : (ring : Bytes) → keyring ≡ some ring → IsSignedList world lawful ring boot_plan
    pub both_pinned : is_empty boot_plan.kernel.sha256 ≡ is_empty boot_plan.initrd.sha256
    pub secure :
        is_empty boot_plan.kernel.sha256 ≡ true
        → IsSecure world.http.parse_url boot_plan.kernel.url
          × IsSecure world.http.parse_url boot_plan.initrd.url
    pub kernel : IsStoredFile dir boot_plan.kernel result.kernel.path disk
    pub initrd : IsStoredFile dir boot_plan.initrd result.initrd.path disk

  check_list-IsSignedList :
      (keyring : Option Bytes) (boot_plan : BootPlan) (ring : Bytes) {u : Unit {0}}
      → keyring ≡ some ring
      → check_list world keyring boot_plan ≡ ok u
      → IsSignedList world lawful ring boot_plan
  unfolding check_list
  check_list-IsSignedList keyring boot_plan ring given h =
      check_sums_file-IsSignedList world lawful ring boot_plan
        (ap (λ k. check_list world k boot_plan) (sym given) ∙ h)

  check_plan-eq-ok :
      (dir : String) (keyring : Option Bytes) (boot_plan : BootPlan) {u : Unit {0}}
      → check_plan world dir keyring boot_plan ≡ ok u
      → ((ring : Bytes) → keyring ≡ some ring → IsSignedList world lawful ring boot_plan)
        × (is_empty boot_plan.kernel.sha256 ≡ is_empty boot_plan.initrd.sha256)
        × (is_empty boot_plan.kernel.sha256 ≡ true
            → IsSecure world.http.parse_url boot_plan.kernel.url
              × IsSecure world.http.parse_url boot_plan.initrd.url)
  unfolding check_plan
  check_plan-eq-ok dir keyring boot_plan h =
      let kernel = boot_plan.kernel in
      let initrd = boot_plan.initrd in
      let (_, _, h1) = >>-eq-ok (refuse_if (is_empty dir) staging_dir_required) _ h in
      let (_, alike, h2) =
        >>-eq-ok
          (refuse_if (differ (is_empty kernel.sha256) (is_empty initrd.sha256)) pins_incomplete) _
          h1 in
      let (_, listed, h3) = >>-eq-ok (check_list world keyring boot_plan) _ h2 in
      (
        λ ring given. check_list-IsSignedList keyring boot_plan ring given listed,
        differ-false _ _ (refuse_if-eq-ok _ _ alike),
        λ bare.
            let (one, (two, _)) =
              require_https-IsSecure world.http.parse_url (kernel.url ∷ initrd.url ∷ [])
                (if-true (is_empty kernel.sha256) _ _ bare h3) in
            (one, two),
      )

  -- A plan that the Ubuntu provider stages stands on the disk with the bytes that were downloaded
  -- from its URLs and match its pins, where the two files have different paths. Either both files
  -- have a pin, or neither has, and then both URLs are HTTPS. Where there is a keyring, a checksum
  -- file that is signed under it lists the ISO image of the target.
  pub fetch_and_stage_artifacts-IsStaged_list :
      (dir : String) (keyring : Option Bytes) (boot_plan result : BootPlan) (disk : Disk)
      → (join_path dir boot_plan.initrd.name == join_path dir boot_plan.kernel.name) ≡ false
      → (fetch_and_stage_artifacts world dir keyring boot_plan disk).0 ≡ ok result
      → IsStaged dir keyring boot_plan result
          (fetch_and_stage_artifacts world dir keyring boot_plan disk).1
  unfolding fetch_and_stage_artifacts fetch_stage_verify
  fetch_and_stage_artifacts-IsStaged_list dir keyring boot_plan result disk apart h =
      let kernel = boot_plan.kernel in
      let initrd = boot_plan.initrd in
      let get_kernel = fetch_pinned world kernel in
      let get_initrd = fetch_pinned world initrd in
      let (_, checked, h1, disk1) =
        and_then-eq-ok (check_plan world dir keyring boot_plan, disk) _ h in
      let (path, wrote, h2, disk2) =
        and_then-eq-ok (write_fetched world dir kernel.name get_kernel disk) _ h1 in
      let (message, got, target, disk3) =
        write_fetched-eq-ok world dir kernel.name get_kernel disk path wrote in
      let between = (write_fetched world dir kernel.name get_kernel disk).1 in
      let (other, wrote_other, h3, disk4) =
        and_then-eq-ok (write_fetched world dir initrd.name get_initrd between) _ h2 in
      let (bytes, got_other, target_other, disk5) =
        write_fetched-eq-ok world dir initrd.name get_initrd between other wrote_other in
      let whole : (fetch_and_stage_artifacts world dir keyring boot_plan disk).1
          ≡ put other (some (some bytes)) between =
        disk1 ∙ disk2 ∙ disk4 ∙ disk5 in
      let shown : between path ≡ some (some message) =
        ap (λ d. d path) disk3 ∙ put-same path _ disk in
      let clear : (other == path) ≡ false = rw (← target_other, ← target) apart in
      let kernel_path : path ≡ result.kernel.path = cc in
      let initrd_path : other ≡ result.initrd.path = cc in
      let (list, both, secure) = check_plan-eq-ok dir keyring boot_plan checked in
      let (from, pin) = fetch_pinned-eq-ok kernel message got in
      let (from_other, pin_other) = fetch_pinned-eq-ok initrd bytes got_other in
      record {
        list = list;
        both_pinned = both;
        secure = secure;
        kernel = record {
          message = message;
          target = target ∙ kernel_path;
          downloaded = from;
          pinned = pin;
          stored =
              rw (← kernel_path)
                (ap (λ d. d path) whole ∙ put-other other path _ between clear ∙ shown);
        };
        initrd = record {
          message = bytes;
          target = target_other ∙ initrd_path;
          downloaded = from_other;
          pinned = pin_other;
          stored = rw (← initrd_path) (ap (λ d. d other) whole ∙ put-same other _ between);
        };
      }
