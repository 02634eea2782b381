-- ===== src/Providers/Fedora/Laws.antt =====
-- What the Fedora provider plans, and what it stages.
use bootup.Verify.{Bytes}
use bootup.Verify.Digests.{IsLawful}
use bootup.Provider.{BootPlan}
use bootup.Providers.{pins_incomplete, staging_dir_required}
use bootup.Providers.Staging.{World, stage_checked}
use bootup.Providers.Staging.Laws.{
  IsSecure, Touched, Touched-refl, and_then-Touched, and_then-eq-ok, require_https-IsSecure,
}
use bootup.Providers.Staging.Files.{
  IsOnDisk, IsStagedAt, put-other, put-same, stage_checked-Touched, stage_checked-eq-ok,
}
use bootup.Providers.Fedora.{check_plan, fetch_and_stage_artifacts, fetch_stage_verify}
use bootup.Policy.Loading.{Disk, put}
use bootup.Common.{
  >>-eq-ok, String, [], ap, differ, differ-false, false, if-true, inl, inr, ok, refuse_if,
  refuse_if-eq-ok, some, true, ◌==◌, ◌∙◌, ◌∷◌, ◌≡◌, ◌⊎◌,
}
use bootup.Text.{is_empty, join_path}

module _ {Keyring : Type 0} (world : World Keyring) (lawful : IsLawful world.crypto) where
  -- What a plan's artifacts may leave at a path.
  pub IsFromPlan : String → BootPlan → String → Bytes → Type 0
  IsFromPlan dir boot_plan place message =
      IsStagedAt world dir boot_plan.kernel.name boot_plan.kernel place message
      ⊎ IsStagedAt world dir boot_plan.initrd.name boot_plan.initrd place message

  -- Staging a Fedora plan, on every outcome, leaves each path as it was, or with bytes that were
  -- downloaded from the URL of the artifact that is staged there and that match its pin, or with
  -- what a failed write of such bytes leaves.
  pub fetch_and_stage_artifacts-kept :
      (dir : String) (boot_plan : BootPlan) (disk : Disk)
      → Touched world.writer
          (IsFromPlan dir boot_plan)
          disk
          (fetch_and_stage_artifacts world dir boot_plan disk).1
  unfolding fetch_and_stage_artifacts fetch_stage_verify IsFromPlan
  fetch_and_stage_artifacts-kept dir boot_plan disk =
      let P = IsFromPlan dir boot_plan in
      let kernel = boot_plan.kernel in
      let initrd = boot_plan.initrd in
      and_then-Touched world.writer P disk (check_plan world dir boot_plan, disk) _
        (Touched-refl world.writer P disk)
        (λ _ _.
          and_then-Touched world.writer P disk (stage_checked world dir kernel.name kernel disk) _
            (stage_checked-Touched world lawful P dir kernel.name kernel disk (λ _ _ k. inl k))
            (λ path _.
              and_then-Touched world.writer P _ (stage_checked world dir initrd.name initrd _) _
                (stage_checked-Touched world lawful P dir initrd.name initrd _ (λ _ _ i. inr i))
                (λ _ _. Touched-refl world.writer P _)))

  -- What staging gives where it succeeds.
  pub record IsStaged (dir : String) (boot_plan result : BootPlan) (disk : Disk) : Type 0 where
    pub kernel : IsOnDisk world dir boot_plan.kernel.name boot_plan.kernel result.kernel.path disk
    pub initrd : IsOnDisk world dir boot_plan.initrd.name boot_plan.initrd result.initrd.path disk
    pub both_pinned : is_empty boot_plan.kernel.sha256 ≡ is_empty boot_plan.initrd.sha256
    pub secure :
        is_empty boot_plan.kernel.sha256 ≡ true
        → IsSecure world.http.parse_url boot_plan.kernel.url
          × IsSecure world.http.parse_url boot_plan.initrd.url

  check_plan-eq-ok :
      (dir : String) (boot_plan : BootPlan) {u : Unit {0}}
      → check_plan world dir boot_plan ≡ ok u
      → (is_empty boot_plan.kernel.sha256 ≡ is_empty boot_plan.initrd.sha256)
        × (is_empty boot_plan.kernel.sha256 ≡ true
            → IsSecure world.http.parse_url boot_plan.kernel.url
              × IsSecure world.http.parse_url boot_plan.initrd.url)
  unfolding check_plan
  check_plan-eq-ok dir boot_plan h =
      let kernel = boot_plan.kernel in
      let initrd = boot_plan.initrd in
      let (_, _, h1) = >>-eq-ok (refuse_if (is_empty dir) staging_dir_required) _ h in
      let (_, alike, h2) =
        >>-eq-ok
          (refuse_if (differ (is_empty kernel.sha256) (is_empty initrd.sha256)) pins_incomplete) _
          h1 in
      (
        differ-false _ _ (refuse_if-eq-ok _ _ alike),
        λ bare.
            let (one, (two, _)) =
              require_https-IsSecure world.http.parse_url (kernel.url ∷ initrd.url ∷ [])
                (if-true (is_empty kernel.sha256) _ _ bare h2) in
            (one, two),
      )

  -- A Fedora plan that is staged stands on the disk with the bytes that were downloaded from its
  -- URLs and match its pins, where the two files have different paths. Either both files have a
  -- pin, or neither has, and then both URLs are HTTPS.
  pub fetch_and_stage_artifacts-IsStaged_pair :
      (dir : String) (boot_plan result : BootPlan) (disk : Disk)
      → (join_path dir boot_plan.initrd.name == join_path dir boot_plan.kernel.name) ≡ false
      → (fetch_and_stage_artifacts world dir boot_plan disk).0 ≡ ok result
      → IsStaged dir boot_plan result (fetch_and_stage_artifacts world dir boot_plan disk).1
  unfolding fetch_and_stage_artifacts fetch_stage_verify
  fetch_and_stage_artifacts-IsStaged_pair dir boot_plan result disk apart h =
      let kernel = boot_plan.kernel in
      let initrd = boot_plan.initrd in
      let (_, checked, h1, disk1) = and_then-eq-ok (check_plan world dir boot_plan, disk) _ h in
      let (path, wrote, h2, disk2) =
        and_then-eq-ok (stage_checked world dir kernel.name kernel disk) _ h1 in
      let (message, staged, disk3) =
        stage_checked-eq-ok world lawful dir kernel.name kernel disk path wrote in
      let between = (stage_checked world dir kernel.name kernel disk).1 in
      let (other, wrote_other, h3, disk4) =
        and_then-eq-ok (stage_checked world dir initrd.name initrd between) _ h2 in
      let (bytes, staged_other, disk5) =
        stage_checked-eq-ok world lawful dir initrd.name initrd between other wrote_other in
      let whole : (fetch_and_stage_artifacts world dir boot_plan disk).1
          ≡ put other (some (some bytes)) between =
        disk1 ∙ disk2 ∙ disk4 ∙ disk5 in
      let shown : between path ≡ some (some message) =
        ap (λ d. d path) disk3 ∙ put-same path _ disk in
      let clear : (other == path) ≡ false = rw (← staged_other.target, ← staged.target) apart in
      let kernel_path : path ≡ result.kernel.path = cc in
      let initrd_path : other ≡ result.initrd.path = cc in
      let (both, secure) = check_plan-eq-ok dir boot_plan checked in
      record {
        kernel = record {
          message = message;
          staged = rw (← kernel_path) staged;
          stored =
              rw (← kernel_path)
                (ap (λ d. d path) whole ∙ put-other other path _ between clear ∙ shown);
        };
        initrd = record {
          message = bytes;
          staged = rw (← initrd_path) staged_other;
          stored = rw (← initrd_path) (ap (λ d. d other) whole ∙ put-same other _ between);
        };
        both_pinned = both;
        secure = secure;
      }
