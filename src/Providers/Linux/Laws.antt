-- ===== src/Providers/Linux/Laws.antt =====
-- What the Linux provider stages, and what it leaves on the disk.
use bootup.Verify.{Bytes}
use bootup.Verify.Digests.{IsLawful}
use bootup.Provider.{BootPlan}
use bootup.Providers.{kernel_url_required, staging_dir_required, with_path}
use bootup.Providers.Staging.{World}
use bootup.Providers.Staging.Files.{
  IsOnDisk, IsStagedAt, put-other, put-same, stage_checked-Touched, stage_checked-eq-ok,
}
use bootup.Providers.Staging.Laws.{
  IsSecure, Touched, Touched-refl, and_then-Touched, and_then-eq-ok, require_https-IsSecure,
}
use bootup.Providers.Linux.{
  check_plan, fetch_and_stage_artifacts, fetch_stage_verify, non_empty_urls, stage_initrd,
  stage_name,
}
use bootup.Policy.Loading.{Disk, put}
use bootup.Common.{
  >>-eq-ok, Bool-cases, String, [], ap, arith, eq_iff, false, inl, inr, ok, refl, refuse_if,
  refuse_if-eq-ok, some, sym, true, ◌==◌, ◌∙◌, ◌∷◌, ◌≡◌, ◌⊎◌,
}
use bootup.Text.{is_empty}

module _ {Keyring : Type 0} (world : World Keyring) (lawful : IsLawful world.crypto) where
  -- What a plan's artifacts may leave at a path.
  pub IsFromPlan : String → BootPlan → String → Bytes → Type 0
  IsFromPlan dir boot_plan place message =
      IsStagedAt world dir (stage_name world boot_plan.kernel) boot_plan.kernel place message
      ⊎ IsStagedAt world dir (stage_name world boot_plan.initrd) boot_plan.initrd place message

  module _ (P : String → Bytes → Type 0) where
    stage_initrd-Touched :
        (dir : String) (boot_plan : BootPlan) (disk : Disk)
        → ((place : String) (message : Bytes)
            → IsStagedAt world dir
                (stage_name world boot_plan.initrd)
                boot_plan.initrd
                place
                message
            → P place message)
        → Touched world.writer P disk (stage_initrd world dir boot_plan disk).1
    unfolding stage_initrd fetch_stage_verify
    stage_initrd-Touched dir boot_plan disk allowed =
        elim (Bool-cases (is_empty boot_plan.initrd.url)) [
          | inl bare ↦ rw bare (Touched-refl world.writer P disk)
          | inr given ↦ rw given (
              and_then-Touched world.writer P disk
                (fetch_stage_verify world dir boot_plan.initrd disk) _
                (stage_checked-Touched world lawful P dir (stage_name world boot_plan.initrd)
                  boot_plan.initrd disk allowed)
                (λ _ _. Touched-refl world.writer P _))
        ]

  -- Staging, on every outcome, leaves each path as it was, or with bytes that were downloaded from
  -- the URL of the artifact that is staged there and that match its pin, or with what a failed
  -- write of such bytes leaves.
  pub fetch_and_stage_artifacts-Touched :
      (dir : String) (boot_plan : BootPlan) (disk : Disk)
      → Touched world.writer
          (IsFromPlan dir boot_plan)
          disk
          (fetch_and_stage_artifacts world dir boot_plan disk).1
  unfolding fetch_and_stage_artifacts fetch_stage_verify IsFromPlan
  fetch_and_stage_artifacts-Touched dir boot_plan disk =
      let P = IsFromPlan dir boot_plan in
      and_then-Touched world.writer P disk (check_plan world dir boot_plan, disk) _
        (Touched-refl world.writer P disk)
        (λ _ _.
          and_then-Touched world.writer P disk (fetch_stage_verify world dir boot_plan.kernel disk)
            _
            (stage_checked-Touched world lawful P dir (stage_name world boot_plan.kernel)
              boot_plan.kernel disk (λ _ _ k. inl k))
            (λ path _.
              stage_initrd-Touched P dir
                (record boot_plan { kernel = with_path path boot_plan.kernel }) _ (λ _ _ i. inr i)))

  -- The two ends of the step of the initrd: there is none, or it is staged.
  stage_initrd-eq-ok :
      (dir : String) (boot_plan result : BootPlan) (disk : Disk)
      → (stage_initrd world dir boot_plan disk).0 ≡ ok result
      → ((is_empty boot_plan.initrd.url ≡ true)
          × (result ≡ boot_plan)
          × ((stage_initrd world dir boot_plan disk).1 ≡ disk))
        ⊎ ((path : String) × (message : Bytes) × (is_empty boot_plan.initrd.url ≡ false)
            × (result ≡ record boot_plan { initrd = with_path path boot_plan.initrd })
            × IsStagedAt world dir (stage_name world boot_plan.initrd) boot_plan.initrd path message
            × ((stage_initrd world dir boot_plan disk).1 ≡ put path (some (some message)) disk))
  unfolding stage_initrd fetch_stage_verify
  stage_initrd-eq-ok dir boot_plan result disk h =
      elim (Bool-cases (is_empty boot_plan.initrd.url)) [
        | inl bare ↦ inl (bare, cc, rw bare)
        | inr given ↦
            let (path, wrote, h1, disk1) =
              and_then-eq-ok (fetch_stage_verify world dir boot_plan.initrd disk) _
                (rw given at h) in
            let (message, staged, disk2) =
              stage_checked-eq-ok world lawful dir (stage_name world boot_plan.initrd)
                boot_plan.initrd disk path wrote in
            inr (path, message, given, cc, staged, rw given (disk1 ∙ disk2))
      ]

  -- What staging gives where it succeeds.
  pub record IsStaged (dir : String) (boot_plan result : BootPlan) (disk : Disk) : Type 0 where
    pub secure : IsSecure world.http.parse_url boot_plan.kernel.url
    pub kernel_message : Bytes
    pub kernel :
        IsStagedAt world dir
          (stage_name world boot_plan.kernel)
          boot_plan.kernel
          result.kernel.path
          kernel_message
    pub kernel_stored :
        (disk result.kernel.path ≡ some (some kernel_message))
        ⊎ ((is_empty boot_plan.initrd.url ≡ false) × (result.initrd.path ≡ result.kernel.path))
    pub secure_initrd :
        is_empty boot_plan.initrd.url ≡ false → IsSecure world.http.parse_url boot_plan.initrd.url
    pub initrd :
        is_empty boot_plan.initrd.url ≡ false
        → IsOnDisk world dir
            (stage_name world boot_plan.initrd)
            boot_plan.initrd
            result.initrd.path
            disk

  check_plan-IsSecure :
      (dir : String) (boot_plan : BootPlan) {u : Unit {0}}
      → check_plan world dir boot_plan ≡ ok u
      → IsSecure world.http.parse_url boot_plan.kernel.url
        × (is_empty boot_plan.initrd.url ≡ false
            → IsSecure world.http.parse_url boot_plan.initrd.url)
  unfolding check_plan non_empty_urls
  check_plan-IsSecure dir boot_plan h =
      let urls = non_empty_urls world (boot_plan.kernel.url ∷ boot_plan.initrd.url ∷ []) in
      let (_, _, h1) = >>-eq-ok (refuse_if (is_empty dir) staging_dir_required) _ h in
      let (_, given, h2) =
        >>-eq-ok (refuse_if (is_empty boot_plan.kernel.url) kernel_url_required) _ h1 in
      let all = require_https-IsSecure world.http.parse_url urls h2 in
      let kernel_given =
        refuse_if-eq-ok (is_empty boot_plan.kernel.url) kernel_url_required given in
      let both = rw kernel_given at all in (both.0, λ some_url. (rw some_url at both).1.0)

  -- A plan that the Linux provider stages has HTTPS URLs. Its kernel, and its initrd where it has
  -- one, were downloaded from them, match their pins, and have the paths of their names. The initrd
  -- stands on the disk with these bytes, and so does the kernel, unless there is an initrd and both
  -- have the same path.
  pub fetch_and_stage_artifacts-IsStaged :
      (dir : String) (boot_plan result : BootPlan) (disk : Disk)
      → (fetch_and_stage_artifacts world dir boot_plan disk).0 ≡ ok result
      → IsStaged dir boot_plan result (fetch_and_stage_artifacts world dir boot_plan disk).1
  unfolding fetch_and_stage_artifacts fetch_stage_verify stage_initrd
  fetch_and_stage_artifacts-IsStaged dir boot_plan result disk h =
      let (_, checked, h1, disk1) = and_then-eq-ok (check_plan world dir boot_plan, disk) _ h in
      let (path, wrote, h2, disk2) =
        and_then-eq-ok (fetch_stage_verify world dir boot_plan.kernel disk) _ h1 in
      let (message, staged, disk3) =
        stage_checked-eq-ok world lawful dir (stage_name world boot_plan.kernel) boot_plan.kernel
          disk path wrote in
      let (secure, secure_initrd) = check_plan-IsSecure dir boot_plan checked in
      let start = record boot_plan { kernel = with_path path boot_plan.kernel } in
      let between = (fetch_stage_verify world dir boot_plan.kernel disk).1 in
      let shown : between path ≡ some (some message) =
        ap (λ d. d path) disk3 ∙ put-same path _ disk in
      elim (stage_initrd-eq-ok dir start result between h2) [
        | inl (bare, same, disk4) ↦ record {
          secure = secure;
          kernel_message = message;
          kernel = rw same staged;
          kernel_stored = inl (rw same (ap (λ d. d path) (disk1 ∙ disk2 ∙ disk4) ∙ shown));
          secure_initrd = secure_initrd;
          initrd = λ given. absurd (ground (arith, bare, given));
        }
        | inr (other, bytes, given, same, staged_initrd, disk4) ↦
            let kernel_path : path ≡ result.kernel.path = rw same refl in
            let initrd_path : other ≡ result.initrd.path = rw same refl in
            let final = (fetch_and_stage_artifacts world dir boot_plan disk).1 in
            let whole : final ≡ put other (some (some bytes)) between = disk1 ∙ disk2 ∙ disk4 in
            record {
              secure = secure;
              kernel_message = message;
              kernel = rw (← kernel_path) staged;
              kernel_stored = elim (Bool-cases (other == path)) [
                | inl same_path ↦
                    inr (given, sym initrd_path ∙ (eq_iff other path).0 same_path ∙ kernel_path)
                | inr clear ↦ inl (
                    rw (← kernel_path)
                      (ap (λ d. d path) whole ∙ put-other other path _ between clear ∙ shown))
              ];
              secure_initrd = secure_initrd;
              initrd = λ _. record {
                message = bytes;
                staged = rw (← initrd_path) staged_initrd;
                stored = rw (← initrd_path) (ap (λ d. d other) whole ∙ put-same other _ between);
              };
            }
      ]
