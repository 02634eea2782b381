-- ===== src/Providers/Fedora/Pins.antt =====
-- The pins of a Fedora plan.
use Prim.Native.String
use bootup.Providers.Fedora.Treeinfo.Laws.{parse_treeinfo_checksums-IsDigest}
use bootup.Verify.{Bytes}
use bootup.Verify.Digests.{IsLawful}
use bootup.Verify.Sums.{IsDigest}
use bootup.Provider.{BootPlan, PlanInput, SelectedOption, Target, freebsd_kboot, resolved_action}
use bootup.Provider.Fragments.{apply_selected_options, selected_option_fragments}
use bootup.Providers.{
  apply_options, checksums_offline, of_http, pins_incomplete, unsupported_architecture,
}
use bootup.Providers.Staging.{World, require_https}
use bootup.Providers.Fedora.Treeinfo.{TreeinfoChecksums, parse_treeinfo_checksums}
use bootup.Common.{
  >>-eq-ok, >>=-eq-ok, Bool, Bool-cases, Char, List, String, [], ap, arith, differ, differ-false,
  false, if-false, if-true, inl, inr, not, ok, refl, refuse_if, refuse_if-eq-ok, sym, true, wrap,
  wrap-eq-ok, ◌==◌, ◌∙◌, ◌∷◌, ◌≡◌,
}
use bootup.Text.{is_empty, to_lower}
use bootup.Http.{fetch}
use bootup.Providers.Staging.Laws.{IsSecure, require_https-IsSecure}
use bootup.Providers.Fedora.{
  FedoraProvider, artifact_checksums, base_plan, fetch_checksums, plan, selected_target,
  target_base_url, target_checksums,
}

-- Selected options change no artifact.
apply_options-artifacts :
    (boot_plan result : BootPlan) (options : List SelectedOption)
    → apply_options boot_plan options ≡ ok result
    → (boot_plan.kernel ≡ result.kernel) × (boot_plan.initrd ≡ result.initrd)
unfolding apply_selected_options
apply_options-artifacts boot_plan result options h =
    let (fragments, _, same) =
      >>=-eq-ok (selected_option_fragments boot_plan.target.options options) _
        (wrap-eq-ok _ (apply_selected_options boot_plan options) h) in
    elim (Bool-cases (resolved_action boot_plan == freebsd_kboot)) [
      | inl kboot ↦ let eq = rw kboot at same in (cc, cc)
      | inr other ↦ let eq = rw other at same in (cc, cc)
    ]

is_empty-to_lower : (wide : Char → Char) (s : String) → is_empty (to_lower wide s) ≡ is_empty s
unfolding to_lower
is_empty-to_lower wide String.[] = refl
is_empty-to_lower wide (String.◌∷◌ c s) = refl

is_empty-of_digest : (s : String) → IsDigest s → is_empty s ≡ false
is_empty-of_digest String.[] h = absurd (omega (arith, h.0))
is_empty-of_digest (String.◌∷◌ c s) h = refl

module _ {Keyring : Type 0} (world : World Keyring) (lawful : IsLawful world.crypto) where
  -- Where the digests of a plan come from.
  pub data PinOrigin (p : FedoraProvider) (target : Target) (url : String) (offline : Bool)
      (checksums : TreeinfoChecksums) : Type 0 where
    of_config :
        is_empty p.kernel_sha256 ≡ false
        → checksums.kernel_sha256 ≡ p.kernel_sha256
        → checksums.initrd_sha256 ≡ p.initrd_sha256
        → PinOrigin p target url offline checksums
    of_target :
        is_empty p.kernel_sha256 ≡ true
        → is_empty target.source.kernel_sha256 ≡ false
        → checksums.kernel_sha256 ≡ to_lower world.crypto.lower_wide target.source.kernel_sha256
        → checksums.initrd_sha256 ≡ to_lower world.crypto.lower_wide target.source.initrd_sha256
        → PinOrigin p target url offline checksums
    of_treeinfo :
        is_empty p.kernel_sha256 ≡ true
        → is_empty target.source.kernel_sha256 ≡ true
        → offline ≡ false
        → IsSecure world.http.parse_url (String.◌++◌ url "/.treeinfo")
        → (message : Bytes) → fetch world.http (String.◌++◌ url "/.treeinfo") ≡ ok message
        → parse_treeinfo_checksums world message ≡ ok checksums
        → PinOrigin p target url offline checksums

  -- Both digests are there, and their origin is known.
  pub record ArePins (p : FedoraProvider) (target : Target) (url : String) (offline : Bool)
      (checksums : TreeinfoChecksums) : Type 0 where
    pub kernel : is_empty checksums.kernel_sha256 ≡ false
    pub initrd : is_empty checksums.initrd_sha256 ≡ false
    pub origin : PinOrigin p target url offline checksums

  fetch_checksums-ArePins :
      (p : FedoraProvider) (target : Target) (url : String) (checksums : TreeinfoChecksums)
      → is_empty p.kernel_sha256 ≡ true
      → is_empty target.source.kernel_sha256 ≡ true
      → fetch_checksums world url ≡ ok checksums
      → ArePins p target url false checksums
  unfolding fetch_checksums
  fetch_checksums-ArePins p target url checksums unset bare h =
      let treeinfo_url = String.◌++◌ url "/.treeinfo" in
      let (_, secure, h1) = >>-eq-ok (require_https world.http.parse_url (treeinfo_url ∷ [])) _ h in
      let (message, fetched, parsed) =
        >>=-eq-ok (wrap of_http (fetch world.http treeinfo_url)) _ h1 in
      let (kernel, initrd) =
        parse_treeinfo_checksums-IsDigest world lawful message checksums parsed in
      record {
        kernel = is_empty-of_digest _ kernel;
        initrd = is_empty-of_digest _ initrd;
        origin =
            of_treeinfo unset bare refl
              (require_https-IsSecure world.http.parse_url (treeinfo_url ∷ []) secure).0 message
              (wrap-eq-ok of_http _ fetched) parsed;
      }

  target_checksums-ArePins :
      (p : FedoraProvider) (target : Target) (url : String) (offline : Bool)
      (checksums : TreeinfoChecksums)
      → is_empty p.kernel_sha256 ≡ true
      → target_checksums world target url offline ≡ ok checksums
      → ArePins p target url offline checksums
  unfolding target_checksums
  target_checksums-ArePins p target url offline checksums bare h =
      let kernel = target.source.kernel_sha256 in
      let initrd = target.source.initrd_sha256 in
      let (_, both, h1) =
        >>-eq-ok (refuse_if (differ (is_empty kernel) (is_empty initrd)) pins_incomplete) _ h in
      let alike = differ-false (is_empty kernel) (is_empty initrd) (refuse_if-eq-ok _ _ both) in
      elim (Bool-cases (is_empty kernel)) [
        | inr given ↦
            let same = if-true (not (is_empty kernel)) _ _ (rw given refl) h1 in
            let eq_kernel : to_lower world.crypto.lower_wide kernel ≡ checksums.kernel_sha256 =
              cc in
            let eq_initrd : to_lower world.crypto.lower_wide initrd ≡ checksums.initrd_sha256 =
              cc in
            record {
              kernel = rw (← eq_kernel) (is_empty-to_lower _ kernel ∙ given);
              initrd = rw (← eq_initrd) (is_empty-to_lower _ initrd ∙ sym alike ∙ given);
              origin = of_target bare given (sym eq_kernel) (sym eq_initrd);
            }
        | inl missing ↦
            let h2 = if-false (not (is_empty kernel)) _ _ (rw missing refl) h1 in
            let (_, online, h3) = >>-eq-ok (refuse_if offline checksums_offline) _ h2 in
            let eq : offline ≡ false = refuse_if-eq-ok offline checksums_offline online in
            rw eq (fetch_checksums-ArePins p target url checksums bare missing h3)
      ]

  artifact_checksums-ArePins :
      (p : FedoraProvider) (target : Target) (url : String) (offline : Bool)
      (checksums : TreeinfoChecksums)
      → artifact_checksums world p target url offline ≡ ok checksums
      → ArePins p target url offline checksums
  unfolding artifact_checksums
  artifact_checksums-ArePins p target url offline checksums h =
      let kernel = p.kernel_sha256 in
      let initrd = p.initrd_sha256 in
      let (_, both, h1) =
        >>-eq-ok (refuse_if (differ (is_empty kernel) (is_empty initrd)) pins_incomplete) _ h in
      let alike = differ-false (is_empty kernel) (is_empty initrd) (refuse_if-eq-ok _ _ both) in
      elim (Bool-cases (is_empty kernel)) [
        | inr given ↦
            let same = if-true (not (is_empty kernel)) _ _ (rw given refl) h1 in
            let eq_kernel : kernel ≡ checksums.kernel_sha256 = cc in
            let eq_initrd : initrd ≡ checksums.initrd_sha256 = cc in
            record {
              kernel = rw (← eq_kernel) given;
              initrd = rw (← eq_initrd) (sym alike ∙ given);
              origin = of_config given (sym eq_kernel) (sym eq_initrd);
            }
        | inl missing ↦
            target_checksums-ArePins p target url offline checksums missing
              (if-false (not (is_empty kernel)) _ _ (rw missing refl) h1)
      ]

  ArePins-same :
      (p : FedoraProvider) (target : Target) (url : String) (offline : Bool)
      (checksums : TreeinfoChecksums) (kernel initrd : String)
      → checksums.kernel_sha256 ≡ kernel
      → checksums.initrd_sha256 ≡ initrd
      → ArePins p target url offline checksums
      → ArePins p target url offline (record { kernel_sha256 = kernel; initrd_sha256 = initrd })
  ArePins-same p target url offline checksums kernel initrd k i pins = rw (← k, ← i) pins

  -- What is known of the pins of a plan.
  pub record IsPinned (p : FedoraProvider) (input : PlanInput) (result : BootPlan) : Type 0 where
    pub selected : Target
    pub chosen : selected_target world p input.target ≡ ok selected
    pub pins :
        ArePins p selected
          (target_base_url p selected)
          input.offline
          (record { kernel_sha256 = result.kernel.sha256; initrd_sha256 = result.initrd.sha256 })

  -- Every Fedora plan has a digest for the kernel and one for the initrd, which are those of the
  -- provider's configuration; where that has none, those of the target, in lower case; and where
  -- that has none either, and the plan is not made offline, those of a `.treeinfo` file that was
  -- downloaded over HTTPS from the release and parses.
  pub plan-IsPinned :
      (p : FedoraProvider) (input : PlanInput) (result : BootPlan)
      → plan world p input ≡ ok result
      → IsPinned p input result
  unfolding plan base_plan
  plan-IsPinned p input result h =
      let (selected, chosen, h1) = >>=-eq-ok (selected_target world p input.target) _ h in
      let (_, _, h2) =
        >>-eq-ok
          (refuse_if (not (selected.catalog.architecture == "amd64")) unsupported_architecture) _
          h1 in
      let url = target_base_url p selected in
      let (checksums, pinned, h3) =
        >>=-eq-ok (artifact_checksums world p selected url input.offline) _ h2 in
      let (kernel, initrd) =
        apply_options-artifacts (base_plan world selected url checksums) result input.options h3 in
      let kernel_pin : checksums.kernel_sha256 ≡ result.kernel.sha256 = ap (λ a. a.sha256) kernel in
      let initrd_pin : checksums.initrd_sha256 ≡ result.initrd.sha256 = ap (λ a. a.sha256) initrd in
      record {
        selected = selected;
        chosen = chosen;
        pins =
            ArePins-same p selected url input.offline checksums _ _ kernel_pin initrd_pin
              (artifact_checksums-ArePins p selected url input.offline checksums pinned);
      }
