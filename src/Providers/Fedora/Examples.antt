-- ===== src/Providers/Fedora/Examples.antt =====
-- Inputs on which the theorems about the Fedora provider are used, and tests.
use bootup.Provider.Fragments.{apply_selected_options}
use bootup.Provider.{Artifact, BootPlan, PlanInput}
use bootup.Providers.{linux_plan, no_verification}
use bootup.Providers.Staging.Laws.{Touched}
use bootup.Providers.Examples.{
  boot_plan, both_staged, crypto-IsLawful, digest, empty_disk, target, world,
}
use bootup.Providers.Fedora.{FedoraProvider, fetch_and_stage_artifacts, plan}
use bootup.Providers.Fedora.Laws.{
  IsFromPlan, IsStaged, fetch_and_stage_artifacts-IsStaged_pair, fetch_and_stage_artifacts-kept,
}
use bootup.Providers.Fedora.Pins.{IsPinned, plan-IsPinned}
use bootup.Providers.Fedora.Discovery.{discover_targets, discovered_target}
use bootup.Common.{String, [], false, none, ok, refl, ◌==◌, ◌∷◌, ◌≡◌}
use bootup.Text.{clean, join_path}

abbrev provider : FedoraProvider
provider = record {
  release_url = "https://m";
  discovery_url = "https://m";
  discovery_file = "";
  kernel_sha256 = "";
  initrd_sha256 = "";
  targets = target ∷ [];
  lifecycle = [];
  release_url_configured = false;
}

abbrev input : PlanInput
input = record { target = target; options = []; secrets = none; secret_refs = []; offline = false }

abbrev pinned : String → String → Artifact
pinned name url = record { name = name; url = url; sha256 = digest; path = "" }

abbrev planned : BootPlan
planned =
    linux_plan target "" (pinned "vmlinuz" "https://m/images/pxeboot/vmlinuz")
      (pinned "initrd.img" "https://m/images/pxeboot/initrd.img")
      "inst.repo=https://m ip=dhcp console=ttyS0" no_verification

plan_made : plan world provider input ≡ ok planned
unfolding plan apply_selected_options
plan_made = refl

discovered :
    discover_targets world provider
    ≡ ok (
        discovered_target provider "https://m/" "43"
        ∷ discovered_target provider "https://m/" "44"
        ∷ [])
unfolding discover_targets
discovered = refl

plan-IsPinned_example : IsPinned world crypto-IsLawful provider input planned
plan-IsPinned_example = plan-IsPinned world crypto-IsLawful provider input planned plan_made

staged : (fetch_and_stage_artifacts world "stage" boot_plan empty_disk).0 ≡ ok both_staged
unfolding fetch_and_stage_artifacts clean
staged = refl

apart : (join_path "stage" "initrd.gz" == join_path "stage" "linux") ≡ false
unfolding clean
apart = refl

fetch_and_stage_artifacts-kept_example :
    Touched world.writer
      (IsFromPlan world crypto-IsLawful "stage" boot_plan)
      empty_disk
      (fetch_and_stage_artifacts world "stage" boot_plan empty_disk).1
fetch_and_stage_artifacts-kept_example =
    fetch_and_stage_artifacts-kept world crypto-IsLawful "stage" boot_plan empty_disk

fetch_and_stage_artifacts-IsStaged_pair_example :
    IsStaged world crypto-IsLawful "stage" boot_plan both_staged
      (fetch_and_stage_artifacts world "stage" boot_plan empty_disk).1
fetch_and_stage_artifacts-IsStaged_pair_example =
    fetch_and_stage_artifacts-IsStaged_pair world crypto-IsLawful "stage" boot_plan both_staged
      empty_disk apart staged
