-- ===== src/Providers/Ubuntu/Examples.antt =====
-- Inputs on which the theorem about the staging of Ubuntu is used, and tests.
use bootup.Provider.{BootPlan}
use bootup.Providers.{base_source}
use bootup.Providers.Examples.{boot_plan, both_staged, crypto-IsLawful, empty_disk, target, world}
use bootup.Providers.Ubuntu.Discovery.{iso_release}
use bootup.Providers.Ubuntu.Staging.{fetch_and_stage_artifacts}
use bootup.Providers.Ubuntu.Staging.Laws.{IsStaged, fetch_and_stage_artifacts-IsStaged_list}
use bootup.Common.{[], false, none, ok, refl, some, ◌==◌, ◌∷◌, ◌≡◌}
use bootup.Text.{clean, join_path}

point_release : iso_release "ubuntu-24.04.1-live-server-amd64.iso" ≡ some "24.04.1"
unfolding iso_release
point_release = refl

other_image : iso_release "ubuntu-24.04-desktop-amd64.iso" ≡ none
unfolding iso_release
other_image = refl

abbrev ubuntu_plan : BootPlan
ubuntu_plan = record boot_plan {
  target = record target { source = record (base_source "https://m") { iso_name = "u.iso" } };
}

abbrev ubuntu_staged : BootPlan
ubuntu_staged = record ubuntu_plan { kernel = both_staged.kernel; initrd = both_staged.initrd }

list_stages :
    (fetch_and_stage_artifacts world "stage" (some (1 ∷ [])) ubuntu_plan empty_disk).0
    ≡ ok ubuntu_staged
unfolding fetch_and_stage_artifacts clean
list_stages = refl

apart : (join_path "stage" "initrd.gz" == join_path "stage" "linux") ≡ false
unfolding clean
apart = refl

fetch_and_stage_artifacts-IsStaged_list_example :
    IsStaged world crypto-IsLawful "stage"
      (some (1 ∷ []))
      ubuntu_plan
      ubuntu_staged
      (fetch_and_stage_artifacts world "stage" (some (1 ∷ [])) ubuntu_plan empty_disk).1
fetch_and_stage_artifacts-IsStaged_list_example =
    fetch_and_stage_artifacts-IsStaged_list world crypto-IsLawful "stage" (some (1 ∷ []))
      ubuntu_plan ubuntu_staged empty_disk apart list_stages
