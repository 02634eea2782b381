-- ===== src/Providers/Debian/Examples.antt =====
-- Inputs on which the theorems about the Debian provider are used, and tests.

use bootup.Providers.Staging.Laws.{Touched}
use bootup.Providers.Examples.{boot_plan, both_staged, crypto-IsLawful, empty_disk, target, world}
use bootup.Providers.Debian.{DebianProvider}
use bootup.Providers.Debian.Staging.{stage_plan}
use bootup.Providers.Debian.Staging.Chain.{
  IsChained, IsStaged, stage_plan-IsStaged, stage_plan-Touched,
}
use bootup.Common.{[], false, ok, refl, ◌==◌, ◌∷◌, ◌≡◌}
use bootup.Text.{clean, join_path}

abbrev provider : DebianProvider
provider = record {
  mirror_url = "https://m";
  discovery_url = "https://m";
  discovery_file = "";
  keyring = 1 ∷ [];
  targets = target ∷ [];
  lifecycle = [];
}

staged : (stage_plan world provider "stage" boot_plan empty_disk).0 ≡ ok both_staged
unfolding stage_plan clean
staged = refl

apart : (join_path "stage" "initrd.gz" == join_path "stage" "linux") ≡ false
unfolding clean
apart = refl

stage_plan-Touched_example :
    Touched world.writer
      (IsChained world crypto-IsLawful "stage" (1 ∷ []) boot_plan)
      empty_disk
      (stage_plan world provider "stage" boot_plan empty_disk).1
stage_plan-Touched_example =
    stage_plan-Touched world crypto-IsLawful provider "stage" boot_plan empty_disk

stage_plan-IsStaged_example :
    (false ≡ false)
    × IsStaged world crypto-IsLawful "stage"
        (1 ∷ [])
        boot_plan
        both_staged
        (stage_plan world provider "stage" boot_plan empty_disk).1
stage_plan-IsStaged_example =
    stage_plan-IsStaged world crypto-IsLawful provider "stage" boot_plan both_staged empty_disk
      apart staged
