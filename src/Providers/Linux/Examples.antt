-- ===== src/Providers/Linux/Examples.antt =====
-- Inputs on which the theorems about the Linux provider are used.
use bootup.Provider.{BootPlan}
use bootup.Providers.{with_path}
use bootup.Providers.Staging.Laws.{Touched}
use bootup.Providers.Examples.{artifact, boot_plan, crypto-IsLawful, empty_disk, world}
use bootup.Providers.Linux.{fetch_and_stage_artifacts}
use bootup.Providers.Linux.Laws.{
  IsFromPlan, IsStaged, fetch_and_stage_artifacts-IsStaged, fetch_and_stage_artifacts-Touched,
}
use bootup.Common.{ok, refl, ◌≡◌}
use bootup.Text.{clean}

abbrev unnamed_plan : BootPlan
unnamed_plan = record boot_plan { initrd = artifact "" "" }

abbrev unnamed_staged : BootPlan
unnamed_staged = record unnamed_plan {
  kernel = with_path "stage/linux" (boot_plan.kernel);
  initrd = with_path "stage/a" (artifact "" "");
}

staged : (fetch_and_stage_artifacts world "stage" unnamed_plan empty_disk).0 ≡ ok unnamed_staged
unfolding fetch_and_stage_artifacts clean
staged = refl

fetch_and_stage_artifacts-Touched_example :
    Touched world.writer
      (IsFromPlan world crypto-IsLawful "stage" unnamed_plan)
      empty_disk
      (fetch_and_stage_artifacts world "stage" unnamed_plan empty_disk).1
fetch_and_stage_artifacts-Touched_example =
    fetch_and_stage_artifacts-Touched world crypto-IsLawful "stage" unnamed_plan empty_disk

fetch_and_stage_artifacts-IsStaged_example :
    IsStaged world crypto-IsLawful "stage" unnamed_plan unnamed_staged
      (fetch_and_stage_artifacts world "stage" unnamed_plan empty_disk).1
fetch_and_stage_artifacts-IsStaged_example =
    fetch_and_stage_artifacts-IsStaged world crypto-IsLawful "stage" unnamed_plan unnamed_staged
      empty_disk staged
