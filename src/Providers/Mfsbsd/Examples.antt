-- ===== src/Providers/Mfsbsd/Examples.antt =====
-- Inputs on which the theorem about the staging of mfsBSD is used.

use bootup.Provider.{BootPlan, freebsd_kboot}
use bootup.Providers.{Step, no_kboot}
use bootup.Providers.Examples.{artifact, boot_plan, digest, world}
use bootup.Providers.Mfsbsd.Files.{KbootFiles, Member}
use bootup.Providers.Mfsbsd.Staging.{staged_plan}
use bootup.Policy.Loading.{CacheWrite, put}
use bootup.Common.{Option, String, [], false, ok, some, true, ◌∷◌}
use bootup.Text.{join_path}

abbrev all_ok : CacheWrite
all_ok = record {
  temp_path = "tmp";
  mkdir_ok = true;
  made = λ _. true;
  create_ok = true;
  write_ok = true;
  chmod_ok = true;
  close_ok = true;
  rename_ok = true;
}

abbrev regular_member : String → Option Member
regular_member name = some (record { name = name; regular = true; content = some [] })

abbrev unpacked : String → String → Step (Unit {0})
unpacked _ root disk = (
  ok tt,
  put (join_path root "boot/kernel/kernel") (some (some []))
      (put (join_path root "mfsroot") (some (some [])) disk),
)

abbrev files : KbootFiles
files = record {
  temporary_directory = λ _ prefix. some prefix;
  stat_refuses = λ _. false;
  replacement = λ _. all_ok;
  gunzip = λ bytes. some (some bytes);
  members = λ _.
      some (regular_member "boot/loader.kboot" ∷ regular_member "./boot/loader.help.kboot" ∷ []);
  extract = unpacked;
}

abbrev kboot_plan : BootPlan
kboot_plan = record boot_plan {
  action = freebsd_kboot;
  freebsd_kboot = record no_kboot {
    payload = artifact "m.iso" digest;
    loader_archive = artifact "base.txz" digest;
    args = "quiet" ∷ [];
  };
}

abbrev kboot_staged : BootPlan
kboot_staged =
    staged_plan world files kboot_plan "stage/m.iso" "stage/base.txz" "mfsbsd-root-"
      ("freebsd-kboot-/loader.kboot", "freebsd-kboot-/loader.help.kboot")
