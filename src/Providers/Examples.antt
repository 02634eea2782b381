-- ===== src/Providers/Examples.antt =====
-- Inputs on which the theorems about the providers are used, and tests of the definitions.
use bootup.Verify.{Bytes, Crypto}
use bootup.Verify.Digests.{IsLawful}
use bootup.Provider.{Artifact, BootPlan, Target}
use bootup.Http.{Http, absent}
use bootup.Providers.{base_source, linux_plan, with_path}
use bootup.Providers.Staging.{World}
use bootup.Policy.Loading.{Disk}
use bootup.Providers.Fedora.Treeinfo.{TreeinfoChecksums, parse_treeinfo_checksums}
use bootup.Common.{
  Char, String, [], arith, code, eqb, false, if◌then◌else◌, none, ok, refl, some, suc, true, zero,
  ℕ, ◌==◌, ◌∷◌, ◌≡◌, ◌≤◌,
}
use bootup.Text.{hex_value}

abbrev zeros : ℕ → Bytes
zeros zero = []
zeros (suc n) = 0 ∷ zeros n

abbrev pub digest : String
digest = "0000000000000000000000000000000000000000000000000000000000000000"

abbrev release_text : String
release_text =
    "Suite: trixie\nSHA256:\n 0000000000000000000000000000000000000000000000000000000000000000 9 SUMS\n"

abbrev sums_text : String
sums_text =
    "0000000000000000000000000000000000000000000000000000000000000000 netboot/debian-installer/amd64/linux\n0000000000000000000000000000000000000000000000000000000000000000 netboot/debian-installer/amd64/initrd.gz\n0000000000000000000000000000000000000000000000000000000000000000 *u.iso\n"

abbrev treeinfo_text : String
treeinfo_text =
    "[checksums]\nimages/pxeboot/vmlinuz = sha256:0000000000000000000000000000000000000000000000000000000000000000\nimages/pxeboot/initrd.img = sha256:0000000000000000000000000000000000000000000000000000000000000000\n"

abbrev text_of : Bytes → String
text_of [] = ""
text_of (n ∷ _) =
    if eqb n 1
    then release_text
    else if eqb n 2
    then sums_text
    else if eqb n 3
    then treeinfo_text
    else ""

abbrev body_of : String → Bytes
body_of url =
    if url == "https://m/InRelease"
    then 9 ∷ []
    else if url == "https://m/SUMS"
    then 2 ∷ []
    else if url == "https://m/.treeinfo"
    then 3 ∷ []
    else 7 ∷ []

-- One key signs everything, and every message hashes to zeros.
abbrev crypto : Crypto (Unit {0})
crypto = record {
  sha256 = λ _. zeros 32;
  to_text = text_of;
  lower_wide = λ c. c;
  read_armored = λ _. none;
  read_binary = λ _. some tt;
  check_armored = λ _ _ _. false;
  check_binary = λ _ _ _. true;
  decode_clearsigned = λ _. some (record { plaintext = 1 ∷ []; signed_by = λ _. true });
}

wide_none : (c : Char) → 128 ≤ code c → hex_value (code c) ≡ none
unfolding hex_value
wide_none c h = ground arith

pub crypto-IsLawful : IsLawful crypto
crypto-IsLawful = record {
  hash_length = λ _. refl;
  hash_bytes = λ _. omega arith;
  lower_digit = wide_none;
}

-- Every URL is there over HTTPS, under the path of a Debian release.
abbrev pub http : Http
http = record {
  parse_url = λ _. some (record { scheme = "https"; host = "m"; path = "/dists/trixie/SUMS" });
  path_unescape = λ s. some s;
  file_url = λ s. s;
  request = λ _ url. some (ok (record { status = 200; body = ok (body_of url) }));
  stat = λ _. absent;
  read_file = λ _. absent;
}

abbrev pub world : World (Unit {0})
world = record {
  http = http;
  writer = record { write_ok = λ _ _. true; torn = λ _ _. none };
  crypto = crypto;
  progress = none;
  hrefs = λ _. "43/" ∷ "44/" ∷ "../" ∷ [];
  equal_fold = λ a b. a == b;
}

abbrev pub empty_disk : Disk
empty_disk _ = none

abbrev pub target : Target
target = record {
  id = "t";
  provider_id = "linux";
  name = "T";
  action = "";
  catalog = record {
    distribution = "d";
    release = "trixie";
    architecture = "amd64";
    kind = "installer";
  };
  source = base_source "https://m";
  lifecycle = record { status = ""; origin = ""; date = "" };
  options = [];
  secrets = [];
}

abbrev pub artifact : String → String → Artifact
artifact name sha256 = record { name = name; url = "https://m/a"; sha256 = sha256; path = "" }

abbrev pub boot_plan : BootPlan
boot_plan =
    linux_plan target "" (artifact "linux" digest) (artifact "initrd.gz" digest) "quiet" (record {
      metadata_url = "https://m/InRelease";
      checksum_url = "https://m/SUMS";
      signature_url = "";
    })

abbrev pub both_staged : BootPlan
both_staged = record boot_plan {
  kernel = with_path "stage/linux" (boot_plan.kernel);
  initrd = with_path "stage/initrd.gz" (boot_plan.initrd);
}

abbrev treeinfo : TreeinfoChecksums
treeinfo = record { kernel_sha256 = digest; initrd_sha256 = digest }

treeinfo_parses : parse_treeinfo_checksums world (3 ∷ []) ≡ ok treeinfo
unfolding parse_treeinfo_checksums
treeinfo_parses = refl
