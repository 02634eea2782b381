-- ===== src/Verify/Examples.antt =====
-- Inputs on which the theorems about artifacts are used, and tests of the definitions.
use bootup.Common.{
  Char, Option, String, [], arith, code, err, false, none, ok, refl, some, suc, true, zero, ℕ, ◌↔◌,
  ◌∷◌, ◌≡◌, ◌≤◌,
}
use bootup.Text.{decode_hex, hex_value}
use bootup.Verify.{
  ArtifactInput, Bytes, Checksums, Crypto, Reader, check_sha256, no_material, parse_sha256_sums,
  verify_artifact,
}
use bootup.Verify.Digests.{IsLawful, check_sha256_iff}
use bootup.Verify.Artifacts.{IsVerified, verify_artifact-IsVerified}

abbrev zeros : ℕ → Bytes
zeros zero = []
zeros (suc n) = 0 ∷ zeros n

abbrev digest : String
digest = "0000000000000000000000000000000000000000000000000000000000000000"

abbrev sums_text : String
sums_text = "# sums\n0000000000000000000000000000000000000000000000000000000000000000 *./linux\n"

-- One key signs everything, and every message hashes to zeros.
abbrev crypto : Crypto (Unit {0})
crypto = record {
  sha256 = λ _. zeros 32;
  to_text = λ _. sums_text;
  lower_wide = λ c. c;
  read_armored = λ _. none;
  read_binary = λ _. some tt;
  check_armored = λ _ _ _. false;
  check_binary = λ _ _ _. true;
  decode_clearsigned = λ _. none;
}

wide_none : (c : Char) → 128 ≤ code c → hex_value (code c) ≡ none
unfolding hex_value
wide_none c h = ground arith

crypto-IsLawful : IsLawful crypto
crypto-IsLawful = record {
  hash_length = λ _. refl;
  hash_bytes = λ _. omega arith;
  lower_digit = wide_none;
}

abbrev message : Bytes
message = 1 ∷ 2 ∷ []

abbrev sums_file : Option Reader
sums_file = some (some (35 ∷ []))

abbrev entries : Checksums
entries = ("linux", digest) ∷ []

sums_parse : parse_sha256_sums crypto sums_file ≡ ok entries
unfolding parse_sha256_sums
sums_parse = refl

abbrev full_input : ArtifactInput
full_input = record {
  artifact = some (some message);
  name = "linux";
  expected_sha256 = digest;
  sha256_sums = sums_file;
  signature = some (some (7 ∷ []));
  keyring = some (some (8 ∷ []));
}

full_input_passes : verify_artifact crypto full_input ≡ ok tt
unfolding verify_artifact
full_input_passes = refl

no_material_fails :
    verify_artifact crypto
      (record full_input { expected_sha256 = ""; sha256_sums = none; signature = none })
    ≡ err no_material
unfolding verify_artifact
no_material_fails = refl

check_sha256_iff_example :
    (check_sha256 crypto (some (some message)) digest ≡ ok tt)
    ↔ (decode_hex digest ≡ some (crypto.sha256 message))
check_sha256_iff_example = check_sha256_iff crypto crypto-IsLawful message digest

verify_artifact-IsVerified_example : (read : Bytes) × IsVerified crypto full_input read
verify_artifact-IsVerified_example =
    verify_artifact-IsVerified crypto crypto-IsLawful full_input full_input_passes
