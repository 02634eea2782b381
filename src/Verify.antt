-- ===== src/Verify.antt =====
-- verify/verify.go: the checks of downloaded artifacts.
-- A reader is what `io.ReadAll` makes of it: its bytes, or `none` for a read error; a nil reader is
-- `none` around it. SHA-256, OpenPGP, UTF-8 and Unicode's lower case beyond ASCII are arguments.
mod Examples
pub mod Digests
pub mod Artifacts
pub mod Sums
use bootup.Common.{
  Bool, Char, List, Option, Result, String, [], eqb, err, if◌then◌else◌, is_none, keys, lookup,
  none, not, ok, refuse_if, some, suc, ℕ, ◌&&◌, ◌+◌, ◌==◌, ◌>>=◌, ◌>>◌, ◌||◌, ◌∷◌,
}
use bootup.Text.{
  byte_len, decode_hex, encode_hex, fields, has_prefix, is_empty, split, to_lower, trim_prefix,
  trim_space,
}

abbrev pub Bytes : Type 0
Bytes = List ℕ

abbrev pub Reader : Type 0
Reader = Option Bytes

pub data LineProblem : Type 0 where
  too_few_fields bad_length bad_hex : LineProblem

pub data VerifyError : Type 0 where
  artifact_required signature_required keyring_required sums_required sha256_required : VerifyError
  signature_needs_keyring no_material : VerifyError
  read_failed sha256_mismatch bad_keyring bad_signature bad_clearsigned : VerifyError
  checksum_not_found open_failed : String → VerifyError
  bad_sums_line : ℕ → LineProblem → VerifyError

-- A decoded clearsigned message.
pub record ClearBlock (Keyring : Type 0) : Type 0 where
  pub plaintext : Bytes
  pub signed_by : Keyring → Bool

-- What the program calls outside the repository.
pub record Crypto (Keyring : Type 0) : Type 0 where
  pub sha256 : Bytes → Bytes
  pub to_text : Bytes → String
  pub lower_wide : Char → Char
  pub read_armored : Bytes → Option Keyring
  pub read_binary : Bytes → Option Keyring
  pub check_armored : Keyring → Bytes → Bytes → Bool
  pub check_binary : Keyring → Bytes → Bytes → Bool
  pub decode_clearsigned : Bytes → Option (ClearBlock Keyring)

pub record ArtifactInput : Type 0 where
  pub artifact : Option Reader
  pub name : String
  pub expected_sha256 : String
  pub sha256_sums : Option Reader
  pub signature : Option Reader
  pub keyring : Option Reader

-- A map from file names to digests.
abbrev pub Checksums : Type 0
Checksums = List (String × String)

-- a nil reader is one error, a failing one another
abbrev pub read_all : VerifyError → Option Reader → Result VerifyError Bytes
read_all missing none = err missing
read_all missing (some none) = err read_failed
read_all missing (some (some bytes)) = ok bytes

module _ {Keyring : Type 0} (crypto : Crypto Keyring) where
  -- `SHA256`
  unfoldable pub check_sha256 : Option Reader → String → Result VerifyError (Unit {0})
  unfolding encode_hex to_lower
  check_sha256 none expected = err artifact_required
  check_sha256 (some reader) expected = do
    refuse_if (is_empty expected) sha256_required
    bytes ← read_all artifact_required (some reader)
    refuse_if (not (encode_hex (crypto.sha256 bytes) == to_lower crypto.lower_wide expected))
        sha256_mismatch

  -- one line that is no comment, as its file name and digest
  unfoldable pub parse_sums_fields : ℕ → List String → Result VerifyError (String × String)
  unfolding to_lower byte_len decode_hex trim_prefix
  parse_sums_fields number [] = err (bad_sums_line number too_few_fields)
  parse_sums_fields number (sum ∷ []) = err (bad_sums_line number too_few_fields)
  parse_sums_fields number (sum ∷ path ∷ more) = do
    let digest = to_lower crypto.lower_wide sum
    refuse_if (not (eqb (byte_len digest) 64)) (bad_sums_line number bad_length)
    refuse_if (is_none (decode_hex digest)) (bad_sums_line number bad_hex)
    ok (trim_prefix (trim_prefix path "*") "./", digest)

  -- the loop of `ParseSHA256Sums`; a later entry of a name replaces an earlier one
  unfoldable pub parse_sums_from : ℕ → Checksums → List String → Result VerifyError Checksums
  unfolding parse_sums_fields fields trim_space has_prefix
  parse_sums_from number sums [] = ok sums
  parse_sums_from number sums (raw ∷ lines) =
      let line = trim_space raw in
      let skip = parse_sums_from (suc number) sums lines in
      if is_empty line || has_prefix line "#" then skip else do
        entry ← parse_sums_fields number (fields line)
        parse_sums_from (suc number) (entry ∷ sums) lines

  -- `ParseSHA256Sums`
  unfoldable pub parse_sha256_sums : Option Reader → Result VerifyError Checksums
  unfolding parse_sums_from split
  parse_sha256_sums reader = do
    bytes ← read_all sums_required reader
    parse_sums_from 1 [] (split 10 (crypto.to_text bytes))

  -- `SHA256Sums`
  unfoldable pub check_sha256_sums :
      Option Reader → Option Reader → String → Result VerifyError (Unit {0})
  unfolding parse_sha256_sums check_sha256
  check_sha256_sums artifact sums name = do
    checksums ← parse_sha256_sums sums
    elim (lookup name checksums) [
      | none ↦ err (checksum_not_found name)
      | some want ↦ check_sha256 artifact want
    ]

  -- `ReadKeyring`
  unfoldable pub read_keyring : Option Reader → Result VerifyError Keyring
  read_keyring reader = do
    bytes ← read_all keyring_required reader
    elim (crypto.read_armored bytes) [
      | some keyring ↦ ok keyring
      | none ↦ elim (crypto.read_binary bytes) [
        | some keyring ↦ ok keyring
        | none ↦ err bad_keyring
      ]
    ]

  -- `ArmoredDetachedSignature`
  unfoldable pub check_signature :
      Option Reader → Option Reader → Option Reader → Result VerifyError (Unit {0})
  unfolding read_keyring
  check_signature none signature keyring = err artifact_required
  check_signature (some artifact) none keyring = err signature_required
  check_signature (some artifact) (some signature) keyring = do
    keys ← read_keyring keyring
    bytes ← read_all artifact_required (some artifact)
    signed ← read_all signature_required (some signature)
    refuse_if
        (not (crypto.check_armored keys bytes signed)
          && not (crypto.check_binary keys bytes signed))
        bad_signature

  -- `ClearSigned`
  unfoldable pub check_clearsigned : Bytes → Option Reader → Result VerifyError Bytes
  unfolding read_keyring
  check_clearsigned message keyring = do
    keys ← read_keyring keyring
    elim (crypto.decode_clearsigned message) [
      | none ↦ err bad_clearsigned
      | some block ↦ if block.signed_by keys then ok block.plaintext else err bad_signature
    ]

  -- the three optional checks of `Artifact` over the bytes that were read
  unfoldable pub check_expected : ArtifactInput → Bytes → Result VerifyError ℕ
  unfolding check_sha256
  check_expected input bytes =
      if is_empty input.expected_sha256
      then ok 0
      else (do check_sha256 (some (some bytes)) input.expected_sha256; ok 1)

  unfoldable pub check_sums : ArtifactInput → Bytes → Result VerifyError ℕ
  unfolding check_sha256_sums
  check_sums input bytes = elim input.sha256_sums [
    | none ↦ ok 0
    | some sums ↦ do check_sha256_sums (some (some bytes)) (some sums) input.name; ok 1
  ]

  unfoldable pub check_detached : ArtifactInput → Bytes → Result VerifyError ℕ
  unfolding check_signature
  check_detached input bytes = elim input.signature [
    | none ↦ ok 0
    | some signature ↦ do
      refuse_if (is_none input.keyring) signature_needs_keyring
      check_signature (some (some bytes)) (some signature) input.keyring
      ok 1
  ]

  -- `Artifact`
  unfoldable pub verify_artifact : ArtifactInput → Result VerifyError (Unit {0})
  unfolding check_expected check_sums check_detached
  verify_artifact input = do
    bytes ← read_all artifact_required input.artifact
    by_digest ← check_expected input bytes
    by_sums ← check_sums input bytes
    by_signature ← check_detached input bytes
    refuse_if (eqb (by_digest + by_sums + by_signature) 0) no_material

  -- the argument `open_file` is os.Open followed by reads; `none` is its error
  module _ (open_file : String → Option Reader) where
    -- `SHA256File`
    unfoldable pub check_sha256_file : String → String → Result VerifyError (Unit {0})
    unfolding check_sha256
    check_sha256_file path expected = elim (open_file path) [
      | none ↦ err (open_failed path)
      | some file ↦ check_sha256 (some file) expected
    ]

    -- `ArmoredDetachedSignatureFile`
    unfoldable pub check_signature_file : String → String → String → Result VerifyError (Unit {0})
    unfolding check_signature
    check_signature_file artifact_path signature_path keyring_path = elim (open_file keyring_path) [
      | none ↦ err (open_failed keyring_path)
      | some keyring ↦ elim (open_file artifact_path) [
        | none ↦ err (open_failed artifact_path)
        | some artifact ↦ elim (open_file signature_path) [
          | none ↦ err (open_failed signature_path)
          | some signature ↦ check_signature (some artifact) (some signature) (some keyring)
        ]
      ]
    ]
