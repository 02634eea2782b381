-- ===== src/Providers/Fedora/Treeinfo.antt =====
-- internal/providers/fedora/treeinfo.go: the checksums of a `.treeinfo` file. The scanner's limit
-- on a line is that of bufio.MaxScanTokenSize.
pub mod Laws
use bootup.Verify.{Bytes, Checksums}
use bootup.Providers.{ProviderError, metadata_malformed, metadata_missing}
use bootup.Providers.Staging.{World}
use bootup.Common.{
  Bool, List, Result, String, [], eqb, err, if◌then◌else◌, leb, length, lookup, none, not, ok,
  refuse_if, some, ℕ, ◌&&◌, ◌==◌, ◌>>=◌, ◌>>◌, ◌||◌, ◌∷◌,
}
use bootup.Text.{
  byte_len, cut, decode_hex, drop, has_prefix, has_suffix, is_empty, split, to_lower, trim_space,
  trim_suffix,
}

abbrev pub kernel_treeinfo_path : String
kernel_treeinfo_path = "images/pxeboot/vmlinuz"

abbrev pub initrd_treeinfo_path : String
initrd_treeinfo_path = "images/pxeboot/initrd.img"

pub record TreeinfoChecksums : Type 0 where
  pub kernel_sha256 : String
  pub initrd_sha256 : String

abbrev pub max_token_size : ℕ
max_token_size = 65536

-- `[name]`
abbrev is_section_line : String → Bool
is_section_line line = has_prefix line "[" && has_suffix line "]"

module _ {Keyring : Type 0} (world : World Keyring) where
  -- the name in a section line
  unfoldable pub section_of : String → String
  unfolding trim_space trim_suffix to_lower
  section_of line = to_lower world.crypto.lower_wide (trim_space (trim_suffix (drop 1 line) "]"))

  -- `parseTreeinfoSHA256`
  unfoldable pub parse_treeinfo_sha256 : String → String → Result ProviderError String
  unfolding cut trim_space to_lower decode_hex
  parse_treeinfo_sha256 path value = elim (cut b':' (trim_space value)) [
    | none ↦ err (metadata_malformed path)
    | some (algorithm, digest) ↦ do
      refuse_if (not (world.equal_fold (trim_space algorithm) "sha256")) (metadata_malformed path)
      let lower = to_lower world.crypto.lower_wide (trim_space digest)
      elim (decode_hex lower) [
        | none ↦ err (metadata_malformed path)
        | some decoded ↦ do
          refuse_if (not (eqb (length decoded) 32)) (metadata_malformed path)
          ok lower
      ]
  ]

  -- a line of the section, added to the checksums
  unfoldable pub add_checksum : String → Checksums → Result ProviderError Checksums
  unfolding cut trim_space parse_treeinfo_sha256
  add_checksum line checksums = elim (cut b'=' line) [
    | none ↦ err (metadata_malformed line)
    | some (key, value) ↦
        let path = trim_space key in
        if not (path == kernel_treeinfo_path) && not (path == initrd_treeinfo_path)
        then ok checksums
        else (do digest ← parse_treeinfo_sha256 path value; ok ((path, digest) ∷ checksums))
  ]

  -- the loop of `parseTreeinfoChecksums`, in a section
  unfoldable pub parse_treeinfo_from :
      String → Checksums → List String → Result ProviderError Checksums
  unfolding byte_len trim_space has_prefix has_suffix section_of add_checksum
  parse_treeinfo_from section checksums [] = ok checksums
  parse_treeinfo_from section checksums (raw ∷ lines) =
      let line = trim_space raw in
      let skip = parse_treeinfo_from section checksums lines in
      let enter = parse_treeinfo_from (section_of line) checksums lines in
      if leb max_token_size (byte_len raw)
      then err (metadata_malformed raw)
      else if is_empty line || has_prefix line "#" || has_prefix line ";"
      then skip
      else if is_section_line line
      then enter
      else if not (section == "checksums")
      then skip
      else (do checksums ← add_checksum line checksums; parse_treeinfo_from section checksums lines)

  -- a checksum that must be there
  unfoldable pub require_checksum : String → Checksums → Result ProviderError String
  require_checksum path checksums = elim (lookup path checksums) [
    | none ↦ err (metadata_missing path)
    | some digest ↦ ok digest
  ]

  -- `parseTreeinfoChecksums`
  unfoldable pub parse_treeinfo_checksums : Bytes → Result ProviderError TreeinfoChecksums
  unfolding parse_treeinfo_from split require_checksum
  parse_treeinfo_checksums message = do
    checksums ← parse_treeinfo_from "" [] (split 10 (world.crypto.to_text message))
    kernel ← require_checksum kernel_treeinfo_path checksums
    initrd ← require_checksum initrd_treeinfo_path checksums
    ok (record { kernel_sha256 = kernel; initrd_sha256 = initrd })
