-- ===== src/Provider/Source.antt =====
-- The checks of a target's source metadata: `validateSourceEntry` and what it calls.
-- `url.Parse` is the argument `parse_url`; `none` is its error.
pub mod Laws
use bootup.Common.{
  Option, Result, String, differ, eqb, err, if◌then◌else◌, length, none, not, ok, refuse_if, some,
  ◌&&◌, ◌==◌, ◌>>=◌, ◌>>◌, ◌||◌,
}
use bootup.Text.{base_name, clean, decode_hex, has_margin, has_prefix, has_rune, is_empty}
use bootup.Provider.{
  SourceEntry, TargetProblem, base_url_host, base_url_invalid, base_url_scheme, base_url_spaces,
  cmdline_spaces, iso_name_not_file, iso_name_spaces, iso_sha256_spaces, path_invalid,
  path_not_clean, path_not_relative, path_spaces, pin_needs_path, pin_not_sha256, pin_spaces,
  pins_not_together,
}

pub record Url : Type 0 where
  pub scheme : String
  pub host : String
  pub path : String

abbrev pub UrlParser : Type 0
UrlParser = String → Option Url

unfoldable pub validate_source_sha256 : String → String → Result TargetProblem (Unit {0})
validate_source_sha256 name value = elim (decode_hex value) [
  | none ↦ err (pin_not_sha256 name)
  | some decoded ↦ refuse_if (not (eqb (length decoded) 32)) (pin_not_sha256 name)
]

-- the two blocks of `validateSourceHashPins` on a pin that is not empty
unfoldable pub validate_pin : String → String → String → Result TargetProblem (Unit {0})
unfolding validate_source_sha256
validate_pin name path pin =
    if is_empty pin
    then ok tt
    else (do refuse_if (is_empty path) (pin_needs_path name); validate_source_sha256 name pin)

unfoldable pub validate_source_hash_pins : SourceEntry → Result TargetProblem (Unit {0})
unfolding validate_pin
validate_source_hash_pins source = do
  refuse_if (has_margin source.kernel_sha256) (pin_spaces "kernel")
  refuse_if (has_margin source.initrd_sha256) (pin_spaces "initrd")
  validate_pin "kernel" source.kernel_path source.kernel_sha256
  validate_pin "initrd" source.initrd_path source.initrd_sha256
  refuse_if
      (not (is_empty source.initrd_path)
        && differ (is_empty source.kernel_sha256) (is_empty source.initrd_sha256))
      pins_not_together

unfoldable pub validate_source_path : UrlParser → String → String → Result TargetProblem (Unit {0})
unfolding clean has_prefix
validate_source_path parse_url name value = do
  refuse_if (has_margin value) (path_spaces name)
  if is_empty value then ok tt else elim (parse_url value) [
    | none ↦ err (path_invalid name)
    | some parsed ↦ do
      refuse_if (not (is_empty parsed.scheme) || not (is_empty parsed.host))
          (path_not_relative name)
      refuse_if (has_prefix value "/" || has_rune b'\\' value) (path_not_clean name)
      let cleaned = clean value
      refuse_if
          (cleaned == "." || not (cleaned == value) || cleaned == ".." || has_prefix cleaned "../")
          (path_not_clean name)
  ]

-- the block of `validateSourceEntry` on a base URL that is not empty
unfoldable pub validate_base_url : UrlParser → String → Result TargetProblem (Unit {0})
validate_base_url parse_url base_url =
    if is_empty base_url then ok tt else elim (parse_url base_url) [
      | none ↦ err base_url_invalid
      | some parsed ↦ do
        refuse_if (not (parsed.scheme == "http") && not (parsed.scheme == "https")) base_url_scheme
        refuse_if (is_empty parsed.host) base_url_host
    ]

-- the block on an ISO name that is not empty
unfoldable pub validate_iso_name : String → Result TargetProblem (Unit {0})
unfolding base_name
validate_iso_name name =
    if is_empty name
    then ok tt
    else refuse_if (has_rune b'/' name || has_rune b'\\' name || not (base_name name == name))
        iso_name_not_file

unfoldable pub validate_source_entry : UrlParser → SourceEntry → Result TargetProblem (Unit {0})
unfolding validate_base_url validate_iso_name validate_source_path validate_source_hash_pins
validate_source_entry parse_url source = do
  refuse_if (has_margin source.base_url) base_url_spaces
  validate_base_url parse_url source.base_url
  refuse_if (has_margin source.iso_name) iso_name_spaces
  validate_iso_name source.iso_name
  refuse_if (has_margin source.iso_sha256) iso_sha256_spaces
  validate_source_path parse_url "kernel path" source.kernel_path
  validate_source_path parse_url "initrd path" source.initrd_path
  validate_source_hash_pins source
  refuse_if (has_margin source.cmdline) cmdline_spaces
