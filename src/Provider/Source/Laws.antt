-- ===== src/Provider/Source/Laws.antt =====
-- What an accepted source entry promises to the providers that join its parts to a base URL.
use bootup.Common.{
  All, Bool, Bool-cases, Option-cases, String, arith, differ, eq_iff, eqb→eq, false, inl, inr,
  length, not, ok, refl, true, ◌&&◌, ◌==◌, ◌∙◌, ◌≡◌,
}
use bootup.Text.{
  Every, clean, decode_hex, has_prefix, has_rune, is_empty, rune_count, split, trim_space,
}
use bootup.Text.Cleaning.Laws.{IsPlain, IsPlain-split}
use bootup.Provider.Source.{
  UrlParser, validate_pin, validate_source_hash_pins, validate_source_path, validate_source_sha256,
}
use bootup.Text.Hex.Laws.{IsHexDigit, decode_hex_sound}
use bootup.Provider.{SourceEntry}

-- A path that is empty, or names something below its base: it has no element "", "." or "..",
-- no backslash and no surrounding white space.
pub record IsBelow (path : String) : Type 0 where
  pub elements : is_empty path ≡ false → All IsPlain (split b'/' path)
  pub backslash : has_rune b'\\' path ≡ false
  pub margin : trim_space path ≡ path

module _ (parse_url : UrlParser) (name path : String) where
  path_checks :
      validate_source_path parse_url name path ≡ ok tt
      → is_empty path ≡ false
      → (has_prefix path "/" ≡ false)
        × (has_rune b'\\' path ≡ false)
        × ((clean path == path) ≡ true)
        × ((clean path == ".") ≡ false)
        × ((clean path == "..") ≡ false)
        × (has_prefix (clean path) "../" ≡ false)
  unfolding validate_source_path
  path_checks h k = ground arith

  path_margin : validate_source_path parse_url name path ≡ ok tt → (trim_space path == path) ≡ true
  unfolding validate_source_path
  path_margin h = ground arith

  -- the empty path has no rune
  no_backslash : is_empty path ≡ true → has_rune b'\\' path ≡ false
  no_backslash h =
      elim path as (λ p. is_empty p ≡ true → has_rune b'\\' p ≡ false) [
        | String.[] ↦ λ _. refl
        | String.◌∷◌ c s ↦ λ e. cc
      ]
        h

  -- An accepted path is empty or names something below its base: no element of it is "", "." or
  -- ".."; it has no backslash and no surrounding white space.
  pub validate_source_path-IsBelow : validate_source_path parse_url name path ≡ ok tt → IsBelow path
  validate_source_path-IsBelow h = record {
    elements = λ k.
        let (relative, _, same, here, up, above) = path_checks h k in
        let fixed : clean path ≡ path = (eq_iff (clean path) path).0 same in
        IsPlain-split path relative fixed (λ e. cc (here, (eq_iff (clean path) ".").1 (fixed ∙ e)))
          (λ e. cc (up, (eq_iff (clean path) "..").1 (fixed ∙ e))) (rw fixed at above);
    backslash = elim (Bool-cases (is_empty path)) [
      | inl bare ↦ no_backslash bare
      | inr full ↦ (path_checks h full).1
    ];
    margin = (eq_iff (trim_space path) path).0 (path_margin h);
  }

-- A pin that is not empty: 64 hexadecimal digits, and the path of the file that it pins.
abbrev pub IsPin : String → String → Type 0
IsPin path pin =
    is_empty pin ≡ false → (is_empty path ≡ false) × (rune_count pin ≡ 64) × Every IsHexDigit pin

pub record ArePinned (source : SourceEntry) : Type 0 where
  pub kernel : IsPin source.kernel_path source.kernel_sha256
  pub initrd : IsPin source.initrd_path source.initrd_sha256
  -- an initrd is pinned exactly if its kernel is
  pub together :
      is_empty source.initrd_path ≡ false
      → is_empty source.kernel_sha256 ≡ is_empty source.initrd_sha256

validate_source_sha256_sound :
    (name pin : String)
    → validate_source_sha256 name pin ≡ ok tt
    → (rune_count pin ≡ 64) × Every IsHexDigit pin
unfolding validate_source_sha256
validate_source_sha256_sound name pin h = elim (Option-cases (decode_hex pin)) [
  | inl bad ↦ cc (h, bad)
  | inr (bytes, good) ↦
      let (count, digits, _) = decode_hex_sound pin bytes good in
      let size : length bytes ≡ 32 = eqb→eq (length bytes) 32 (ground (arith, good)) in
      (omega arith, digits)
]

validate_pin-IsPin : (name path pin : String) → validate_pin name path pin ≡ ok tt → IsPin path pin
unfolding validate_pin
validate_pin-IsPin name path pin h k =
    let (count, digits) = validate_source_sha256_sound name pin (ground arith) in
    (ground arith, count, digits)

pins_checks :
    (s : SourceEntry)
    → validate_source_hash_pins s ≡ ok tt
    → (validate_pin "kernel" s.kernel_path s.kernel_sha256 ≡ ok tt)
      × (validate_pin "initrd" s.initrd_path s.initrd_sha256 ≡ ok tt)
      × ((not (is_empty s.initrd_path)
            && differ (is_empty s.kernel_sha256) (is_empty s.initrd_sha256))
          ≡ false)
unfolding validate_source_hash_pins
pins_checks s h = (ground arith, ground arith, ground arith)

same_of_check : (p a b : Bool) → p ≡ false → (not p && differ a b) ≡ false → a ≡ b
same_of_check p a b h k = ground arith

-- Accepted pins are digests of 64 hexadecimal digits of files that are named, and an initrd that
-- is named is pinned exactly if its kernel is.
pub validate_source_hash_pins-ArePinned :
    (s : SourceEntry) → validate_source_hash_pins s ≡ ok tt → ArePinned s
validate_source_hash_pins-ArePinned s h =
    let (kernel_ok, initrd_ok, same) = pins_checks s h in
    record {
      kernel = validate_pin-IsPin "kernel" s.kernel_path s.kernel_sha256 kernel_ok;
      initrd = validate_pin-IsPin "initrd" s.initrd_path s.initrd_sha256 initrd_ok;
      together = λ full. same_of_check _ _ _ full same;
    }
