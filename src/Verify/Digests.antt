-- ===== src/Verify/Digests.antt =====
-- `SHA256`: a digest is accepted exactly if it spells the hash, in either case.
use bootup.Common.{
  All, Char, String, [], ap, arith, code, eq_iff, false, length, none, ok, refl, some, sym, true,
  ◌==◌, ◌↔◌, ◌∙◌, ◌≡◌, ◌≤◌,
}
use bootup.Text.{decode_hex, encode_hex, hex_value, is_empty, to_lower}
use bootup.Text.Hex.Laws.{IsByte, decode_hex-encode_hex, decode_hex-to_lower, to_lower-encode_hex}
use bootup.Verify.{Bytes, Crypto, check_sha256}

-- What the program relies on: a SHA-256 hash has 32 bytes, and no rune beyond ASCII has a
-- hexadecimal digit for its lower case.
pub record IsLawful {Keyring : Type 0} (crypto : Crypto Keyring) : Type 0 where
  pub hash_length : (message : Bytes) → length (crypto.sha256 message) ≡ 32
  pub hash_bytes : (message : Bytes) → All IsByte (crypto.sha256 message)
  pub lower_digit : (c : Char) → 128 ≤ code c → hex_value (code (crypto.lower_wide c)) ≡ none

module _ {Keyring : Type 0} (crypto : Crypto Keyring) (lawful : IsLawful crypto) where
  -- the comparison of `SHA256`, for a text and a hash
  spells_hash :
      (expected : String) (message : Bytes)
      → ((encode_hex (crypto.sha256 message) == to_lower crypto.lower_wide expected) ≡ true)
        ↔ (decode_hex expected ≡ some (crypto.sha256 message))
  spells_hash expected message = (
    λ h.
        let same = (eq_iff _ _).0 h in
        sym (decode_hex-to_lower crypto.lower_wide lawful.lower_digit expected)
        ∙ ap decode_hex (sym same)
        ∙ decode_hex-encode_hex (crypto.sha256 message) (lawful.hash_bytes message),
    λ h.
        (eq_iff _ _).1
          (sym (to_lower-encode_hex crypto.lower_wide lawful.lower_digit expected _ h)),
  )

  not_empty_of_hash :
      (expected : String) (message : Bytes)
      → decode_hex expected ≡ some (crypto.sha256 message)
      → is_empty expected ≡ false
  unfolding decode_hex
  not_empty_of_hash String.[] message h =
      let bare : crypto.sha256 message ≡ [] = cc in
      absurd (omega (arith, ap length bare, lawful.hash_length message))
  not_empty_of_hash (String.◌∷◌ c s) message h = refl

  -- A digest passes exactly if it is a hexadecimal spelling, in upper or lower case, of the
  -- SHA-256 hash of the artifact.
  pub check_sha256_iff :
      (message : Bytes) (expected : String)
      → (check_sha256 crypto (some (some message)) expected ≡ ok tt)
        ↔ (decode_hex expected ≡ some (crypto.sha256 message))
  unfolding check_sha256
  check_sha256_iff message expected = (
    λ h. (spells_hash expected message).0 (ground arith),
    λ h. rw (not_empty_of_hash expected message h, (spells_hash expected message).1 h),
  )
