-- ===== src/Text/Hex.antt =====
-- encoding/hex, and strings.ToLower.
pub mod Laws
use Prim.Native.Nat.{◌/◌, ◌%◌, compare, Ordering}
use Prim.Native.Char.{char, IsScalar}
use Prim.Native.String.{[], ◌∷◌}
use mathlib.Core.Logic.{dite}
use native.Mathlib.Decide.{dec_le, dec_lt}
use bootup.Common.{
  Char, List, Option, String, [], arith, code, if◌then◌else◌, leb, none, some, ℕ, ◌&&◌, ◌*◌, ◌+◌,
  ◌-◌, ◌<◌, ◌∷◌, ◌≡◌,
}

compare_ascii : (n : ℕ) → n < 128 → compare n 55296 ≡ Ordering.lt
compare_ascii n h = ground arith

pub is_scalar : (n : ℕ) → n < 128 → IsScalar n
is_scalar n h = rw (compare_ascii n h) tt

-- The character of an ASCII code.
abbrev pub ascii : (n : ℕ) → n < 128 → Char
ascii n h = char n (is_scalar n h)

-- The value of a hexadecimal digit, in either case.
unfoldable pub hex_value : ℕ → Option ℕ
hex_value c =
    if leb b'0' c && leb c b'9'
    then some (c - 48)
    else if leb b'a' c && leb c b'f'
    then some (c - 87)
    else if leb b'A' c && leb c b'F'
    then some (c - 55)
    else none

abbrev pub pair_byte : Option ℕ → Option ℕ → Option (List ℕ) → Option (List ℕ)
pair_byte (some hi) (some lo) (some rest) = some (List.◌∷◌ (hi * 16 + lo) rest)
pair_byte (some hi) (some lo) none = none
pair_byte (some hi) none rest = none
pair_byte none lo rest = none

-- hex.DecodeString; `none` is an error: an odd length or a rune that is no digit
unfoldable pub decode_hex : String → Option (List ℕ)
unfolding hex_value
decode_hex [] = some List.[]
decode_hex (c ∷ []) = none
decode_hex (c ∷ d ∷ s) = pair_byte (hex_value (code c)) (hex_value (code d)) (decode_hex s)

-- the lower-case digit of a number below 16
unfoldable pub nibble : ℕ → Char
unfolding dec_lt
nibble n =
    dite (dec_lt (n % 16) 10) (λ h. ascii (48 + n % 16) (omega arith))
      (λ _. ascii (87 + n % 16) (omega arith))

-- hex.EncodeToString
unfoldable pub encode_hex : List ℕ → String
unfolding nibble
encode_hex List.[] = []
encode_hex (List.◌∷◌ b bs) = nibble (b / 16) ∷ nibble (b % 16) ∷ encode_hex bs

-- The argument `wide` is unicode.ToLower beyond ASCII.
module _ (wide : Char → Char) where
  unfoldable pub lower_rune : Char → Char
  unfolding dec_le dec_lt
  lower_rune c =
      dite (dec_lt (code c) 128)
        (λ narrow.
          dite (dec_le b'A' (code c))
            (λ _. dite (dec_le (code c) b'Z') (λ h. ascii (code c + 32) (omega arith)) (λ _. c))
            (λ _. c))
        (λ _. wide c)

  -- strings.ToLower
  unfoldable pub to_lower : String → String
  unfolding lower_rune
  to_lower [] = []
  to_lower (c ∷ s) = lower_rune c ∷ to_lower s
