-- ===== src/Text/Hex/Laws.antt =====
-- Hexadecimal text spells bytes, and case does not matter to what it spells.
use Prim.Native.Nat.{◌/◌, ◌%◌}
use Prim.Native.String.{[], ◌∷◌}
use text.Mathlib.TextEquality.{Char-path}
use bootup.Common.{
  All, Char, List, Option, String, [], ap, arith, code, length, none, refl, some, ℕ, ◌*◌, ◌+◌, ◌<◌,
  ◌∷◌, ◌≡◌, ◌≤◌, ◌⊎◌,
}
use bootup.Text.Runes.{Every}
use bootup.Text.Search.{rune_count}
use bootup.Text.Hex.{decode_hex, encode_hex, hex_value, lower_rune, nibble, pair_byte, to_lower}

abbrev pub IsHexDigit : ℕ → Type 0
IsHexDigit c = ((b'0' ≤ c) × (c ≤ b'9')) ⊎ ((b'a' ≤ c) × (c ≤ b'f')) ⊎ ((b'A' ≤ c) × (c ≤ b'F'))

abbrev pub IsLowerHexDigit : ℕ → Type 0
IsLowerHexDigit c = ((b'0' ≤ c) × (c ≤ b'9')) ⊎ ((b'a' ≤ c) × (c ≤ b'f'))

abbrev pub IsByte : ℕ → Type 0
IsByte b = b < 256

hex_value-IsHexDigit : (c : ℕ) {n : ℕ} → hex_value c ≡ some n → IsHexDigit c × (n < 16)
unfolding hex_value
hex_value-IsHexDigit c h = ground arith

pair_byte_inv :
    (a b : Option ℕ) (r : Option (List ℕ)) {bs : List ℕ}
    → pair_byte a b r ≡ some bs
    → (hi : ℕ) × (lo : ℕ) × (rest : List ℕ) × (a ≡ some hi)
      × (b ≡ some lo)
      × (r ≡ some rest)
      × (bs ≡ List.◌∷◌ (hi * 16 + lo) rest)
pair_byte_inv (some hi) (some lo) (some rest) h = (hi, lo, rest, refl, refl, refl, cc)
pair_byte_inv (some hi) (some lo) none h = cc
pair_byte_inv (some hi) none r h = cc
pair_byte_inv none b r h = cc

-- A text that decodes has two digits to a byte, and nothing but digits.
pub decode_hex_sound :
    (s : String) (bs : List ℕ)
    → decode_hex s ≡ some bs
    → (rune_count s ≡ 2 * length bs) × Every IsHexDigit s × All IsByte bs
unfolding decode_hex
decode_hex_sound [] bs h = let e : List.[] ≡ bs = cc in rw (← e) (omega arith, tt, tt)
decode_hex_sound (c ∷ []) bs h = cc
decode_hex_sound (c ∷ d ∷ s) bs h =
    let (hi, lo, rest, hc, hd, hr, e) =
      pair_byte_inv (hex_value (code c)) (hex_value (code d)) (decode_hex s) h in
    let (count, digits, bytes) = decode_hex_sound s rest hr in
    let (dc, lt_hi) = hex_value-IsHexDigit (code c) hc in
    let (dd, lt_lo) = hex_value-IsHexDigit (code d) hd in
    rw e (omega arith, (dc, (dd, digits)), (omega arith, bytes))

code-nibble : (n : ℕ) → n < 16 → hex_value (code (nibble n)) ≡ some n
unfolding nibble hex_value
code-nibble n h = ground arith

nibble-low : (hi lo : ℕ) → lo < 16 → nibble ((hi * 16 + lo) % 16) ≡ nibble lo
nibble-low hi lo h = ap nibble (omega arith)

module _ (wide : Char → Char)
    (wide_digit : (c : Char) → 128 ≤ code c → hex_value (code (wide c)) ≡ none) where
  hex_value-lower_rune : (c : Char) → hex_value (code (lower_rune wide c)) ≡ hex_value (code c)
  unfolding lower_rune hex_value
  hex_value-lower_rune c = ground (arith, wide_digit c)

  -- Lower case spells the same bytes.
  pub decode_hex-to_lower : (s : String) → decode_hex (to_lower wide s) ≡ decode_hex s
  unfolding decode_hex to_lower
  decode_hex-to_lower [] = refl
  decode_hex-to_lower (c ∷ []) = refl
  decode_hex-to_lower (c ∷ d ∷ s) =
      rw (hex_value-lower_rune c, hex_value-lower_rune d, decode_hex-to_lower s)

  lower_rune-nibble :
      (c : Char) (n : ℕ) → hex_value (code c) ≡ some n → lower_rune wide c ≡ nibble n
  lower_rune-nibble c n h = Char-path (lower_rune wide c) (nibble n) (codes c n h)
    where
      codes :
          (c : Char) (n : ℕ)
          → hex_value (code c) ≡ some n
          → code (lower_rune wide c) ≡ code (nibble n)
      codes c n h = unfold lower_rune nibble hex_value in ground (arith)

  -- The lower case of a text that decodes is the encoding of what it decodes to.
  pub to_lower-encode_hex :
      (s : String) (bs : List ℕ) → decode_hex s ≡ some bs → to_lower wide s ≡ encode_hex bs
  unfolding decode_hex to_lower encode_hex
  to_lower-encode_hex [] bs h = let e : List.[] ≡ bs = cc in rw (← e) refl
  to_lower-encode_hex (c ∷ []) bs h = cc
  to_lower-encode_hex (c ∷ d ∷ s) bs h =
      let (hi, lo, rest, hc, hd, hr, e) =
        pair_byte_inv (hex_value (code c)) (hex_value (code d)) (decode_hex s) h in
      let lt_lo : lo < 16 = (hex_value-IsHexDigit (code d) hd).1 in
      let high : (hi * 16 + lo) / 16 ≡ hi = omega arith in
      rw (
        e,
        high,
        nibble-low hi lo lt_lo,
        lower_rune-nibble c hi hc,
        lower_rune-nibble d lo hd,
        to_lower-encode_hex s rest hr,
      )

  lower_digit :
      (c : Char) {n : ℕ}
      → hex_value (code (lower_rune wide c)) ≡ some n
      → IsLowerHexDigit (code (lower_rune wide c))
  unfolding lower_rune hex_value
  lower_digit c h = ground (arith, wide_digit c)

  -- The digits of a lower-case text are lower-case digits.
  pub to_lower-IsLowerHexDigit :
      (s : String) (bs : List ℕ)
      → decode_hex (to_lower wide s) ≡ some bs
      → Every IsLowerHexDigit (to_lower wide s)
  unfolding decode_hex to_lower
  to_lower-IsLowerHexDigit [] bs h = tt
  to_lower-IsLowerHexDigit (c ∷ []) bs h = cc
  to_lower-IsLowerHexDigit (c ∷ d ∷ s) bs h =
      let (hi, lo, rest, hc, hd, hr, e) = pair_byte_inv _ _ _ h in
      (lower_digit c hc, (lower_digit d hd, to_lower-IsLowerHexDigit s rest hr))

pub decode_hex-encode_hex : (bs : List ℕ) → All IsByte bs → decode_hex (encode_hex bs) ≡ some bs
unfolding decode_hex encode_hex
decode_hex-encode_hex List.[] h = refl
decode_hex-encode_hex (List.◌∷◌ b bs) (small, h) =
    let hi_lt : b / 16 < 16 = omega arith in
    let lo_lt : b % 16 < 16 = omega arith in
    let whole : b / 16 * 16 + b % 16 ≡ b = omega arith in
    rw (code-nibble (b / 16) hi_lt, code-nibble (b % 16) lo_lt, decode_hex-encode_hex bs h, whole)
