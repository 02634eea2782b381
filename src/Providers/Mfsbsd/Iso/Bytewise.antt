-- ===== src/Providers/Mfsbsd/Iso/Bytewise.antt =====
-- Slices, bits and integers of byte sequences.
use Prim.Native.Nat.{◌/◌, ◌%◌}
use bootup.Verify.{Bytes}
use bootup.Common.{
  Bool, List, [], arith, eqb, false, if◌then◌else◌, length, suc, true, zero, ℕ, ◌&&◌, ◌*◌, ◌++◌,
  ◌+◌, ◌-◌, ◌||◌, ◌∷◌, ◌≡◌,
}

abbrev pub skip {ℓ} : {A : Type ℓ} → ℕ → List A → List A
skip zero xs = xs
skip (suc n) [] = []
skip (suc n) (x ∷ xs) = skip n xs

abbrev pub take {ℓ} : {A : Type ℓ} → ℕ → List A → List A
take zero xs = []
take (suc n) [] = []
take (suc n) (x ∷ xs) = x ∷ take n xs

-- `data[from : to]`
abbrev pub slice : ℕ → ℕ → Bytes → Bytes
slice from to bytes = take (to - from) (skip from bytes)

abbrev head_byte : Bytes → ℕ
head_byte [] = 0
head_byte (b ∷ bytes) = b

-- `data[index]`, where the index is in range
abbrev pub byte_at : Bytes → ℕ → ℕ
byte_at bytes index = head_byte (skip index bytes)

abbrev pub same_bytes : Bytes → Bytes → Bool
same_bytes [] [] = true
same_bytes [] (b ∷ bs) = false
same_bytes (a ∷ more) [] = false
same_bytes (a ∷ more) (b ∷ bs) = eqb a b && same_bytes more bs

abbrev pub has_byte : ℕ → Bytes → Bool
has_byte n [] = false
has_byte n (b ∷ bs) = eqb b n || has_byte n bs

-- `flags & bit != 0`, for a power of two
abbrev pub has_bit : ℕ → ℕ → Bool
has_bit bit flags = eqb ((flags / bit) % 2) 1

-- `binary.LittleEndian.Uint32` of four bytes from an index
unfoldable pub uint32_at : ℕ → Bytes → ℕ
uint32_at from bytes =
    byte_at bytes from
    + 256 * byte_at bytes (from + 1)
    + 65536 * byte_at bytes (from + 2)
    + 16777216 * byte_at bytes (from + 3)

-- strings.TrimRight at one byte
abbrev keep_byte : ℕ → ℕ → Bytes → Bytes
keep_byte n b [] = if eqb b n then [] else b ∷ []
keep_byte n b (c ∷ bs) = b ∷ c ∷ bs

unfoldable pub trim_right_byte : ℕ → Bytes → Bytes
trim_right_byte n [] = []
trim_right_byte n (b ∷ bs) = keep_byte n b (trim_right_byte n bs)

-- strings.TrimSuffix
unfoldable pub trim_suffix_bytes : Bytes → Bytes → Bytes
trim_suffix_bytes suffix [] = []
trim_suffix_bytes suffix (b ∷ bs) =
    if same_bytes (b ∷ bs) suffix then [] else b ∷ trim_suffix_bytes suffix bs

abbrev join_more : List Bytes → Bytes
join_more [] = []
join_more (part ∷ parts) = b'/' ∷ part ++ join_more parts

-- strings.Join with a slash
abbrev pub join_bytes : List Bytes → Bytes
join_bytes [] = []
join_bytes (part ∷ parts) = part ++ join_more parts

pub length-skip : (n : ℕ) (bytes : Bytes) → length (skip n bytes) ≡ length bytes - n
length-skip zero bytes = omega arith
length-skip (suc n) [] = omega arith
length-skip (suc n) (b ∷ bytes) = omega (arith, length-skip n bytes)
