-- ===== src/Providers/Mfsbsd/Iso/Bounds.antt =====
-- Records that parse from bytes have 32-bit extents and sizes, so that their sections are computed
-- without overflow; accepted sections lie in the image.
use Prim.Native.Nat.{◌^◌, ◌%◌}
use bootup.Verify.{Bytes}
use bootup.Text.Hex.Laws.{IsByte}
use bootup.Providers.Mfsbsd.Iso.{
  IsoDirectoryRecord, extent_too_far, identifier_invalid, multi_extent_unsupported, record_empty,
  record_too_long, record_too_short, sector_size, symlink_unsupported,
}
use bootup.Providers.Mfsbsd.Iso.Bytewise.{byte_at, has_bit, skip, take, uint32_at}
use bootup.Providers.Mfsbsd.Iso.RockRidge.{
  directory_record_of, parse_iso_directory_record, parse_rock_ridge,
}
use bootup.Providers.Mfsbsd.Iso.Directory.{validate_iso_extent}
use bootup.Common.{
  >>-eq-ok, >>=-eq-ok, All, Bool-cases, [], arith, eqb, if-false, if-true, if◌then◌else◌, inl, inr,
  is_nil, length, ltb, negsuc, not, ok, pos, pos_part, refuse_if, refuse_if-eq-ok, suc, zero, ℕ, ℤ,
  ◌*◌, ◌+◌, ◌<◌, ◌||◌, ◌∷◌, ◌≡◌, ◌≤◌,
}

byte_at-IsByte : (bytes : Bytes) (index : ℕ) → All IsByte bytes → byte_at bytes index < 256
byte_at-IsByte [] zero h = omega arith
byte_at-IsByte [] (suc n) h = omega arith
byte_at-IsByte (b ∷ bytes) zero h = h.0
byte_at-IsByte (b ∷ bytes) (suc n) h = byte_at-IsByte bytes n h.1

take-IsByte : (n : ℕ) (bytes : Bytes) → All IsByte bytes → All IsByte (take n bytes)
take-IsByte zero bytes h = tt
take-IsByte (suc n) [] h = tt
take-IsByte (suc n) (b ∷ bytes) h = (h.0, take-IsByte n bytes h.1)

uint32_at-bound :
    (index : ℕ) (bytes : Bytes) → All IsByte bytes → uint32_at index bytes < 4294967296
unfolding uint32_at
uint32_at-bound index bytes h =
    let a = byte_at-IsByte bytes index h in
    let b = byte_at-IsByte bytes (index + 1) h in
    let c = byte_at-IsByte bytes (index + 2) h in
    let d = byte_at-IsByte bytes (index + 3) h in omega (arith, a, b, c, d)

-- The section of a record, as int64 numbers that have not wrapped around.
pub record IsSection (entry : IsoDirectoryRecord) (image_size : ℤ) : Type 0 where
  pub no_overflow : entry.extent * sector_size + entry.size < 2 ^ 63
  pub inside : entry.extent * sector_size + entry.size ≤ pos_part image_size

module _ (lower : Bytes → Bytes) where
  directory_record_of-bound :
      (entry : Bytes) (id_length : ℕ) (result : IsoDirectoryRecord)
      → All IsByte entry
      → directory_record_of lower entry id_length ≡ ok result
      → (result.extent < 4294967296) × (result.size < 4294967296)
  unfolding directory_record_of
  directory_record_of-bound entry id_length result bytes h =
      let start = if eqb (id_length % 2) 0 then 33 + id_length + 1 else 33 + id_length in
      let (info, _, h1) = >>=-eq-ok (parse_rock_ridge (skip start entry)) _ h in
      let (_, _, h2) = >>-eq-ok (refuse_if (not (is_nil info.symlink)) symlink_unsupported) _ h1 in
      let (_, _, same) =
        >>-eq-ok (refuse_if (has_bit 128 (byte_at entry 25)) multi_extent_unsupported) _ h2 in
      let extent : uint32_at 2 entry ≡ result.extent = cc in
      let size : uint32_at 10 entry ≡ result.size = cc in
      (rw (← extent) (uint32_at-bound 2 entry bytes), rw (← size) (uint32_at-bound 10 entry bytes))

  parse_iso_directory_record-bound :
      (bytes : Bytes) (result : IsoDirectoryRecord)
      → All IsByte bytes
      → parse_iso_directory_record lower bytes ≡ ok result
      → (result.extent < 4294967296) × (result.size < 4294967296)
  unfolding parse_iso_directory_record
  parse_iso_directory_record-bound bytes result all h =
      let size = byte_at bytes 0 in
      let entry = take size bytes in
      let id_length = byte_at entry 32 in
      let (_, _, h1) = >>-eq-ok (refuse_if (is_nil bytes) record_empty) _ h in
      elim (Bool-cases (eqb size 0)) [
        | inl bare ↦
            let same = if-true (eqb size 0) _ _ bare h1 in
            let extent : 0 ≡ result.extent = cc in
            let length' : 0 ≡ result.size = cc in (omega (arith, extent), omega (arith, length'))
        | inr more ↦
            let (_, _, h2) =
              >>-eq-ok (refuse_if (ltb size 34) record_too_short) _
                (if-false (eqb size 0) _ _ more h1) in
            let (_, _, h3) = >>-eq-ok (refuse_if (ltb (length bytes) size) record_too_long) _ h2 in
            let (_, _, h4) =
              >>-eq-ok
                (refuse_if (eqb id_length 0 || ltb (length entry) (33 + id_length))
                  identifier_invalid)
                _ h3 in
            directory_record_of-bound entry id_length result (take-IsByte size bytes all) h4
      ]

  -- The section of a record that parses from bytes, and whose extent is accepted, is computed
  -- without overflow of int64 and lies in the image.
  pub validate_iso_extent-IsSection :
      (bytes : Bytes) (entry : IsoDirectoryRecord) (image_size : ℤ)
      → All IsByte bytes
      → parse_iso_directory_record lower bytes ≡ ok entry
      → validate_iso_extent entry image_size ≡ ok tt
      → IsSection entry image_size
  unfolding validate_iso_extent
  validate_iso_extent-IsSection bytes entry (negsuc n) all parsed h = cc
  validate_iso_extent-IsSection bytes entry (pos n) all parsed h =
      let (extent, size) = parse_iso_directory_record-bound bytes entry all parsed in
      let fits = refuse_if-eq-ok _ extent_too_far h in
      record { no_overflow = omega (arith, extent, size); inside = ground (arith, fits) }
