-- ===== src/Providers/Mfsbsd/Iso/Reading.antt =====
-- Reading the records of an image ends: the fuel is never used up.
use Prim.Native.Nat.{◌/◌, ◌%◌}
use bootup.Verify.{Bytes}
use bootup.Providers.Mfsbsd.Iso.{
  IsoDirectoryRecord, descriptor_unreadable, directory_unreadable, extent_too_far,
  identifier_invalid, multi_extent_unsupported, record_empty, record_exceeds, record_too_long,
  record_too_short, root_not_directory, sector_size, signature_missing, size_negative,
  symlink_unsupported, volume_not_found,
}
use bootup.Providers.Mfsbsd.Iso.Bytewise.{byte_at, has_bit, skip, slice, take}
use bootup.Providers.Mfsbsd.Iso.RockRidge.{
  directory_record_of, parse_iso_directory_record, parse_rock_ridge, special_record,
}
use bootup.Providers.Mfsbsd.Iso.Directory.{
  Image, find_volume, read_iso_directory, read_primary_volume_root, read_records, root_of,
  validate_iso_extent,
}
use bootup.Providers.Mfsbsd.Iso.Termination.{
  Ends, Ends->>, Ends->>=, Ends-err, Ends-if, Ends-ok, Ends-refuse_if, guarded, is_fuel_error,
  parse_rock_ridge-Ends, ran_out,
}
use bootup.Common.{
  Option-cases, arith, eqb, if◌then◌else◌, inl, inr, is_nil, leb, length, ltb, negsuc, not, ok, pos,
  pos_part, refl, suc, zero, ℕ, ℤ, ◌*◌, ◌+◌, ◌<◌, ◌||◌,
}

module _ (lower : Bytes → Bytes) where
  directory_record_of-Ends :
      (entry : Bytes) (id_length : ℕ) → Ends (directory_record_of lower entry id_length)
  unfolding directory_record_of is_fuel_error ran_out
  directory_record_of-Ends entry id_length =
      let start = if eqb (id_length % 2) 0 then 33 + id_length + 1 else 33 + id_length in
      Ends->>= (parse_rock_ridge (skip start entry)) _ (parse_rock_ridge-Ends (skip start entry))
        (λ info. guarded (not (is_nil info.symlink)) symlink_unsupported _ refl (
          guarded (has_bit 128 (byte_at entry 25)) multi_extent_unsupported _ refl
            (record { in_time = refl })))

  -- `parseISODirectoryRecord` ends.
  pub parse_iso_directory_record-Ends :
      (bytes : Bytes) → Ends (parse_iso_directory_record lower bytes)
  unfolding parse_iso_directory_record is_fuel_error ran_out
  parse_iso_directory_record-Ends bytes =
      let size = byte_at bytes 0 in
      let entry = take size bytes in
      let id_length = byte_at entry 32 in
      guarded (is_nil bytes) record_empty _ refl (
        Ends-if (eqb size 0) (ok special_record) _ (λ _. Ends-ok special_record)
          (λ _. guarded (ltb size 34) record_too_short _ refl (
            guarded (ltb (length bytes) size) record_too_long _ refl (
              guarded (eqb id_length 0 || ltb (length entry) (33 + id_length)) identifier_invalid
                (directory_record_of lower entry id_length) refl
                (directory_record_of-Ends entry id_length)))))

  read_records-Ends :
      (fuel offset : ℕ) (bytes : Bytes)
      → length bytes < suc fuel + offset
      → Ends (read_records lower (suc fuel) offset bytes)
  unfolding read_records is_fuel_error
  read_records-Ends zero offset bytes h =
      Ends-if (leb (length bytes) offset) _ _ (λ _. Ends-ok _)
        (λ more. absurd (ground (arith, more)))
  read_records-Ends (suc fuel) offset bytes h =
      let size = byte_at bytes offset in
      let next = if eqb size 0 then (offset / sector_size + 1) * sector_size else offset + size in
      let forward : offset < next = next_forward offset size in
      let rest = read_records-Ends fuel next bytes (omega (arith, h, forward)) in
      Ends-if (leb (length bytes) offset) _ _ (λ _. Ends-ok _)
        (λ _.
          Ends-if (eqb size 0) _ _ (λ _. rest)
            (λ _. guarded (ltb (length bytes) (offset + size)) record_exceeds _ refl (
              Ends->>= (parse_iso_directory_record lower (slice offset (offset + size) bytes)) _
                (parse_iso_directory_record-Ends (slice offset (offset + size) bytes))
                (λ _.
                  Ends->>= (read_records lower (suc fuel) next bytes) _ rest (λ _. Ends-ok _)))))
    where
      next_forward :
          (offset size : ℕ)
          → offset
            < (if eqb size 0 then (offset / sector_size + 1) * sector_size else offset + size)
      next_forward offset size = ground arith

  pub validate_iso_extent-Ends :
      (entry : IsoDirectoryRecord) (image_size : ℤ) → Ends (validate_iso_extent entry image_size)
  unfolding validate_iso_extent is_fuel_error
  validate_iso_extent-Ends entry (negsuc n) = Ends-err size_negative refl
  validate_iso_extent-Ends entry (pos n) =
      Ends-refuse_if
        (ltb n (entry.extent * sector_size) || ltb n (entry.extent * sector_size + entry.size))
        extent_too_far refl

  module _ (read_at : Image) (image_size : ℤ) where
    root_of-Ends : (descriptor : Bytes) → Ends (root_of lower read_at image_size descriptor)
    unfolding root_of is_fuel_error
    root_of-Ends descriptor =
        Ends->>= (parse_iso_directory_record lower (skip 156 descriptor)) _
          (parse_iso_directory_record-Ends (skip 156 descriptor))
          (λ _. guarded _ root_not_directory (ok _) refl (Ends-ok _))

    find_volume-Ends :
        (fuel offset : ℕ)
        → pos_part image_size < suc fuel * sector_size + offset
        → Ends (find_volume lower read_at image_size (suc fuel) offset)
    unfolding find_volume root_of is_fuel_error
    find_volume-Ends zero offset h =
        Ends-if (ltb (pos_part image_size) (offset + sector_size)) _ _
          (λ _. Ends-err volume_not_found refl) (λ more. absurd (ground (arith, more)))
    find_volume-Ends (suc fuel) offset h =
        Ends-if (ltb (pos_part image_size) (offset + sector_size)) _ _
          (λ _. Ends-err volume_not_found refl)
          (λ more. elim (Option-cases (read_at offset sector_size)) [
            | inl broken ↦ rw broken (Ends-err descriptor_unreadable refl)
            | inr (descriptor, got) ↦ rw got (
                guarded _ signature_missing _ refl (
                  Ends-if (eqb (byte_at descriptor 0) 1) _ _ (λ _. root_of-Ends descriptor)
                    (λ _.
                      Ends-if (eqb (byte_at descriptor 0) 255) _ _
                        (λ _. Ends-err volume_not_found refl)
                        (λ _. find_volume-Ends fuel (offset + sector_size) (omega (arith, h))))))
          ])

    -- Reading a directory of an image, and the root of its primary volume, ends: the fuel that the
    -- definitions give the loops is enough.
    pub read_iso_directory-Ends :
        (directory : IsoDirectoryRecord)
        → (Ends (read_iso_directory lower read_at image_size directory))
          × (Ends (read_primary_volume_root lower read_at image_size))
    unfolding read_iso_directory read_primary_volume_root is_fuel_error
    read_iso_directory-Ends directory = (
      Ends->> (validate_iso_extent directory image_size) _
          (validate_iso_extent-Ends directory image_size)
          (elim (Option-cases (read_at (directory.extent * sector_size) directory.size)) [
            | inl broken ↦ rw broken (Ends-err directory_unreadable refl)
            | inr (bytes, got) ↦ rw got (read_records-Ends (length bytes) 0 bytes (omega arith))
          ]),
      find_volume-Ends (pos_part image_size / sector_size) (16 * sector_size) (omega arith),
    )
