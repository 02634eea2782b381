-- ===== src/Providers/Mfsbsd/Iso/Directory.antt =====
-- internal/providers/mfsbsd/iso.go: `readPrimaryVolumeRoot`, `readISODirectory` and
-- `validateISOExtent`. The image is the argument `read_at`, which answers for an offset and a
-- length with the bytes or, for a read error, with `none`.
use Prim.Native.Nat.{◌/◌}
use bootup.Verify.{Bytes}
use bootup.Providers.Mfsbsd.Iso.{
  IsoDirectoryRecord, IsoError, descriptor_unreadable, directory_unreadable, extent_too_far,
  out_of_fuel, record_exceeds, root_not_directory, sector_size, signature_missing, size_negative,
  volume_not_found,
}
use bootup.Providers.Mfsbsd.Iso.Bytewise.{byte_at, same_bytes, skip, slice}
use bootup.Providers.Mfsbsd.Iso.RockRidge.{parse_iso_directory_record}
use bootup.Common.{
  List, Option, Result, [], eqb, err, if◌then◌else◌, leb, length, ltb, negsuc, none, not, ok, pos,
  pos_part, refuse_if, some, suc, zero, ℕ, ℤ, ◌*◌, ◌+◌, ◌>>=◌, ◌>>◌, ◌||◌, ◌∷◌,
}

abbrev pub Image : Type 0
Image = ℕ → ℕ → Option Bytes

-- `validateISOExtent`; the products and sums are below 2^63 for extents and sizes of 32 bits
unfoldable pub validate_iso_extent : IsoDirectoryRecord → ℤ → Result IsoError (Unit {0})
validate_iso_extent entry (negsuc n) = err size_negative
validate_iso_extent entry (pos image_size) =
    let start = entry.extent * sector_size in
    refuse_if (ltb image_size start || ltb image_size (start + entry.size)) extent_too_far

module _ (lower : Bytes → Bytes) where
  -- the loop of `readISODirectory`
  unfoldable pub read_records : ℕ → ℕ → Bytes → Result IsoError (List IsoDirectoryRecord)
  unfolding parse_iso_directory_record
  read_records zero offset bytes = err out_of_fuel
  read_records (suc fuel) offset bytes =
      let record_length = byte_at bytes offset in
      let end = offset + record_length in
      let next = if eqb record_length 0 then (offset / sector_size + 1) * sector_size else end in
      let rest = read_records fuel next bytes in
      if leb (length bytes) offset then ok [] else if eqb record_length 0 then rest else (do
        refuse_if (ltb (length bytes) end) record_exceeds
        child ← parse_iso_directory_record lower (slice offset end bytes)
        children ← rest
        ok (if child.special then children else child ∷ children))

  module _ (read_at : Image) (image_size : ℤ) where
    -- `readISODirectory`
    unfoldable pub read_iso_directory :
        IsoDirectoryRecord → Result IsoError (List IsoDirectoryRecord)
    unfolding validate_iso_extent read_records
    read_iso_directory directory = do
      validate_iso_extent directory image_size
      elim (read_at (directory.extent * sector_size) directory.size) [
        | none ↦ err directory_unreadable
        | some bytes ↦ read_records (suc (length bytes)) 0 bytes
      ]

    -- the root of a primary volume descriptor
    unfoldable pub root_of : Bytes → Result IsoError IsoDirectoryRecord
    unfolding parse_iso_directory_record
    root_of descriptor = do
      root ← parse_iso_directory_record lower (skip 156 descriptor)
      refuse_if (not root.dir) root_not_directory
      ok root

    -- the loop of `readPrimaryVolumeRoot`
    unfoldable pub find_volume : ℕ → ℕ → Result IsoError IsoDirectoryRecord
    unfolding root_of
    find_volume zero offset = err out_of_fuel
    find_volume (suc fuel) offset =
        let next = find_volume fuel (offset + sector_size) in
        if ltb (pos_part image_size) (offset + sector_size)
        then err volume_not_found
        else elim (read_at offset sector_size) [
          | none ↦ err descriptor_unreadable
          | some descriptor ↦ do
            refuse_if
                (not (same_bytes (slice 1 6 descriptor) (b'C' ∷ b'D' ∷ b'0' ∷ b'0' ∷ b'1' ∷ [])))
                signature_missing
            let kind = byte_at descriptor 0
            if eqb kind 1
                then root_of descriptor
                else if eqb kind 255
                then err volume_not_found
                else next
        ]

    -- `readPrimaryVolumeRoot`
    unfoldable pub read_primary_volume_root : Result IsoError IsoDirectoryRecord
    unfolding find_volume
    read_primary_volume_root =
        find_volume (suc (pos_part image_size / sector_size)) (16 * sector_size)
