-- ===== src/Providers/Mfsbsd/Iso/Listing.antt =====
-- What a directory of an ISO image lists.
use Prim.Native.Nat.{◌/◌}
use bootup.Verify.{Bytes}
use bootup.Providers.Mfsbsd.Iso.RockRidge.{parse_iso_directory_record}
use bootup.Providers.Mfsbsd.Iso.{IsoDirectoryRecord, record_exceeds, sector_size}
use bootup.Providers.Mfsbsd.Iso.Bytewise.{byte_at, slice}
use bootup.Providers.Mfsbsd.Iso.Directory.{
  Image, read_iso_directory, read_records, validate_iso_extent,
}
use bootup.Common.{
  >>-eq-ok, >>=-eq-ok, All, Bool-cases, List, Option-cases, [], arith, eqb, false, if-false,
  if-true, if◌then◌else◌, inl, inr, leb, length, ltb, negsuc, ok, pos, pos_part, refuse_if, suc,
  zero, ℕ, ℤ, ◌*◌, ◌+◌, ◌∷◌, ◌≡◌, ◌≤◌,
}

-- an accepted extent starts in the image
pub starts_inside :
    (entry : IsoDirectoryRecord) (size : ℤ) {u : Unit {0}}
    → validate_iso_extent entry size ≡ ok u
    → entry.extent * sector_size ≤ pos_part size
unfolding validate_iso_extent
starts_inside entry (pos n) h = ground (arith, h)
starts_inside entry (negsuc n) h = cc

module _ (lower : Bytes → Bytes) (read_at : Image) (image_size : ℤ) where
  -- A listing holds neither the record of the directory itself nor that of its parent.
  read_records-AreNamed :
      (fuel offset : ℕ) (bytes : Bytes) (children : List IsoDirectoryRecord)
      → read_records lower fuel offset bytes ≡ ok children
      → All (λ child. child.special ≡ false) children
  unfolding read_records
  read_records-AreNamed zero offset bytes children h = cc
  read_records-AreNamed (suc fuel) offset bytes children h =
      let size = byte_at bytes offset in
      let end = offset + size in
      let next = if eqb size 0 then (offset / sector_size + 1) * sector_size else end in
      let rest = read_records lower fuel next bytes in
      elim (Bool-cases (leb (length bytes) offset)) [
        | inl past ↦
            let same : ok [] ≡ ok children = if-true (leb (length bytes) offset) _ _ past h in
            let eq : [] ≡ children = cc in rw (← eq) tt
        | inr more ↦
            let h1 = if-false (leb (length bytes) offset) _ _ more h in
            elim (Bool-cases (eqb size 0)) [
              | inl gap ↦
                  read_records-AreNamed fuel next bytes children (if-true (eqb size 0) _ _ gap h1)
              | inr full ↦
                  let h2 = if-false (eqb size 0) _ _ full h1 in
                  let (_, _, h3) =
                    >>-eq-ok (refuse_if (ltb (length bytes) end) record_exceeds) _ h2 in
                  let (child, _, h4) =
                    >>=-eq-ok (parse_iso_directory_record lower (slice offset end bytes)) _ h3 in
                  let (others, listed, same) = >>=-eq-ok rest _ h4 in
                  let named = read_records-AreNamed fuel next bytes others listed in
                  elim (Bool-cases child.special) [
                    | inl special ↦
                        let eq : others ≡ children = cc (rw special at same) in rw (← eq) named
                    | inr plain ↦
                        let eq : (child ∷ others) ≡ children = cc (rw plain at same) in
                        rw (← eq) (plain, named)
                  ]
            ]
      ]

  pub read_iso_directory-AreNamed :
      (entry : IsoDirectoryRecord) (children : List IsoDirectoryRecord)
      → read_iso_directory lower read_at image_size entry ≡ ok children
      → All (λ child. child.special ≡ false) children
  unfolding read_iso_directory
  read_iso_directory-AreNamed entry children h =
      let (_, _, h1) = >>-eq-ok (validate_iso_extent entry image_size) _ h in
      elim (Option-cases (read_at (entry.extent * sector_size) entry.size)) [
        | inl broken ↦ absurd (cc (rw broken at h1))
        | inr (bytes, got) ↦
            read_records-AreNamed (suc (length bytes)) 0 bytes children (rw got at h1)
      ]
