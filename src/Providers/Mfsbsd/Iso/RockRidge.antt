-- ===== src/Providers/Mfsbsd/Iso/RockRidge.antt =====
-- internal/providers/mfsbsd/iso.go: `parseRockRidge`, `parseRockRidgeSymlink` and
-- `parseISODirectoryRecord`.
use Prim.Native.Nat.{◌%◌}
use bootup.Verify.{Bytes}
use bootup.Providers.Mfsbsd.Iso.{
  IsoDirectoryRecord, IsoError, RockRidgeInfo, entry_length_invalid, identifier_invalid,
  multi_extent_unsupported, name_too_short, out_of_fuel, record_empty, record_too_long,
  record_too_short, symlink_component_invalid, symlink_continued, symlink_too_short,
  symlink_unsupported,
}
use bootup.Providers.Mfsbsd.Iso.Bytewise.{
  byte_at, has_bit, join_bytes, same_bytes, skip, slice, take, trim_right_byte, trim_suffix_bytes,
  uint32_at,
}
use bootup.Common.{
  List, Result, [], eqb, err, false, if◌then◌else◌, is_nil, leb, length, ltb, not, ok, refuse_if,
  suc, true, zero, ℕ, ◌++◌, ◌+◌, ◌>>=◌, ◌>>◌, ◌||◌, ◌∷◌,
}

-- a component of a symlink, by its flags
abbrev symlink_part : ℕ → Bytes → Bytes
symlink_part flags content =
    if has_bit 2 flags
    then b'.' ∷ []
    else if has_bit 4 flags
    then b'.' ∷ b'.' ∷ []
    else if has_bit 8 flags
    then []
    else content

-- the loop of `parseRockRidgeSymlink`
unfoldable pub symlink_parts : ℕ → ℕ → Bytes → Result IsoError (List Bytes)
symlink_parts zero offset entry = err out_of_fuel
symlink_parts (suc fuel) offset entry =
    let flags = byte_at entry offset in
    let start = offset + 2 in
    let end = start + byte_at entry (offset + 1) in
    let rest = symlink_parts fuel end entry in
    if leb (length entry) offset then ok [] else do
      refuse_if (ltb (length entry) start) symlink_component_invalid
      refuse_if (ltb (length entry) end) symlink_component_invalid
      refuse_if (has_bit 1 flags) symlink_continued
      parts ← rest
      ok (symlink_part flags (slice start end entry) ∷ parts)

-- `parseRockRidgeSymlink`
unfoldable pub parse_rock_ridge_symlink : Bytes → Result IsoError Bytes
unfolding symlink_parts
parse_rock_ridge_symlink entry = do
  refuse_if (ltb (length entry) 5) symlink_too_short
  parts ← symlink_parts (length entry) 5 entry
  ok (join_bytes parts)

-- the case "NM"
unfoldable pub add_name : Bytes → RockRidgeInfo → Result IsoError RockRidgeInfo
add_name entry info = do
  refuse_if (ltb (length entry) 5) name_too_short
  let flags = byte_at entry 4
  let name =
      if has_bit 2 flags
      then b'.' ∷ []
      else if has_bit 4 flags
      then b'.' ∷ b'.' ∷ []
      else info.name ++ skip 5 entry
  ok (record info { name = name })

-- the case "PX"
unfoldable pub add_mode : Bytes → RockRidgeInfo → Result IsoError RockRidgeInfo
unfolding uint32_at
add_mode entry info =
    ok (if leb 12 (length entry) then record info { mode = uint32_at 4 entry } else info)

-- the case "SL"
unfoldable pub add_symlink : Bytes → RockRidgeInfo → Result IsoError RockRidgeInfo
unfolding parse_rock_ridge_symlink
add_symlink entry info = do
  target ← parse_rock_ridge_symlink entry
  ok (record info { symlink = target })

-- one entry of the system use field, by its signature
unfoldable pub add_entry : Bytes → RockRidgeInfo → Result IsoError RockRidgeInfo
unfolding add_name add_mode add_symlink
add_entry entry info =
    let signature = take 2 entry in
    if same_bytes signature (b'N' ∷ b'M' ∷ [])
    then add_name entry info
    else if same_bytes signature (b'P' ∷ b'X' ∷ [])
    then add_mode entry info
    else if same_bytes signature (b'S' ∷ b'L' ∷ [])
    then add_symlink entry info
    else ok info

-- the loop of `parseRockRidge`
unfoldable pub rock_ridge_from : ℕ → RockRidgeInfo → Bytes → Result IsoError RockRidgeInfo
unfolding add_entry
rock_ridge_from zero info system_use = err out_of_fuel
rock_ridge_from (suc fuel) info system_use =
    let size = byte_at system_use 2 in
    if ltb (length system_use) 4 || eqb size 0
    then ok info
    else if ltb size 4 || ltb (length system_use) size
    then err entry_length_invalid
    else (do
      info ← add_entry (take size system_use) info
      rock_ridge_from fuel info (skip size system_use))

-- `parseRockRidge`
unfoldable pub parse_rock_ridge : Bytes → Result IsoError RockRidgeInfo
unfolding rock_ridge_from
parse_rock_ridge system_use =
    rock_ridge_from (suc (length system_use)) (record { name = []; mode = 0; symlink = [] })
      system_use

-- a record of no length
abbrev pub special_record : IsoDirectoryRecord
special_record = record { name = []; extent = 0; size = 0; mode = 0; dir = false; special = true }

module _ (lower : Bytes → Bytes) where
  -- `normalizeISO9660Name`
  unfoldable pub normalize_iso9660_name : Bytes → Bytes
  unfolding trim_suffix_bytes trim_right_byte
  normalize_iso9660_name name =
      if same_bytes name (0 ∷ [])
      then b'.' ∷ []
      else if same_bytes name (1 ∷ [])
      then b'.' ∷ b'.' ∷ []
      else lower (trim_right_byte b'.' (trim_suffix_bytes (b';' ∷ b'1' ∷ []) name))

  -- the record of `parseISODirectoryRecord`, behind the tests of its lengths
  unfoldable pub directory_record_of : Bytes → ℕ → Result IsoError IsoDirectoryRecord
  unfolding parse_rock_ridge normalize_iso9660_name uint32_at
  directory_record_of entry id_length = do
    let id_end = 33 + id_length
    let file_id = slice 33 id_end entry
    let start = if eqb (id_length % 2) 0 then id_end + 1 else id_end
    rock_ridge ← parse_rock_ridge (skip start entry)
    refuse_if (not (is_nil rock_ridge.symlink)) symlink_unsupported
    refuse_if (has_bit 128 (byte_at entry 25)) multi_extent_unsupported
    ok (record {
      name = if is_nil rock_ridge.name then normalize_iso9660_name file_id else rock_ridge.name;
      extent = uint32_at 2 entry;
      size = uint32_at 10 entry;
      mode = rock_ridge.mode;
      dir = has_bit 2 (byte_at entry 25);
      special = same_bytes file_id (0 ∷ []) || same_bytes file_id (1 ∷ []);
    })

  -- `parseISODirectoryRecord`
  unfoldable pub parse_iso_directory_record : Bytes → Result IsoError IsoDirectoryRecord
  unfolding directory_record_of
  parse_iso_directory_record bytes = do
    refuse_if (is_nil bytes) record_empty
    let record_length = byte_at bytes 0
    if eqb record_length 0 then ok special_record else do
      refuse_if (ltb record_length 34) record_too_short
      refuse_if (ltb (length bytes) record_length) record_too_long
      let entry = take record_length bytes
      let id_length = byte_at entry 32
      refuse_if (eqb id_length 0 || ltb (length entry) (33 + id_length)) identifier_invalid
      directory_record_of entry id_length
