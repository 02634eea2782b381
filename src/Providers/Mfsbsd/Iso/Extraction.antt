-- ===== src/Providers/Mfsbsd/Iso/Extraction.antt =====
-- internal/providers/mfsbsd/iso.go: `extractISORecord` and `Extract`, as the calls of the file system
-- that they make. filepath.Join and filepath.Dir are the arguments `join` and `parent`; `perform`
-- says which calls succeed.
use Prim.Native.Nat.{◌%◌}
use bootup.Verify.{Bytes}
use bootup.Providers.Mfsbsd.Iso.{
  IsoDirectoryRecord, IsoError, component_unsafe, operation_failed, out_of_fuel, sector_size,
}
use bootup.Providers.Mfsbsd.Iso.Bytewise.{has_byte, same_bytes}
use bootup.Providers.Mfsbsd.Iso.Directory.{
  Image, read_iso_directory, read_primary_volume_root, validate_iso_extent,
}
use bootup.Common.{
  Bool, List, Result, String, [], eqb, err, if◌then◌else◌, is_nil, not, ok, refuse_if, suc, zero, ℕ,
  ℤ, ◌*◌, ◌++◌, ◌>>◌, ◌||◌, ◌∷◌,
}

-- os.MkdirAll; opening a file and copying a section of the image into it; os.Chmod
pub data Action : Type 0 where
  make_directories : String → ℕ → Action
  copy_section : String → ℕ → ℕ → ℕ → Action
  change_mode : String → ℕ → Action

-- the calls that were made, in order, and whether they all succeeded
abbrev pub Outcome : Type 0
Outcome = List Action × Result IsoError (Unit {0})

-- `safeISOPathComponent`
unfoldable pub safe_iso_path_component : Bytes → Result IsoError Bytes
safe_iso_path_component name = do
  refuse_if (is_nil name || same_bytes name (b'.' ∷ []) || same_bytes name (b'.' ∷ b'.' ∷ []))
      component_unsafe
  refuse_if (has_byte 0 name || has_byte b'/' name) component_unsafe
  ok name

-- `record.mode.Perm()`, or the default where there are no bits
unfoldable pub permissions : ℕ → ℕ → ℕ
permissions fallback mode = if eqb (mode % 512) 0 then fallback else mode % 512

-- `if err != nil { return err }` between calls
abbrev pub followed_by : Outcome → Outcome → Outcome
followed_by (made, err e) rest = (made, err e)
followed_by (made, ok _) (more, result) = (made ++ more, result)

abbrev pub stop_with : IsoError → Outcome
stop_with e = ([], err e)

abbrev pub done : Outcome
done = ([], ok tt)

module _ (perform : Action → Bool) (join : String → Bytes → String) (parent : String → String)
    (lower : Bytes → Bytes) (read_at : Image) (image_size : ℤ) where
  unfoldable pub call : Action → Outcome
  call action = (action ∷ [], refuse_if (not (perform action)) operation_failed)

  -- the part of `extractISORecord` for a file
  unfoldable pub extract_file : IsoDirectoryRecord → String → Outcome
  unfolding permissions call
  extract_file entry dest =
      let mode = permissions 420 entry.mode in
      followed_by (call (make_directories (parent dest) 493)) (
        followed_by (call (copy_section dest (entry.extent * sector_size) entry.size mode))
          (call (change_mode dest mode)))

  -- the loop over the children of a directory
  unfoldable pub extract_children :
      (IsoDirectoryRecord → String → Outcome) → String → List IsoDirectoryRecord → Outcome
  unfolding safe_iso_path_component
  extract_children visit dest [] = done
  extract_children visit dest (child ∷ children) =
      let rest = extract_children visit dest children in
      elim (safe_iso_path_component child.name) [
        | err e ↦ stop_with e
        | ok name ↦ followed_by (visit child (join dest name)) rest
      ]

  -- the part of `extractISORecord` for a directory
  unfoldable pub extract_directory :
      (IsoDirectoryRecord → String → Outcome) → IsoDirectoryRecord → String → Outcome
  unfolding permissions call extract_children read_iso_directory
  extract_directory visit directory dest =
      let mode = permissions 493 directory.mode in
      followed_by (call (make_directories dest mode))
        (elim (read_iso_directory lower read_at image_size directory) [
          | err e ↦ stop_with e
          | ok children ↦
              followed_by (extract_children visit dest children) (call (change_mode dest mode))
        ])

  -- `extractISORecord`; the fuel bounds the depth of directories
  unfoldable pub extract_iso_record : ℕ → IsoDirectoryRecord → String → Outcome
  unfolding validate_iso_extent extract_directory extract_file
  extract_iso_record zero entry dest = stop_with out_of_fuel
  extract_iso_record (suc fuel) entry dest = elim (validate_iso_extent entry image_size) [
    | err e ↦ stop_with e
    | ok _ ↦
        if entry.dir
        then extract_directory (extract_iso_record fuel) entry dest
        else extract_file entry dest
  ]

  -- `Extract`, behind the tests of its arguments and the opening of the image
  unfoldable pub extract_image : ℕ → String → Outcome
  unfolding read_primary_volume_root call extract_iso_record
  extract_image fuel dest = elim (read_primary_volume_root lower read_at image_size) [
    | err e ↦ stop_with e
    | ok root ↦ followed_by (call (make_directories dest 493)) (extract_iso_record fuel root dest)
  ]
