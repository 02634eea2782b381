-- ===== src/Providers/Mfsbsd/Iso/Endless.antt =====
-- Where extraction does not end.
use bootup.Verify.{Bytes}
use bootup.Providers.Mfsbsd.Iso.{IsoDirectoryRecord, IsoError, out_of_fuel}
use bootup.Providers.Mfsbsd.Iso.Directory.{Image, read_iso_directory, validate_iso_extent}
use bootup.Providers.Mfsbsd.Iso.Extraction.{
  Action, Outcome, call, change_mode, extract_children, extract_directory, extract_iso_record,
  followed_by, make_directories, permissions, safe_iso_path_component,
}
use bootup.Common.{Bool, List, String, arith, err, ok, refl, suc, true, zero, ℕ, ℤ, ◌∷◌, ◌≡◌}

-- an error behind calls that succeed, and an error in front of others
followed_by-later :
    (first second : Outcome) {u : Unit {0}} {e : IsoError}
    → first.1 ≡ ok u
    → second.1 ≡ err e
    → (followed_by first second).1 ≡ err e
followed_by-later (made, err e) (more, result) h k = cc
followed_by-later (made, ok _) (more, result) h k = k

followed_by-stops :
    (first second : Outcome) {e : IsoError} → first.1 ≡ err e → (followed_by first second).1 ≡ err e
followed_by-stops (made, err e) (more, result) h = h
followed_by-stops (made, ok _) (more, result) h = cc

module _ (perform : Action → Bool) (join : String → Bytes → String) (parent : String → String)
    (lower : Bytes → Bytes) (read_at : Image) (image_size : ℤ) where
  -- A directory whose listing starts with that directory itself, under an accepted name, is extracted
  -- without end where every call of the file system succeeds, at any depth: no fuel is enough.
  pub extract_iso_record-out_of_fuel :
      (entry : IsoDirectoryRecord) (more : List IsoDirectoryRecord) (name : Bytes) (fuel : ℕ)
      (place : String)
      → ((action : Action) → perform action ≡ true)
      → validate_iso_extent entry image_size ≡ ok tt
      → entry.dir ≡ true
      → safe_iso_path_component entry.name ≡ ok name
      → read_iso_directory lower read_at image_size entry ≡ ok (entry ∷ more)
      → (extract_iso_record perform join parent lower read_at image_size fuel entry place).1
        ≡ err out_of_fuel
  unfolding extract_iso_record extract_directory extract_children call
  extract_iso_record-out_of_fuel entry more name zero place answers inside directory safe listed =
      refl
  extract_iso_record-out_of_fuel entry more name (suc fuel) place answers inside directory safe
        listed =
      let visit = extract_iso_record perform join parent lower read_at image_size fuel in
      let run = call perform join parent lower read_at image_size in
      let mode = permissions 493 entry.mode in
      let children = extract_children perform join parent lower read_at image_size visit place in
      let deeper =
        extract_iso_record-out_of_fuel entry more name fuel (join place name) answers inside
          directory safe listed in
      let stops : (children (entry ∷ more)).1 ≡ err out_of_fuel =
        rw (extract_children, safe)
          (followed_by-stops (visit entry (join place name)) (children more) deeper) in
      rw (extract_iso_record, inside, directory)
        (followed_by-later (run (make_directories place mode)) _ {u = tt}
          (ground (arith, answers (make_directories place mode)))
          (rw listed
            (followed_by-stops (children (entry ∷ more)) (run (change_mode place mode)) stops)))
