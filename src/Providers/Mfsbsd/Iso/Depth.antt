-- ===== src/Providers/Mfsbsd/Iso/Depth.antt =====
-- Where extraction ends.
use bootup.Verify.{Bytes}
use bootup.Providers.Mfsbsd.Iso.{
  IsoDirectoryRecord, IsoError, component_unsafe, operation_failed, sector_size,
}
use bootup.Providers.Mfsbsd.Iso.Bytewise.{has_byte, same_bytes}
use bootup.Providers.Mfsbsd.Iso.Directory.{Image, read_iso_directory, validate_iso_extent}
use bootup.Providers.Mfsbsd.Iso.Extraction.{
  Action, Outcome, call, change_mode, copy_section, extract_children, extract_directory,
  extract_file, extract_iso_record, followed_by, make_directories, permissions,
  safe_iso_path_component, stop_with,
}
use bootup.Providers.Mfsbsd.Iso.Listing.{read_iso_directory-AreNamed, starts_inside}
use bootup.Providers.Mfsbsd.Iso.Termination.{
  Ends, Ends-err, Ends-ok, Ends-refuse_if, guarded, is_fuel_error, ran_out,
}
use bootup.Providers.Mfsbsd.Iso.Reading.{read_iso_directory-Ends, validate_iso_extent-Ends}
use bootup.Common.{
  All, Bool, Bool-cases, List, Result, Result-cases, String, [], arith, err, false, inl, inr,
  is_nil, not, ok, pos_part, refl, suc, true, zero, ℕ, ℤ, ◌*◌, ◌+◌, ◌<◌, ◌||◌, ◌∷◌, ◌≡◌,
}

followed_by-Ends :
    (first second : Outcome) → Ends first.1 → Ends second.1 → Ends (followed_by first second).1
followed_by-Ends (made, err e) (more, result) h k = h
followed_by-Ends (made, ok _) (more, result) h k = k

module _ (perform : Action → Bool) (join : String → Bytes → String) (parent : String → String)
    (lower : Bytes → Bytes) (read_at : Image) (image_size : ℤ) where
  -- A set of records that holds what its directories list, in which the directories that a
  -- directory lists, itself and its parent aside, start in later sectors than it does.
  pub record IsForward (Seen : IsoDirectoryRecord → Type 0) : Type 0 where
    pub listed :
        (entry : IsoDirectoryRecord) (children : List IsoDirectoryRecord)
        → Seen entry
        → entry.dir ≡ true
        → read_iso_directory lower read_at image_size entry ≡ ok children
        → All
            (λ child.
              Seen child × (child.special ≡ false → child.dir ≡ true → entry.extent < child.extent))
            children

  module _ (Seen : IsoDirectoryRecord → Type 0) where
    -- The fuel suffices for a record: it is not used up, and for a directory it exceeds the number
    -- of sectors from there to the end of the image.
    pub record HasFuel (fuel : ℕ) (entry : IsoDirectoryRecord) : Type 0 where
      pub seen : Seen entry
      pub more : 0 < fuel
      pub sectors :
          entry.dir ≡ true → pos_part image_size + sector_size < (fuel + entry.extent) * sector_size

    children-HaveFuel :
        (fuel : ℕ) (entry : IsoDirectoryRecord) (children : List IsoDirectoryRecord)
        → 0 < fuel
        → pos_part image_size + sector_size < (suc fuel + entry.extent) * sector_size
        → All (λ child. child.special ≡ false) children
        → All
            (λ child.
              Seen child × (child.special ≡ false → child.dir ≡ true → entry.extent < child.extent))
            children
        → All (HasFuel fuel) children
    children-HaveFuel fuel entry [] more enough named later = tt
    children-HaveFuel fuel entry (child ∷ children) more enough named later = (
      record {
        seen = later.0.0;
        more = more;
        sectors = λ directory.
            let forward = later.0.1 named.0 directory in omega (arith, enough, forward);
      },
      children-HaveFuel fuel entry children more enough named.1 later.1,
    )

  call-Ends : (action : Action) → Ends (call perform join parent lower read_at image_size action).1
  unfolding call is_fuel_error
  call-Ends action = Ends-refuse_if (not (perform action)) operation_failed refl

  safe_iso_path_component-Ends : (name : Bytes) → Ends (safe_iso_path_component name)
  unfolding safe_iso_path_component is_fuel_error
  safe_iso_path_component-Ends name =
      guarded (is_nil name || same_bytes name (b'.' ∷ []) || same_bytes name (b'.' ∷ b'.' ∷ []))
        component_unsafe _ refl
        (guarded (has_byte 0 name || has_byte b'/' name) component_unsafe (ok name) refl
          (Ends-ok name))

  Ends-stop_with :
      {A : Type 0} (result : Result IsoError A) (e : IsoError)
      → Ends result
      → result ≡ err e
      → Ends (stop_with e).1
  unfolding ran_out
  Ends-stop_with (ok a) e h same = cc
  Ends-stop_with (err other) e h same = let eq : other ≡ e = cc in Ends-err e (rw (← eq) h.in_time)

  extract_children-Ends :
      (visit : IsoDirectoryRecord → String → Outcome) (P : IsoDirectoryRecord → Type 0)
      (place : String) (children : List IsoDirectoryRecord)
      → All P children
      → ((entry : IsoDirectoryRecord) (there : String) → P entry → Ends (visit entry there).1)
      → Ends (extract_children perform join parent lower read_at image_size visit place children).1
  unfolding extract_children
  extract_children-Ends visit P place [] all visits = Ends-ok tt
  extract_children-Ends visit P place (child ∷ children) all visits =
      let rest = extract_children-Ends visit P place children all.1 visits in
      elim (Result-cases (safe_iso_path_component child.name)) [
        | inr (e, unsafe) ↦
            rw (extract_children, unsafe)
              (Ends-stop_with (safe_iso_path_component child.name) e
                (safe_iso_path_component-Ends child.name) unsafe)
        | inl (name, safe) ↦
            rw (extract_children, safe)
              (followed_by-Ends (visit child (join place name)) _
                (visits child (join place name) all.0) rest)
      ]

  extract_file-Ends :
      (entry : IsoDirectoryRecord) (place : String)
      → Ends (extract_file perform join parent lower read_at image_size entry place).1
  unfolding extract_file
  extract_file-Ends entry place =
      let mode = permissions 420 entry.mode in
      let run = call perform join parent lower read_at image_size in
      let start = entry.extent * sector_size in
      followed_by-Ends (run (make_directories (parent place) 493)) _ (call-Ends _) (
        followed_by-Ends (run (copy_section place start entry.size mode))
          (run (change_mode place mode)) (call-Ends _) (call-Ends _))

  module _ (Seen : IsoDirectoryRecord → Type 0) (forward : IsForward Seen) where
    record-Ends :
        (fuel : ℕ) (entry : IsoDirectoryRecord) (place : String)
        → HasFuel Seen fuel entry
        → Ends (extract_iso_record perform join parent lower read_at image_size fuel entry place).1
    unfolding extract_iso_record extract_directory
    record-Ends zero entry place enough = absurd (omega (arith, enough.more))
    record-Ends (suc fuel) entry place enough =
        let mode = permissions 493 entry.mode in
        let run = call perform join parent lower read_at image_size in
        let visit = extract_iso_record perform join parent lower read_at image_size fuel in
        elim (Result-cases (validate_iso_extent entry image_size)) [
          | inr (e, outside) ↦
              rw (extract_iso_record, outside)
                (Ends-stop_with (validate_iso_extent entry image_size) e
                  (validate_iso_extent-Ends lower entry image_size) outside)
          | inl (_, inside) ↦ elim (Bool-cases entry.dir) [
            | inr file ↦ rw (extract_iso_record, inside, file) (extract_file-Ends entry place)
            | inl directory ↦
                let sectors = enough.sectors directory in
                let start = starts_inside entry image_size inside in
                let more : 0 < fuel = omega (arith, sectors, start) in
                rw (extract_iso_record, inside, directory)
                  (followed_by-Ends (run (make_directories place mode)) _ (call-Ends _)
                    (elim (Result-cases (read_iso_directory lower read_at image_size entry)) [
                      | inr (e, unread) ↦ rw unread (
                          Ends-stop_with (read_iso_directory lower read_at image_size entry) e
                            (read_iso_directory-Ends lower read_at image_size entry).0 unread)
                      | inl (children, listed) ↦ rw listed (
                          followed_by-Ends
                            (extract_children perform join parent lower read_at image_size visit
                              place children)
                            (run (change_mode place mode))
                            (extract_children-Ends visit (HasFuel Seen fuel) place children
                              (children-HaveFuel Seen fuel entry children more sectors
                                (read_iso_directory-AreNamed lower read_at image_size entry children
                                  listed)
                                (forward.listed entry children enough.seen directory listed))
                              (record-Ends fuel))
                            (call-Ends _))
                    ]))
          ]
        ]

    -- Extraction ends on fuel of more than one above the sectors of the image, whatever the calls
    -- answer, where the directories that a directory lists, itself and its parent aside, start in
    -- later sectors than it does.
    pub extract_iso_record-Ends :
        (fuel : ℕ) (entry : IsoDirectoryRecord) (place : String)
        → Seen entry
        → pos_part image_size + sector_size < fuel * sector_size
        → Ends (extract_iso_record perform join parent lower read_at image_size fuel entry place).1
    extract_iso_record-Ends fuel entry place seen enough =
        record-Ends fuel entry place (record {
          seen = seen;
          more = omega (arith, enough);
          sectors = λ _. omega (arith, enough);
        })
