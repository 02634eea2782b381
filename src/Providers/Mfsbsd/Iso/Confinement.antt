-- ===== src/Providers/Mfsbsd/Iso/Confinement.antt =====
-- Extraction stays below its destination and inside the image.
use bootup.Verify.{Bytes}
use bootup.Providers.Mfsbsd.Iso.{IsoDirectoryRecord, component_unsafe, extent_too_far, sector_size}
use bootup.Providers.Mfsbsd.Iso.Bytewise.{has_byte, same_bytes}
use bootup.Providers.Mfsbsd.Iso.Directory.{Image, read_iso_directory, validate_iso_extent}
use bootup.Providers.Mfsbsd.Iso.Extraction.{
  Action, Outcome, call, change_mode, copy_section, extract_children, extract_directory,
  extract_file, extract_iso_record, followed_by, make_directories, permissions,
  safe_iso_path_component,
}
use bootup.Common.{
  >>-eq-ok, All, All-append, Bool, Bool-cases, List, Result-cases, String, [], arith, err, false,
  inl, inr, is_nil, negsuc, ok, pos, pos_part, refl, refuse_if, refuse_if-eq-ok, suc, zero, ℕ, ℤ,
  ◌*◌, ◌+◌, ◌||◌, ◌∷◌, ◌≡◌, ◌≤◌, ◌⊎◌,
}

-- A name that is one component of a path, and not one that climbs.
pub record IsComponent (name : Bytes) : Type 0 where
  pub not_empty : is_nil name ≡ false
  pub not_dot : same_bytes name (b'.' ∷ []) ≡ false
  pub not_up : same_bytes name (b'.' ∷ b'.' ∷ []) ≡ false
  pub no_slash : has_byte b'/' name ≡ false
  pub no_zero : has_byte 0 name ≡ false

-- A name that is accepted as a component is one, and is kept.
pub safe_iso_path_component-IsComponent :
    (name result : Bytes)
    → safe_iso_path_component name ≡ ok result
    → IsComponent name × (name ≡ result)
unfolding safe_iso_path_component
safe_iso_path_component-IsComponent name result h =
    let (_, dots, h1) =
      >>-eq-ok
        (refuse_if
          (is_nil name || same_bytes name (b'.' ∷ []) || same_bytes name (b'.' ∷ b'.' ∷ []))
          component_unsafe)
        _ h in
    let (_, separators, same) =
      >>-eq-ok (refuse_if (has_byte 0 name || has_byte b'/' name) component_unsafe) _ h1 in
    let d = refuse_if-eq-ok _ _ dots in
    let s = refuse_if-eq-ok _ _ separators in
    (
      record {
        not_empty = ground (arith, d);
        not_dot = ground (arith, d);
        not_up = ground (arith, d);
        no_slash = ground (arith, s);
        no_zero = ground (arith, s);
      },
      cc,
    )

module _ (perform : Action → Bool) (join : String → Bytes → String) (parent : String → String)
    (lower : Bytes → Bytes) (read_at : Image) (image_size : ℤ) where
  -- A path that is reached from the destination by components.
  pub data Below (dest : String) : String → Type 0 where
    here : Below dest dest
    child_of :
        {place : String} {name : Bytes}
        → Below dest place
        → IsComponent name
        → Below dest (join place name)

  -- A call on a path below the destination, or that makes the directory of such a path; a copied
  -- section lies in the image.
  pub IsConfined : String → Action → Type 0
  IsConfined dest (make_directories path mode) =
      Below dest path ⊎ ((place : String) × Below dest place × (path ≡ parent place))
  IsConfined dest (copy_section path start size mode) =
      Below dest path × (start + size ≤ pos_part image_size)
  IsConfined dest (change_mode path mode) = Below dest path

  module _ (dest : String) where
    -- every call that an extraction makes
    pub AreConfined : Outcome → Type 0
    AreConfined outcome = All (IsConfined dest) outcome.0

    followed_by-AreConfined :
        (first second : Outcome)
        → AreConfined first
        → AreConfined second
        → AreConfined (followed_by first second)
    unfolding AreConfined
    followed_by-AreConfined (made, err e) (more, result) h k = h
    followed_by-AreConfined (made, ok _) (more, result) h k =
        All-append (IsConfined dest) made more h k

    extract_file-AreConfined :
        (entry : IsoDirectoryRecord) (place : String)
        → Below dest place
        → entry.extent * sector_size + entry.size ≤ pos_part image_size
        → AreConfined (extract_file perform join parent lower read_at image_size entry place)
    unfolding extract_file call AreConfined IsConfined
    extract_file-AreConfined entry place below inside =
        let mode = permissions 420 entry.mode in
        let run = call perform join parent lower read_at image_size in
        let start = entry.extent * sector_size in
        followed_by-AreConfined (run (make_directories (parent place) 493)) _
          (inr (place, below, refl), tt)
          (followed_by-AreConfined (run (copy_section place start entry.size mode))
            (run (change_mode place mode)) ((below, inside), tt) (below, tt))

    extract_children-AreConfined :
        (visit : IsoDirectoryRecord → String → Outcome) (place : String)
        (children : List IsoDirectoryRecord)
        → Below dest place
        → ((entry : IsoDirectoryRecord) (at_place : String)
            → Below dest at_place
            → AreConfined (visit entry at_place))
        → AreConfined
            (extract_children perform join parent lower read_at image_size visit place children)
    unfolding extract_children AreConfined
    extract_children-AreConfined visit place [] below visits = tt
    extract_children-AreConfined visit place (child ∷ children) below visits =
        let rest = extract_children-AreConfined visit place children below visits in
        elim (Result-cases (safe_iso_path_component child.name)) [
          | inr (e, unsafe) ↦ rw (extract_children, unsafe) tt
          | inl (name, safe) ↦
              let (component, same) = safe_iso_path_component-IsComponent child.name name safe in
              let further : Below dest (join place name) = rw (← same) (child_of below component) in
              rw (extract_children, safe)
                (followed_by-AreConfined (visit child (join place name)) _
                  (visits child (join place name) further) rest)
        ]

    validate_iso_extent-inside :
        (entry : IsoDirectoryRecord) (size : ℤ) {u : Unit {0}}
        → validate_iso_extent entry size ≡ ok u
        → entry.extent * sector_size + entry.size ≤ pos_part size
    unfolding validate_iso_extent
    validate_iso_extent-inside entry (negsuc n) h = cc
    validate_iso_extent-inside entry (pos n) h =
        let fits = refuse_if-eq-ok _ extent_too_far h in ground (arith, fits)

    extract_directory-AreConfined :
        (visit : IsoDirectoryRecord → String → Outcome) (entry : IsoDirectoryRecord)
        (place : String)
        → Below dest place
        → ((entry : IsoDirectoryRecord) (at_place : String)
            → Below dest at_place
            → AreConfined (visit entry at_place))
        → AreConfined
            (extract_directory perform join parent lower read_at image_size visit entry place)
    unfolding extract_directory call AreConfined IsConfined
    extract_directory-AreConfined visit entry place below visits =
        let mode = permissions 493 entry.mode in
        let run = call perform join parent lower read_at image_size in
        followed_by-AreConfined (run (make_directories place mode)) _ (inl below, tt)
          (elim (Result-cases (read_iso_directory lower read_at image_size entry)) [
            | inr (e, unread) ↦ rw unread tt
            | inl (children, listed) ↦ rw listed (
                followed_by-AreConfined
                  (extract_children perform join parent lower read_at image_size visit place
                    children)
                  (run (change_mode place mode))
                  (extract_children-AreConfined visit place children below visits) (below, tt))
          ])

    -- Extraction, with any fuel and whatever the calls answer, from a path that is reached from the
    -- destination by components that do not climb on, only makes, writes and changes paths that are
    -- so reached, and the directories of such paths; and it only copies sections that lie in the
    -- image.
    pub extract_iso_record-AreConfined :
        (fuel : ℕ) (entry : IsoDirectoryRecord) (place : String)
        → Below dest place
        → AreConfined
            (extract_iso_record perform join parent lower read_at image_size fuel entry place)
    unfolding extract_iso_record AreConfined
    extract_iso_record-AreConfined zero entry place below = tt
    extract_iso_record-AreConfined (suc fuel) entry place below =
        elim (Result-cases (validate_iso_extent entry image_size)) [
          | inr (e, outside) ↦ rw (extract_iso_record, outside) tt
          | inl (_, inside) ↦ elim (Bool-cases entry.dir) [
            | inl directory ↦
                rw (extract_iso_record, inside, directory)
                  (extract_directory-AreConfined
                    (extract_iso_record perform join parent lower read_at image_size fuel) entry
                    place below (extract_iso_record-AreConfined fuel))
            | inr file ↦
                rw (extract_iso_record, inside, file)
                  (extract_file-AreConfined entry place below
                    (validate_iso_extent-inside entry image_size inside))
          ]
        ]
