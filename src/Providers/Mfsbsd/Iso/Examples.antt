-- ===== src/Providers/Mfsbsd/Iso/Examples.antt =====
-- Images on which the theorems about the ISO reader are used.
use Prim.Native.String
use bootup.Verify.{Bytes}
use bootup.Text.Hex.Laws.{IsByte}
use bootup.Providers.Mfsbsd.Iso.{IsoDirectoryRecord, out_of_fuel}
use bootup.Providers.Mfsbsd.Iso.RockRidge.{parse_iso_directory_record}
use bootup.Providers.Mfsbsd.Iso.Directory.{
  Image, read_iso_directory, read_primary_volume_root, validate_iso_extent,
}
use bootup.Providers.Mfsbsd.Iso.Extraction.{Action, extract_iso_record, safe_iso_path_component}
use bootup.Providers.Mfsbsd.Iso.Termination.{Ends}
use bootup.Providers.Mfsbsd.Iso.Reading.{read_iso_directory-Ends}
use bootup.Providers.Mfsbsd.Iso.Bounds.{IsSection, validate_iso_extent-IsSection}
use bootup.Providers.Mfsbsd.Iso.Confinement.{AreConfined, extract_iso_record-AreConfined, here}
use bootup.Providers.Mfsbsd.Iso.Endless.{extract_iso_record-out_of_fuel}
use bootup.Providers.Mfsbsd.Iso.Depth.{IsForward, extract_iso_record-Ends}
use bootup.Common.{
  All, Bool, String, [], ap, arith, eqb, err, false, if◌then◌else◌, inl, inr, none, ok, pos, refl,
  some, suc, sym, true, zero, ℕ, ℤ, ◌++◌, ◌∷◌, ◌≡◌, ◌⊎◌,
}

abbrev zeros : ℕ → Bytes
zeros zero = []
zeros (suc n) = 0 ∷ zeros n

-- a directory that lists itself: its record, "a", at the start of the image, as long as the record
abbrev bytes : Bytes
bytes = 34 ∷ zeros 9 ++ 34 ∷ zeros 14 ++ 2 ∷ zeros 6 ++ 1 ∷ b'a' ∷ []

abbrev entry : IsoDirectoryRecord
entry = record { name = b'a' ∷ []; extent = 0; size = 34; mode = 0; dir = true; special = false }

abbrev lower : Bytes → Bytes
lower name = name

abbrev image : Image
image _ _ = some bytes

abbrev perform : Action → Bool
perform _ = true

abbrev join_name : String → Bytes → String
join_name dir _ = String.◌++◌ dir "/a"

abbrev parent : String → String
parent path = path

abbrev image_size : ℤ
image_size = pos 2048

parsed : parse_iso_directory_record lower bytes ≡ ok entry
unfolding parse_iso_directory_record
parsed = refl

listed : read_iso_directory lower image image_size entry ≡ ok (entry ∷ [])
unfolding read_iso_directory
listed = refl

inside : validate_iso_extent entry image_size ≡ ok tt
unfolding validate_iso_extent
inside = refl

safe : safe_iso_path_component (b'a' ∷ []) ≡ ok (b'a' ∷ [])
unfolding safe_iso_path_component
safe = refl

bytes_small : All IsByte bytes
bytes_small = omega arith

validate_iso_extent-IsSection_example : IsSection entry image_size
validate_iso_extent-IsSection_example =
    validate_iso_extent-IsSection lower bytes entry image_size bytes_small parsed inside

read_iso_directory-Ends_example :
    (Ends (read_iso_directory lower image image_size entry))
    × (Ends (read_primary_volume_root lower image image_size))
read_iso_directory-Ends_example = read_iso_directory-Ends lower image image_size entry

extract_iso_record-AreConfined_example :
    AreConfined perform join_name parent lower image image_size "d"
      (extract_iso_record perform join_name parent lower image image_size 3 entry "d")
extract_iso_record-AreConfined_example =
    extract_iso_record-AreConfined perform join_name parent lower image image_size "d" 3 entry "d"
      here

extract_iso_record-out_of_fuel_example :
    (extract_iso_record perform join_name parent lower image image_size 3 entry "d").1
    ≡ err out_of_fuel
extract_iso_record-out_of_fuel_example =
    extract_iso_record-out_of_fuel perform join_name parent lower image image_size entry []
      (b'a' ∷ []) 3 "d" (λ _. refl) inside refl safe listed

-- An image of two sectors: a root with itself, its parent, a directory "s" and a file "f" in its
-- listing, and the directory, which lists itself and its parent.
abbrev record_bytes : ℕ → ℕ → ℕ → ℕ → Bytes
record_bytes extent size flags id =
    34 ∷ 0 ∷ extent ∷ zeros 7 ++ size ∷ zeros 14 ++ flags ∷ zeros 6 ++ 1 ∷ id ∷ []

abbrev root_bytes : Bytes
root_bytes =
    record_bytes 0 136 2 0
    ++ record_bytes 0 136 2 1
    ++ record_bytes 1 68 2 b's'
    ++ record_bytes 0 10 0 b'f'

abbrev sub_bytes : Bytes
sub_bytes = record_bytes 1 68 2 0 ++ record_bytes 0 136 2 1

abbrev tree_image : Image
tree_image offset _ =
    if eqb offset 0 then some root_bytes else if eqb offset 2048 then some sub_bytes else none

abbrev tree_size : ℤ
tree_size = pos 4096

abbrev root : IsoDirectoryRecord
root = record { name = b'.' ∷ []; extent = 0; size = 136; mode = 0; dir = true; special = true }

abbrev sub : IsoDirectoryRecord
sub = record { name = b's' ∷ []; extent = 1; size = 68; mode = 0; dir = true; special = false }

abbrev file : IsoDirectoryRecord
file = record { name = b'f' ∷ []; extent = 0; size = 10; mode = 0; dir = false; special = false }

root_listed : read_iso_directory lower tree_image tree_size root ≡ ok (sub ∷ file ∷ [])
unfolding read_iso_directory
root_listed = refl

sub_listed : read_iso_directory lower tree_image tree_size sub ≡ ok []
unfolding read_iso_directory
sub_listed = refl

abbrev InTree : IsoDirectoryRecord → Type 0
InTree entry = (entry ≡ root) ⊎ (entry ≡ sub) ⊎ (entry ≡ file)

tree_forward : IsForward perform join_name parent lower tree_image tree_size InTree
tree_forward = record {
  listed = λ entry children seen directory read. elim seen [
    | inl is_root ↦
        let at_root = rw is_root at read in
        let same : (sub ∷ file ∷ []) ≡ children = cc (root_listed, at_root) in
        let eq : 0 ≡ entry.extent = ap (λ e. e.extent) (sym is_root) in
        rw (← same, ← eq) ((inr (inl refl), λ _ _. omega arith), ((inr (inr refl), λ _ d. cc), tt))
    | inr (inl is_sub) ↦
        let at_sub = rw is_sub at read in
        let same : [] ≡ children = cc (sub_listed, at_sub) in rw (← same) tt
    | inr (inr is_file) ↦ let none_listed = rw is_file at directory in cc
  ];
}

extract_iso_record-Ends_example :
    Ends (extract_iso_record perform join_name parent lower tree_image tree_size 4 root "d").1
extract_iso_record-Ends_example =
    extract_iso_record-Ends perform join_name parent lower tree_image tree_size InTree tree_forward
      4 root "d" (inl refl) (omega arith)
