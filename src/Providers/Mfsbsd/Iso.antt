-- ===== src/Providers/Mfsbsd/Iso.antt =====
-- internal/providers/mfsbsd/iso.go: the records of an ISO 9660 image with Rock Ridge names.
-- A name is a byte sequence, as in the image; strings.ToLower is the argument `lower`. A loop runs
-- on fuel, the number of bytes that it can consume.
pub mod Bytewise
pub mod RockRidge
pub mod Directory
pub mod Extraction
pub mod Termination
pub mod Reading
mod Examples
pub mod Listing
pub mod Depth
pub mod Endless
pub mod Bounds
pub mod Confinement
use bootup.Verify.{Bytes}
use bootup.Common.{Bool, ℕ}

pub data IsoError : Type 0 where
  record_empty record_too_short record_too_long identifier_invalid : IsoError
  entry_length_invalid name_too_short symlink_too_short symlink_component_invalid : IsoError
  symlink_continued symlink_unsupported multi_extent_unsupported : IsoError
  size_negative extent_too_far descriptor_unreadable signature_missing : IsoError
  root_not_directory volume_not_found directory_unreadable record_exceeds : IsoError
  component_unsafe operation_failed out_of_fuel : IsoError

pub record RockRidgeInfo : Type 0 where
  pub name : Bytes
  pub mode : ℕ
  pub symlink : Bytes

pub record IsoDirectoryRecord : Type 0 where
  pub name : Bytes
  pub extent : ℕ
  pub size : ℕ
  pub mode : ℕ
  pub dir : Bool
  pub special : Bool

abbrev pub sector_size : ℕ
sector_size = 2048
