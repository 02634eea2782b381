-- ===== src/Text.antt =====
-- What the program uses of Go's `strings`, `unicode`, `encoding/hex`, `path` and `sort` packages.
-- A Go string that is valid UTF-8 is the sequence of its runes.
mod Runes
pub mod Trim
pub mod Search
pub mod Hex
pub mod Cleaning
pub mod Order
mod Dates
pub mod Fields
mod Slashes
unfoldable pub use Runes.*
unfoldable pub use Trim.*
unfoldable pub use Search.*
unfoldable pub use Hex.*
unfoldable pub use Cleaning.*
unfoldable pub use Order.*
unfoldable pub use Dates.*
unfoldable pub use Fields.*
unfoldable pub use Slashes.*
