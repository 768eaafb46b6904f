-- ===== src/Text.antt =====
-- The text operations of Rust's `str` that the bot calls. A text is the list of its code points.
-- The sources slice by byte offsets that `find` and `rfind` return, which are character
-- boundaries, so a slice is the list of the characters on one side of the match.
mod Trim
mod Split
pub mod Number
pub mod Laws
pub mod Words
unfoldable pub use Trim.*
unfoldable pub use Split.*
