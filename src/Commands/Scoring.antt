-- ===== src/Commands/Scoring.antt =====
-- The score commands (osubot-core/src/commands/scoring.rs), passed on from the children.
mod Tokens
mod Build
mod Parse
pub mod Scanned
unfoldable pub use Tokens.*
unfoldable pub use Build.*
unfoldable pub use Parse.*
