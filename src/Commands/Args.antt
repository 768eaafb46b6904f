-- ===== src/Commands/Args.antt =====
-- The arguments of the score commands (osubot-core/src/commands/common.rs), passed on from the
-- children.
mod Limit
mod Mode
mod Suffix
mod Common
pub mod Bounds
unfoldable pub use Limit.*
unfoldable pub use Mode.*
unfoldable pub use Suffix.*
unfoldable pub use Common.*
