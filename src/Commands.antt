-- ===== src/Commands.antt =====
-- Message parsing (osubot-core/src/commands).
pub mod Args
pub mod Scoring
pub mod MatchListen
pub mod MatchId
pub mod Chain
mod Plain
mod Invariant
pub mod Limits
mod TwoWords
pub mod Ranges
mod Ascii
pub mod Returning
pub mod Panics
