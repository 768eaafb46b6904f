-- ===== src/Lib.antt =====
-- A model of osubot-rs, a QQ bot that answers queries about osu! players, with the theorems that
-- make its parts correct.
--
-- Parts, and how they interact. A message goes through parse_command (osubot-core/src/commands) and
-- becomes a Command (osubot-core/src/types.rs), whose modes are those of
-- osubot-game-mode/src/lib.rs. The command `!ml` starts a match listener, which polls the API and hands
-- each response and the stored cursor to process_events (osubot/src/match_listener/state.rs); the
-- notifications are sent and the new cursor is stored.
--
-- Files.
-- - Prelude: shared notation, tests, lists, integers, and the types of fallible calls. Run is a call
--   that may panic.
-- - Text: the operations of Rust's str that the code calls. A text is the list of its code points;
--   `find` and a slice are one function that gives the text before and behind a match. Where the code
--   slices at an offset that is computed otherwise, the offset is in bytes (Commands.Args.Mode).
--   Text.Number is str::parse for u32, u64 and i64.
-- - GameMode: osubot-game-mode/src/lib.rs.
-- - Types: osubot-core/src/types.rs.
-- - Commands.Args, Commands.Scoring: osubot-core/src/commands/common.rs and scoring.rs.
-- - Commands.MatchListen, Commands.Chain: osubot-core/src/commands/mod.rs. The forms of a message are
--   functions into Option (Option Command): `some` is a return of the source, `none` goes on.
--   An early return inside a loop is `none` of the loop's state.
-- - MatchListener: osubot/src/match_listener/state.rs and the event types of
--   osubot-core/src/api/match_api.rs. The loop over the events is a recursion over the list, a round
--   gives `continue` or `break`.
-- - Dedup: osubot-core/src/dedup.rs, as a step relation on the calls of run_or_wait and their tasks.
--   Calls are numbered, and so are the entries that an Arc points to. What the executor may choose
--   (who moves next, how a task ends, whether a call is dropped while it waits) is a choice of steps.
-- - MatchStart: initial_cursor_from_response of osubot/src/command/match_listen.rs; with as_i64 and
--   as_u64 written out, since the database holds signed ids.
-- - MatchStart.Actions: the actions of `!ml` of the same file, on the table of listeners. The times at
--   which the statements of a call run, those that fail and the answer of the API are a record Attempt.
-- - Poller: process_one of osubot/src/match_listener/poller.rs, around MatchListener; Poller.Stored has
--   its statements and the cycle over the listeners that are due.
-- - Database: osubot-core/src/storage.rs. A table is the list of its rows, and a statement is a
--   function on it that is given the times it reads; an upsert is a function of the row with the key,
--   as ON CONFLICT tells. Database.Listeners is the table of match listeners, Database.Bindings those of
--   bindings and users, Database.Pending those of codes and of unbindings that wait. LOWER of the
--   database is a parameter.
-- - Scheduler: osubot/src/scheduler.rs, with the tables of Database.Schedule. The answers for a pair of a
--   user and a mode are a record EvalOutside. Durations and sums of times are those of chrono,
--   a parameter; a tick gives the tables and whether it panicked.
-- - Accounts: osubot/src/command/settings.rs, with handle_irc_message and resolve_binding of
--   osubot/src/main.rs, over these tables. to_lowercase is a parameter.
-- - Http: the classes of errors, the delays and the repetitions of osubot-core/src/api/http.rs and oauth.rs, for
--   one call at a time. The answers, the time and the random numbers are functions of the number of the
--   requests made before. A call that may wait is made of rounds: at most 5, of 6 rounds each.
-- - Ssrf: osubot-core/src/ssrf.rs. Url::parse and the parser of IP addresses are parameters.
-- - StableGrade: get_stable_rank of osubot-core/src/api/stable_grade.rs. The counts are natural numbers, so that
--   negative counts and the overflow of an i64 are left out.
-- - Targets: whom a command is about and in which mode (osubot/src/command/mod.rs), and the filters and
--   switches of groups (osubot/src/config.rs). What the database answers is a parameter.
-- - Validation: Config::validate of osubot/src/config.rs.
-- - ScoreFilter: osubot/src/score_filter.rs, without the keys that compare floats or strings.
-- - LastBeatmap: osubot/src/last_beatmap_cache.rs.
-- - Tests: runs, and each theorem at a concrete input.
--
-- Numbers are natural numbers and integers; `as u32` is written out as a remainder. All recursion is
-- structural, so no fuel is needed.
--
-- Not modelled: the network, the database itself and its other tables, rendering,
-- the preview of beatmaps (a port of another project), the plugin host, the WebSocket loop, and
-- floating point computations. Logging is left out everywhere.
pub mod Accounts
pub mod Commands
pub mod Database
pub mod Dedup
pub mod GameMode
pub mod Http
pub mod LastBeatmap
pub mod MatchListener
pub mod MatchStart
pub mod Poller
pub mod Prelude
pub mod Scheduler
pub mod ScoreFilter
pub mod Ssrf
pub mod StableGrade
pub mod Targets
mod Tests
pub mod Text
pub mod Types
pub mod Validation
