-- ===== src/Tests.antt =====
-- Runs of the definitions at concrete inputs, and each theorem at an input that meets its
-- hypotheses.
mod Parsing
mod Listening
mod Sharing
mod Filters
mod Remembered
mod Polls
mod Starts
mod Targeting
mod Settings
mod Listens
mod Bindings
mod Updates
mod Requests
mod Guarded
mod Grades
