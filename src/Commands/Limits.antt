-- ===== src/Commands/Limits.antt =====
-- What holds of every command that `parse_command` returns (osubot-core/src/commands).
use osubot_rs.Prelude.{
  ℕ, ◌≡◌, ◌≤◌, ◌⊎◌, List, Option, none, some, ℤ, arith, Holds, Returns, length, Bool, true, false,
}
use osubot_rs.Text.{Text}
use osubot_rs.Types.{
  Command, pass, recent, best, today_best, score_on_beatmap, beatmap_preview, beatmap_audio,
}
use osubot_rs.Commands.Args.{CommonArgs}
use osubot_rs.Commands.Args.Bounds.{LimitsOk}
use osubot_rs.Commands.Scoring.{ScoringCmd, RemainingTokens, Flags, bare_command, finish_command}
use osubot_rs.Commands.Scoring.Scanned.{TokensOk, IdsOk}
use osubot_rs.Commands.Chain.{parse_command}
use osubot_rs.Commands.Plain.{IsPlain}
use osubot_rs.Commands.Invariant.{FlagsOk, parse_command-Holds}

-- The position and the end of a range lie in 1 to 200.
abbrev pub LimitsInRange : Command → Type 0
LimitsInRange (pass a) = LimitsOk a.limit a.limit_end
LimitsInRange (recent a) = LimitsOk a.limit a.limit_end
LimitsInRange (best a) = LimitsOk a.limit a.limit_end
LimitsInRange (today_best a) = LimitsOk a.limit a.limit_end
LimitsInRange (score_on_beatmap a) = LimitsOk a.limit a.limit_end
LimitsInRange (beatmap_preview a) = LimitsOk a.limit none
LimitsInRange (beatmap_audio a) = LimitsOk a.limit none
LimitsInRange _ = Unit

-- One id at most, a beatmap id from 201 to 9999999, a score id from 10000000 to 2^64 - 1.
abbrev pub OneId : Option ℕ → Option ℕ → Type 0
OneId beatmap_id score_id = IdsOk beatmap_id score_id × ((beatmap_id ≡ none) ⊎ (score_id ≡ none))

abbrev pub IdsInRange : Command → Type 0
IdsInRange (pass a) = OneId a.beatmap_id a.score_id
IdsInRange (recent a) = OneId a.beatmap_id a.score_id
IdsInRange (best a) = OneId a.beatmap_id a.score_id
IdsInRange (today_best a) = OneId a.beatmap_id a.score_id
IdsInRange (score_on_beatmap a) = OneId a.beatmap_id a.score_id
IdsInRange (beatmap_preview a) = OneId a.beatmap_id a.score_id
IdsInRange (beatmap_audio a) = OneId a.beatmap_id a.score_id
IdsInRange _ = Unit

-- A command for one score has no range.
abbrev pub RangeFree : Bool → Option ℕ → Type 0
RangeFree true limit_end = Unit
RangeFree false limit_end = limit_end ≡ none

-- Times that are given are one or two.
abbrev pub OneOrTwo : Option (List ℤ) → Type 0
OneOrTwo none = Unit
OneOrTwo (some ts) = (1 ≤ length ts) × (length ts ≤ 2)

abbrev pub ShapeOk : Command → Type 0
ShapeOk (pass a) = RangeFree a.is_summary a.limit_end
ShapeOk (recent a) = RangeFree a.is_summary a.limit_end
ShapeOk (best a) = RangeFree a.is_summary a.limit_end
ShapeOk (today_best a) = RangeFree a.is_summary a.limit_end
ShapeOk (score_on_beatmap a) = RangeFree a.is_all a.limit_end
ShapeOk (beatmap_preview a) = OneOrTwo a.times
ShapeOk _ = Unit

plain-LimitsInRange : (c : Command) → IsPlain c → LimitsInRange c
plain-LimitsInRange c h = ground arith

bare-LimitsInRange : (cmd : ScoringCmd) (q : Option ℤ) → Holds LimitsInRange (bare_command cmd q)
unfolding bare_command
bare-LimitsInRange cmd q = ground arith

finish-LimitsInRange :
    (cmd : ScoringCmd) (q : Option ℤ) (f : Flags) (a : CommonArgs) (rt : RemainingTokens)
    → FlagsOk f
    → LimitsOk a.limit a.limit_end
    → TokensOk rt
    → Holds LimitsInRange (finish_command cmd q f a rt)
unfolding finish_command
finish-LimitsInRange cmd q f a rt flags limits tokens = ground arith

-- Whatever message is parsed, the position of the command lies in 1 to 200, and so does the end of
-- its range, if it has one.
pub parse_command-LimitsInRange :
    (msg : Text) (q : Option ℤ) → Returns (Holds LimitsInRange) (parse_command msg q)
parse_command-LimitsInRange =
    parse_command-Holds LimitsInRange plain-LimitsInRange bare-LimitsInRange finish-LimitsInRange

plain-IdsInRange : (c : Command) → IsPlain c → IdsInRange c
plain-IdsInRange c h = ground arith

bare-IdsInRange : (cmd : ScoringCmd) (q : Option ℤ) → Holds IdsInRange (bare_command cmd q)
unfolding bare_command
bare-IdsInRange cmd q = ground arith

finish-IdsInRange :
    (cmd : ScoringCmd) (q : Option ℤ) (f : Flags) (a : CommonArgs) (rt : RemainingTokens)
    → FlagsOk f
    → LimitsOk a.limit a.limit_end
    → TokensOk rt
    → Holds IdsInRange (finish_command cmd q f a rt)
unfolding finish_command
finish-IdsInRange cmd q f a rt flags limits tokens = ground arith

-- Whatever message is parsed, the command never has both a beatmap id and a score id; a beatmap id that it
-- has lies from 201 to 9999999, and a score id from 10000000 to 2^64 - 1.
pub parse_command-IdsInRange :
    (msg : Text) (q : Option ℤ) → Returns (Holds IdsInRange) (parse_command msg q)
parse_command-IdsInRange =
    parse_command-Holds IdsInRange plain-IdsInRange bare-IdsInRange finish-IdsInRange

plain-ShapeOk : (c : Command) → IsPlain c → ShapeOk c
plain-ShapeOk c h = ground arith

bare-ShapeOk : (cmd : ScoringCmd) (q : Option ℤ) → Holds ShapeOk (bare_command cmd q)
unfolding bare_command
bare-ShapeOk cmd q = ground arith

finish-ShapeOk :
    (cmd : ScoringCmd) (q : Option ℤ) (f : Flags) (a : CommonArgs) (rt : RemainingTokens)
    → FlagsOk f
    → LimitsOk a.limit a.limit_end
    → TokensOk rt
    → Holds ShapeOk (finish_command cmd q f a rt)
unfolding finish_command
finish-ShapeOk cmd q f a rt flags limits tokens = ground arith

-- Whatever message is parsed, a command for one score has no range, and a preview command has one
-- or two times if it has any.
pub parse_command-ShapeOk :
    (msg : Text) (q : Option ℤ) → Returns (Holds ShapeOk) (parse_command msg q)
parse_command-ShapeOk = parse_command-Holds ShapeOk plain-ShapeOk bare-ShapeOk finish-ShapeOk
