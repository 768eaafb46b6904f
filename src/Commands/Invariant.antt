-- ===== src/Commands/Invariant.antt =====
-- To prove a property of every parsed command: prove it of the plain commands, and of the score
-- commands that are built from arguments and tokens within their ranges.
use osubot_rs.Prelude.{
  ◌≤◌, List, [], ◌∷◌, Option, none, some, ℤ, arith, Holds, Holds->>=, Holds-map, length-append,
  Returns, Returns-and_then, length,
}
use osubot_rs.Text.{Text, trim, split_whitespace}
use osubot_rs.Types.{Command}
use osubot_rs.Commands.Args.{CommonArgs, parse_time_token, extract_common_args}
use osubot_rs.Commands.Args.Bounds.{LimitsOk, extract_common_args-LimitsOk}
use osubot_rs.Commands.Scoring.{
  ScoringCmd, RemainingTokens, Flags, flag_time, flag_token, flag_tokens, no_flags, preprocess,
  finish_command, bare_command, with_args, parse_standard_score, parse_found, parse_scoring_command,
  default_limit, parse_remaining_tokens, find_command, prefixes,
}
use osubot_rs.Commands.Scoring.Scanned.{TokensOk, parse_remaining_tokens-TokensOk}
use osubot_rs.Commands.Chain.{simple_forms, ml_form, last_forms, dispatch, normalize, parse_command}
use osubot_rs.Commands.Plain.{IsPlain, simple_forms-IsPlain, ml_form-IsPlain}

abbrev pub FlagsOk : Flags → Type 0
FlagsOk f = length f.times ≤ 2

flag_time-FlagsOk :
    (f : Flags) (t : Text) (ms : Option ℤ) → FlagsOk f → Holds FlagsOk (flag_time f t ms)
unfolding flag_time
flag_time-FlagsOk f t none h = h
flag_time-FlagsOk f t (some ms) h = ground (arith, length-append f.times (ms ∷ []))

flag_token-FlagsOk : (f : Flags) (t : Text) → FlagsOk f → Holds FlagsOk (flag_token f t)
unfolding flag_token
flag_token-FlagsOk f t h = ground (arith, flag_time-FlagsOk f t (parse_time_token t) h)

flag_tokens-FlagsOk : (f : Flags) (ts : List Text) → FlagsOk f → Holds FlagsOk (flag_tokens f ts)
unfolding flag_tokens
flag_tokens-FlagsOk f [] h = h
flag_tokens-FlagsOk f (t ∷ ts) h =
    Holds->>= FlagsOk FlagsOk (flag_token f t) _ (flag_token-FlagsOk f t h)
      (λ f' h'. flag_tokens-FlagsOk f' ts h')

abbrev RestOk : Text × Flags → Type 0
RestOk p = FlagsOk p.1

preprocess-FlagsOk : (cmd : ScoringCmd) (rest : Text) → Holds RestOk (preprocess cmd rest)
preprocess-FlagsOk cmd rest =
    ground (arith, flag_tokens-FlagsOk no_flags (split_whitespace rest) (omega arith))

default_limit_bounds : (cmd : ScoringCmd) → (1 ≤ default_limit cmd) × (default_limit cmd ≤ 200)
unfolding default_limit
default_limit_bounds cmd = ground arith

module _ (P : Command → Type 0) (plain : (c : Command) → IsPlain c → P c)
    (bare : (cmd : ScoringCmd) (q : Option ℤ) → Holds P (bare_command cmd q))
    (finish : (cmd : ScoringCmd) (q : Option ℤ) (f : Flags) (a : CommonArgs) (rt : RemainingTokens)
      → FlagsOk f
      → LimitsOk a.limit a.limit_end
      → TokensOk rt
      → Holds P (finish_command cmd q f a rt)) where
  with_args-Holds :
      (cmd : ScoringCmd) (q : Option ℤ) (r : Option (Text × Flags))
      → Holds RestOk r
      → Returns (Holds P) (with_args cmd q r)
  unfolding with_args
  with_args-Holds cmd q none h = tt
  with_args-Holds cmd q (some (rest, f)) h =
      Returns-and_then (λ a. LimitsOk a.limit a.limit_end) (Holds P)
        (extract_common_args rest (default_limit cmd)) _
        (extract_common_args-LimitsOk rest (default_limit cmd) (default_limit_bounds cmd).0
          (default_limit_bounds cmd).1)
        (λ a limits.
          Holds->>= TokensOk P (parse_remaining_tokens a.rest q) _
            (parse_remaining_tokens-TokensOk a.rest q)
            (λ rt tokens. finish cmd q f a rt h limits tokens))

  parse_standard_score-Holds :
      (rest : Text) (cmd : ScoringCmd) (q : Option ℤ)
      → Returns (Holds P) (parse_standard_score rest cmd q)
  unfolding parse_standard_score
  parse_standard_score-Holds [] cmd q = bare cmd q
  parse_standard_score-Holds (c ∷ rest) cmd q =
      with_args-Holds cmd q (preprocess cmd (c ∷ rest)) (preprocess-FlagsOk cmd (c ∷ rest))

  parse_found-Holds :
      (found : Option (Text × ScoringCmd)) (q : Option ℤ)
      → Returns (Holds (Holds P)) (parse_found found q)
  unfolding parse_found
  parse_found-Holds none q = tt
  parse_found-Holds (some (rest, cmd)) q =
      Returns-and_then (Holds P) (Holds (Holds P)) (parse_standard_score (trim rest) cmd q) _
        (parse_standard_score-Holds (trim rest) cmd q) (λ c h. h)

  parse_scoring_command-Holds :
      (msg : Text) (q : Option ℤ) → Returns (Holds (Holds P)) (parse_scoring_command msg q)
  unfolding parse_scoring_command
  parse_scoring_command-Holds msg q = parse_found-Holds (find_command prefixes msg) q

  last_forms-Holds :
      (msg : Text) (scored : Option (Option Command))
      → Holds (Holds P) scored
      → Holds P (last_forms msg scored)
  unfolding last_forms
  last_forms-Holds msg none h = Holds-map IsPlain P (ml_form msg) plain (ml_form-IsPlain msg)
  last_forms-Holds msg (some c) h = h

  dispatch-Holds :
      (msg : Text) (q : Option ℤ) (simple : Option (Option Command))
      → Holds (Holds IsPlain) simple
      → Returns (Holds P) (dispatch msg q simple)
  unfolding dispatch
  dispatch-Holds msg q (some c) h = Holds-map IsPlain P c plain h
  dispatch-Holds msg q none h =
      Returns-and_then (Holds (Holds P)) (Holds P) (parse_scoring_command msg q) _
        (parse_scoring_command-Holds msg q) (λ scored h. last_forms-Holds msg scored h)

  pub parse_command-Holds : (msg : Text) (q : Option ℤ) → Returns (Holds P) (parse_command msg q)
  unfolding parse_command
  parse_command-Holds msg q =
      dispatch-Holds (normalize msg) q (simple_forms (normalize msg) q)
        (simple_forms-IsPlain (normalize msg) q)
