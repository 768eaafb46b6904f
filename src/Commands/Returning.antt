-- ===== src/Commands/Returning.antt =====
-- The parser on ASCII messages (osubot-core/src/commands).
use osubot_rs.Prelude.{
  ℕ, ◌≤◌, ◌≡◌, refl, List, [], ◌∷◌, Option, none, some, ℤ, arith, All, length, Holds, Holds->>=,
  All-append, Run, done, panicked, Total, Total-and_then, Option-cases, inl, inr, Bool-cases,
}
use osubot_rs.Text.{Text, codes, trim, split_whitespace, rsplit_once, byte_len}
use osubot_rs.Types.{Command}
use osubot_rs.Commands.Args.{
  drop_bytes, first_or_empty, mode_token, extract_mode, extract_common_args,
}
use osubot_rs.Commands.Scoring.{
  ScoringCmd, Flags, flag_time, flag_token, flag_tokens, no_flags, preprocess, is_preview,
  with_args, parse_standard_score, find_command, prefixes, parse_found, parse_scoring_command,
  default_limit,
}
use osubot_rs.Commands.Args.{parse_time_token}
use osubot_rs.Commands.Chain.{simple_forms, dispatch, normalize, parse_command}
use osubot_rs.Commands.Ascii.{
  Ascii, AllAscii, trim-Ascii, replace-Ascii, strip_prefix-Ascii, split_whitespace-AllAscii,
  rsplit_once-BothAscii, join-Ascii, drop_bytes-Ascii, byte_len-Ascii, split_whitespace-AllShort,
}

abbrev Anything {ℓ} : {A : Type ℓ} → A → Type 0
Anything a = Unit

mode_token-Ascii : (s : Text) → Ascii s → Ascii (mode_token s)
mode_token-Ascii s h = first (split_whitespace s) (split_whitespace-AllAscii s h)
  where
    first : (ws : List Text) → AllAscii ws → Ascii (first_or_empty ws)
    first [] k = tt
    first (w ∷ ws) k = k.0

mode_token_short : (s : Text) → length (mode_token s) ≤ length s
mode_token_short s = first (split_whitespace s) (split_whitespace-AllShort s)
  where
    first :
        (ws : List Text) → All (λ w. length w ≤ length s) ws → length (first_or_empty ws) ≤ length s
    first [] k = omega arith
    first (w ∷ ws) k = k.0

extract_mode-Ascii : (s : Text) → Ascii s → Total Anything (extract_mode s)
unfolding extract_mode
extract_mode-Ascii s h = elim (Option-cases (rsplit_once b':' s)) [
  | inl e ↦ rw (e, extract_mode) tt
  | inr ((before, after_colon), e) ↦
      let both = rw e at (rsplit_once-BothAscii b':' s h) in
      rw (e, extract_mode)
        (Total-and_then Ascii Anything (drop_bytes (byte_len (mode_token after_colon)) after_colon)
          _
          (drop_bytes-Ascii (byte_len (mode_token after_colon)) after_colon
            (rw (byte_len-Ascii (mode_token after_colon) (mode_token-Ascii after_colon both.1))
              (mode_token_short after_colon))
            both.1)
          (λ a k. tt))
]

extract_common_args-Ascii : (s : Text) (d : ℕ) → Ascii s → Total Anything (extract_common_args s d)
unfolding extract_common_args
extract_common_args-Ascii s d h =
    Total-and_then Anything Anything (extract_mode s) _ (extract_mode-Ascii s h) (λ a k. tt)

abbrev FilteredAscii : Flags → Type 0
FilteredAscii f = AllAscii f.filtered

flag_time-FilteredAscii :
    (f : Flags) (t : Text) (ms : Option ℤ)
    → Ascii t
    → FilteredAscii f
    → Holds FilteredAscii (flag_time f t ms)
unfolding flag_time
flag_time-FilteredAscii f t none a h = All-append Ascii f.filtered (t ∷ []) h (a, tt)
flag_time-FilteredAscii f t (some ms) a h = ground arith

flag_token-FilteredAscii :
    (f : Flags) (t : Text) → Ascii t → FilteredAscii f → Holds FilteredAscii (flag_token f t)
unfolding flag_token
flag_token-FilteredAscii f t a h =
    ground (arith, flag_time-FilteredAscii f t (parse_time_token t) a h)

flag_tokens-FilteredAscii :
    (f : Flags) (ts : List Text)
    → AllAscii ts
    → FilteredAscii f
    → Holds FilteredAscii (flag_tokens f ts)
unfolding flag_tokens
flag_tokens-FilteredAscii f [] a h = h
flag_tokens-FilteredAscii f (t ∷ ts) a h =
    Holds->>= FilteredAscii FilteredAscii (flag_token f t) _ (flag_token-FilteredAscii f t a.0 h)
      (λ f' h'. flag_tokens-FilteredAscii f' ts a.1 h')

abbrev FirstAscii {ℓ} : {A : Type ℓ} → Text × A → Type 0
FirstAscii p = Ascii p.0

preprocess-FirstAscii :
    (cmd : ScoringCmd) (rest : Text) → Ascii rest → Holds FirstAscii (preprocess cmd rest)
preprocess-FirstAscii cmd rest a = elim (Bool-cases (is_preview cmd)) [
  | inl e ↦ rw e (
      Holds->>= FilteredAscii FirstAscii (flag_tokens no_flags (split_whitespace rest)) _
        (flag_tokens-FilteredAscii no_flags (split_whitespace rest)
          (split_whitespace-AllAscii rest a) tt)
        (λ f h. join-Ascii (codes " ") f.filtered (omega arith) h))
  | inr e ↦ rw e a
]

with_args-Ascii :
    (cmd : ScoringCmd) (q : Option ℤ) (r : Option (Text × Flags))
    → Holds FirstAscii r
    → Total Anything (with_args cmd q r)
unfolding with_args
with_args-Ascii cmd q none a = tt
with_args-Ascii cmd q (some (rest, f)) a =
    Total-and_then Anything Anything (extract_common_args rest (default_limit cmd)) _
      (extract_common_args-Ascii rest (default_limit cmd) a) (λ args h. tt)

parse_standard_score-Ascii :
    (rest : Text) (cmd : ScoringCmd) (q : Option ℤ)
    → Ascii rest
    → Total Anything (parse_standard_score rest cmd q)
unfolding parse_standard_score
parse_standard_score-Ascii [] cmd q a = tt
parse_standard_score-Ascii (c ∷ rest) cmd q a =
    with_args-Ascii cmd q (preprocess cmd (c ∷ rest)) (preprocess-FirstAscii cmd (c ∷ rest) a)

find_command-FirstAscii :
    (table : List (Text × ScoringCmd)) (msg : Text)
    → Ascii msg
    → Holds FirstAscii (find_command table msg)
unfolding find_command
find_command-FirstAscii [] msg a = tt
find_command-FirstAscii ((prefix, cmd) ∷ more) msg a =
    ground (arith, strip_prefix-Ascii prefix msg a, find_command-FirstAscii more msg a)

parse_found-Ascii :
    (found : Option (Text × ScoringCmd)) (q : Option ℤ)
    → Holds FirstAscii found
    → Total Anything (parse_found found q)
unfolding parse_found
parse_found-Ascii none q a = tt
parse_found-Ascii (some (rest, cmd)) q a =
    Total-and_then Anything Anything (parse_standard_score (trim rest) cmd q) _
      (parse_standard_score-Ascii (trim rest) cmd q (trim-Ascii rest a)) (λ c h. tt)

normalize-Ascii : (msg : Text) → Ascii msg → Ascii (normalize msg)
unfolding normalize
normalize-Ascii msg a = replace-Ascii _ b'!' _ (omega arith) (
    replace-Ascii _ b',' _ (omega arith)
      (replace-Ascii _ b'~' (trim msg) (omega arith) (trim-Ascii msg a)))

dispatch-Ascii :
    (msg : Text) (q : Option ℤ) (simple : Option (Option Command))
    → Ascii msg
    → Total Anything (dispatch msg q simple)
unfolding dispatch parse_scoring_command
dispatch-Ascii msg q (some c) a = tt
dispatch-Ascii msg q none a =
    Total-and_then Anything Anything (parse_scoring_command msg q) _
      (parse_found-Ascii (find_command prefixes msg) q (find_command-FirstAscii prefixes msg a))
      (λ scored h. tt)

Total-done : {A : Type 0} (m : Run A) → Total Anything m → (r : A) × (m ≡ done r)
Total-done (done a) h = (a, refl)
Total-done panicked h = absurd h

-- On a message of ASCII characters the parser returns: it never panics.
pub parse_command-Ascii :
    (msg : Text) (q : Option ℤ) → Ascii msg → (r : Option Command) × (parse_command msg q ≡ done r)
unfolding parse_command
parse_command-Ascii msg q a =
    Total-done (dispatch (normalize msg) q (simple_forms (normalize msg) q))
      (dispatch-Ascii (normalize msg) q (simple_forms (normalize msg) q) (normalize-Ascii msg a))
