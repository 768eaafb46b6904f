-- ===== src/Commands/Args/Mode.antt =====
-- The `:mode` suffix (osubot-core/src/commands/common.rs).
use osubot_rs.Prelude.{
  ℕ, ◌-◌, List, [], ◌∷◌, ◌++◌, Option, none, some, Run, done, panicked, and_then, leb, ◌==◌,
  if◌then◌else◌,
}
use osubot_rs.Text.{Text, trim, split_whitespace, rsplit_once, byte_len, utf8_width}
use osubot_rs.GameMode.{GameMode, from_digit_str}

-- `&s[n..]` with `n` in bytes: a panic where `n` falls inside a character or passes the end.
unfoldable pub drop_bytes : ℕ → Text → Run Text
drop_bytes n [] = if n == 0 then done [] else panicked
drop_bytes n (c ∷ s) =
    let rest = drop_bytes (n - utf8_width c) s in
    if n == 0 then done (c ∷ s) else if leb (utf8_width c) n then rest else panicked

-- `next().unwrap_or("")`.
abbrev pub first_or_empty : List Text → Text
first_or_empty [] = []
first_or_empty (w ∷ ws) = w

-- The text without the mode, from what stands before the colon and behind the mode token.
abbrev pub without_mode : Text → Text → Text
without_mode before after = trim (trim before ++ (b' ' ∷ trim after))

abbrev pub mode_token : Text → Text
mode_token after_colon = first_or_empty (split_whitespace after_colon)

unfoldable pub extract_mode : Text → Run (Text × Option GameMode)
unfolding rsplit_once drop_bytes split_whitespace
extract_mode rest = elim (rsplit_once b':' rest) [
  | none ↦ done (rest, none)
  | some (before, after_colon) ↦
      let token = mode_token after_colon in
      and_then (drop_bytes (byte_len token) after_colon)
        (λ after. done (without_mode before after, from_digit_str token))
]
