-- ===== src/Commands/Ranges.antt =====
-- A range and a number behind it, in a command for a list of scores (`parse_standard_score` of
-- osubot-core/src/commands/scoring.rs).
use osubot_rs.Prelude.{
  ℕ, ◌≤◌, ◌≡◌, refl, ◌∙◌, ap, Bool, true, false, ◌||◌, ◌==◌, [], ◌∷◌, ◌++◌, Option, none, some, ℤ,
  arith, done,
}
use osubot_rs.Text.{Text, is_whitespace, is_digit, trim, split_whitespace, strip_prefix}
use osubot_rs.Text.Laws.{free_of, free_of-append}
use osubot_rs.Text.Words.{split_whitespace-words, split_once_free, split_once-append, trim_words}
use osubot_rs.Text.Number.{u32_max, u64_max}
use osubot_rs.Text.Number.Digits.{all_digits, value_from, parse_unsigned-value}
use osubot_rs.Commands.Scoring.{
  ScoringCmd, is_single, is_audio, is_preview, no_flags, default_limit, finish_command, with_args,
  preprocess, parse_standard_score, RemainingTokens, parse_remaining_tokens,
}
use osubot_rs.Types.{Command, pass, recent, best, today_best, score_on_beatmap}
use osubot_rs.Commands.Args.{extract_common_args, clamp, try_parse_range}
use osubot_rs.Commands.TwoWords.{
  digits_free, plain_args, extract_common_args-words, IsPlainWord, scan_tokens-words,
  parse_remaining_tokens-words,
}

no_prefix :
    (k : ℕ) (p : Text) (c : ℕ) (s : Text) → (c == k) ≡ false → strip_prefix (k ∷ p) (c ∷ s) ≡ none
unfolding strip_prefix
no_prefix k p c s h = ground arith

-- A word that begins with a digit, of digits and dashes.
plain_word :
    (c : ℕ) (w : Text)
    → is_digit c ≡ true
    → ((p : ℕ → Bool)
        → ((c : ℕ) → is_digit c ≡ true → p c ≡ false)
        → p b'-' ≡ false
        → free_of p (c ∷ w) ≡ true)
    → IsPlainWord (c ∷ w)
plain_word c w d free = record {
  no_qq = no_prefix b'q' _ c w (ground arith);
  no_at = no_prefix b'@' _ c w (ground arith);
  no_plus = no_prefix b'+' _ c w (ground arith);
  no_equals = free (λ c. c == b'=') (λ c h. ground arith) refl;
  no_more = free (λ c. c == b'>') (λ c h. ground arith) refl;
  no_less = free (λ c. c == b'<') (λ c h. ground arith) refl;
  no_mark = free (λ c. c == b'!') (λ c h. ground arith) refl;
}

preprocess-plain :
    (cmd : ScoringCmd) (t : Text) → is_preview cmd ≡ false → preprocess cmd t ≡ some (t, no_flags)
preprocess-plain cmd t p = rw (p) refl

with_args-read :
    (cmd : ScoringCmd) (q : Option ℤ) (t : Text) (d : ℕ) (rt : RemainingTokens)
    → extract_common_args t (default_limit cmd) ≡ done (plain_args t d)
    → parse_remaining_tokens t q ≡ some rt
    → with_args cmd q (some (t, no_flags))
      ≡ done (finish_command cmd q no_flags (plain_args t d) rt)
unfolding with_args
with_args-read cmd q t d rt e r = rw (with_args, e, r) refl

parse_standard_score-read :
    (cmd : ScoringCmd) (q : Option ℤ) (c : ℕ) (t : Text) (d : ℕ) (rt : RemainingTokens)
    → is_preview cmd ≡ false
    → extract_common_args (c ∷ t) (default_limit cmd) ≡ done (plain_args (c ∷ t) d)
    → parse_remaining_tokens (c ∷ t) q ≡ some rt
    → parse_standard_score (c ∷ t) cmd q
      ≡ done (finish_command cmd q no_flags (plain_args (c ∷ t) d) rt)
unfolding parse_standard_score
parse_standard_score-read cmd q c t d rt p e r =
    ap (with_args cmd q) (preprocess-plain cmd (c ∷ t) p) ∙ with_args-read cmd q (c ∷ t) d rt e r

module _ (a0 : ℕ) (a : Text) (b0 : ℕ) (b : Text) (n0 : ℕ) (n : Text)
    (da : all_digits (a0 ∷ a) ≡ true) (db : all_digits (b0 ∷ b) ≡ true)
    (dn : all_digits (n0 ∷ n) ≡ true) where
  range_free :
      (p : ℕ → Bool)
      → ((c : ℕ) → is_digit c ≡ true → p c ≡ false)
      → p b'-' ≡ false
      → free_of p ((a0 ∷ a) ++ (b'-' ∷ b0 ∷ b)) ≡ true
  range_free p h k =
      free_of-append p (a0 ∷ a) (b'-' ∷ b0 ∷ b) (digits_free p (a0 ∷ a) h da)
        (rw (k) (digits_free p (b0 ∷ b) h db))

  whole_free :
      (p : ℕ → Bool)
      → ((c : ℕ) → is_digit c ≡ true → p c ≡ false)
      → p b'-' ≡ false
      → p b' ' ≡ false
      → free_of p (((a0 ∷ a) ++ (b'-' ∷ b0 ∷ b)) ++ (b' ' ∷ n0 ∷ n)) ≡ true
  whole_free p h k l =
      free_of-append p ((a0 ∷ a) ++ (b'-' ∷ b0 ∷ b)) (b' ' ∷ n0 ∷ n) (range_free p h k)
        (rw (l) (digits_free p (n0 ∷ n) h dn))

  digit_space : (c : ℕ) → is_digit c ≡ true → is_whitespace c ≡ false
  unfolding is_whitespace
  digit_space c h = ground arith

  dash_no_space : is_whitespace b'-' ≡ false
  unfolding is_whitespace
  dash_no_space = refl

  words :
      split_whitespace (((a0 ∷ a) ++ (b'-' ∷ b0 ∷ b)) ++ (b' ' ∷ n0 ∷ n))
      ≡ ((a0 ∷ a) ++ (b'-' ∷ b0 ∷ b)) ∷ (n0 ∷ n) ∷ []
  words =
      split_whitespace-words a0 (a ++ (b'-' ∷ b0 ∷ b)) n0 n
        (range_free is_whitespace digit_space dash_no_space)
        (digits_free is_whitespace (n0 ∷ n) digit_space dn)

  range_word : IsPlainWord ((a0 ∷ a) ++ (b'-' ∷ b0 ∷ b))
  range_word = plain_word a0 (a ++ (b'-' ∷ b0 ∷ b)) (ground arith) range_free

  number_word : IsPlainWord (n0 ∷ n)
  number_word = plain_word n0 n (ground arith) (λ p h k. digits_free p (n0 ∷ n) h dn)

  trimmed :
      trim (((a0 ∷ a) ++ (b'-' ∷ b0 ∷ b)) ++ (b' ' ∷ n0 ∷ n))
      ≡ ((a0 ∷ a) ++ (b'-' ∷ b0 ∷ b)) ++ (b' ' ∷ n0 ∷ n)
  trimmed =
      trim_words a0 (a ++ (b'-' ∷ b0 ∷ b)) b' ' n0 n (digit_space a0 (ground arith))
        (digits_free is_whitespace (n0 ∷ n) digit_space dn)

  range_read :
      value_from 0 (a0 ∷ a) ≤ u32_max
      → value_from 0 (b0 ∷ b) ≤ u32_max
      → try_parse_range ((a0 ∷ a) ++ (b'-' ∷ b0 ∷ b))
        ≡ some (value_from 0 (a0 ∷ a), value_from 0 (b0 ∷ b))
  unfolding try_parse_range
  range_read h k =
      rw
        (
          try_parse_range,
          split_once-append b'-' (a0 ∷ a) (b0 ∷ b)
              (digits_free (λ c. c == b'-') (a0 ∷ a) (λ c h. ground arith) da),
          parse_unsigned-value u32_max a0 a da h,
          parse_unsigned-value u32_max b0 b db k,
        )
        refl

  number_no_range : try_parse_range (n0 ∷ n) ≡ none
  unfolding try_parse_range
  number_no_range =
      rw
        (
          try_parse_range,
          split_once_free b'-' (n0 ∷ n)
              (digits_free (λ c. c == b'-') (n0 ∷ n) (λ c h. ground arith) dn),
        )
        refl

  -- What is read of the range and the number.
  read : ℕ → ℕ → ℕ → Option ℤ → RemainingTokens
  read start end num q = record {
    beatmap_id = none;
    score_id = none;
    username = none;
    qq = q;
    filters = none;
    implicit_limit = some (clamp 1 200 num);
    limit_end = some (clamp (clamp 1 200 start) 200 end);
  }

  ranged_command :
      (cmd : ScoringCmd) (q : Option ℤ)
      → (is_single cmd || is_audio cmd || is_preview cmd) ≡ false
      → value_from 0 (a0 ∷ a) ≤ 200
      → value_from 0 (b0 ∷ b) ≤ u32_max
      → value_from 0 (n0 ∷ n) ≤ 200
      → parse_standard_score (((a0 ∷ a) ++ (b'-' ∷ b0 ∷ b)) ++ (b' ' ∷ n0 ∷ n)) cmd q
        ≡ done (
            finish_command cmd q no_flags
              (plain_args (((a0 ∷ a) ++ (b'-' ∷ b0 ∷ b)) ++ (b' ' ∷ n0 ∷ n)) (default_limit cmd))
              (read (value_from 0 (a0 ∷ a)) (value_from 0 (b0 ∷ b)) (value_from 0 (n0 ∷ n)) q))
  unfolding parse_standard_score with_args read
  ranged_command cmd q l ha hb hn =
      let v = a ++ (b'-' ∷ b0 ∷ b) in
      let w = n0 ∷ n in
      let t = v ++ (b' ' ∷ w) in
      parse_standard_score-read cmd q a0 t (default_limit cmd)
        (read (value_from 0 (a0 ∷ a)) (value_from 0 (b0 ∷ b)) (value_from 0 (n0 ∷ n)) q)
        (ground arith)
        (extract_common_args-words (a0 ∷ t) (a0 ∷ v) w (default_limit cmd)
          (whole_free (λ c. c == b':') (λ c h. ground arith) refl refl)
          (whole_free (λ c. c == b'#') (λ c h. ground arith) refl refl) trimmed words
          range_word.no_plus number_word.no_plus)
        (parse_remaining_tokens-words a0 t (a0 ∷ v) w q (value_from 0 (a0 ∷ a))
          (value_from 0 (b0 ∷ b)) (value_from 0 (n0 ∷ n)) words
          (scan_tokens-words (a0 ∷ v) w (value_from 0 (a0 ∷ a)) (value_from 0 (b0 ∷ b))
            (value_from 0 (n0 ∷ n)) range_word number_word (range_read (omega arith) hb)
            number_no_range (parse_unsigned-value u64_max n0 n dn (omega arith)) ha hn))

-- The position and the end of the range of a command.
abbrev pub range_of : Option Command → Option (ℕ × Option ℕ)
range_of (some (pass a)) = some (a.limit, a.limit_end)
range_of (some (recent a)) = some (a.limit, a.limit_end)
range_of (some (best a)) = some (a.limit, a.limit_end)
range_of (some (today_best a)) = some (a.limit, a.limit_end)
range_of (some (score_on_beatmap a)) = some (a.limit, a.limit_end)
range_of _ = none

finish_command-range :
    (cmd : ScoringCmd) (q : Option ℤ) (t : Text) (d : ℕ) (rt : RemainingTokens) (n e : ℕ)
    → (is_single cmd || is_audio cmd || is_preview cmd) ≡ false
    → rt.implicit_limit ≡ some n
    → rt.limit_end ≡ some e
    → range_of (finish_command cmd q no_flags (plain_args t d) rt) ≡ some (n, some e)
unfolding finish_command
finish_command-range cmd q t d rt n e l i r = ground arith

-- A command for a list of scores with a range `a-b` and, behind a space, a number `n`, all three in digits,
-- `a` and `n` at most 200 and `b` a `u32`, gets the position `n` and the end of the range, each brought into
-- the bounds. The number replaces the start of the range whatever it is, so that the range runs backwards
-- where `n` is greater than the end.
pub parse_standard_score-range :
    (a0 : ℕ) (a : Text) (b0 : ℕ) (b : Text) (n0 : ℕ) (n : Text) (cmd : ScoringCmd) (q : Option ℤ)
    → all_digits (a0 ∷ a) ≡ true
    → all_digits (b0 ∷ b) ≡ true
    → all_digits (n0 ∷ n) ≡ true
    → (is_single cmd || is_audio cmd || is_preview cmd) ≡ false
    → value_from 0 (a0 ∷ a) ≤ 200
    → value_from 0 (b0 ∷ b) ≤ u32_max
    → value_from 0 (n0 ∷ n) ≤ 200
    → (c : Option Command) × (parse_standard_score
          (((a0 ∷ a) ++ (b'-' ∷ b0 ∷ b)) ++ (b' ' ∷ n0 ∷ n))
          cmd
          q
        ≡ done c)
      × (range_of c
          ≡ some (
            clamp 1 200 (value_from 0 (n0 ∷ n)),
            some (clamp (clamp 1 200 (value_from 0 (a0 ∷ a))) 200 (value_from 0 (b0 ∷ b))),
          ))
unfolding read
parse_standard_score-range a0 a b0 b n0 n cmd q da db dn l ha hb hn =
    let t = ((a0 ∷ a) ++ (b'-' ∷ b0 ∷ b)) ++ (b' ' ∷ n0 ∷ n) in
    let rt =
      read a0 a b0 b n0 n da db dn (value_from 0 (a0 ∷ a)) (value_from 0 (b0 ∷ b))
        (value_from 0 (n0 ∷ n)) q in
    (
      finish_command cmd q no_flags (plain_args t (default_limit cmd)) rt,
      ranged_command a0 a b0 b n0 n da db dn cmd q l ha hb hn,
      finish_command-range cmd q t (default_limit cmd) rt _ _ l refl refl,
    )
