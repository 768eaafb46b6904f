-- ===== src/Commands/Scoring/Scanned.antt =====
-- What the token loop of a score command leaves (osubot-core/src/commands/scoring.rs).
use osubot_rs.Prelude.{
  ℕ, ◌≡◌, ◌≤◌, ◌⊎◌, inl, inr, List, [], ◌∷◌, Option, none, some, ℤ, arith, Within, Option-cases,
  Holds, Holds->>=,
}
use osubot_rs.Text.{Text, codes, split_whitespace, strip_prefix}
use osubot_rs.Text.Number.{u64_max, parse_u64, parse_i64}
use osubot_rs.Text.Number.Bounds.{parse_unsigned_bounds}
use osubot_rs.Commands.Args.{max_limit, score_id_threshold, try_parse_range}
use osubot_rs.Commands.Scoring.Tokens.{
  Scan, scan_start, scan_range, scan_number, scan_word, scan_other, scan_at, scan_filter, scan_qq,
  scan_mention, scan_token, scan_tokens, finish_scan, RemainingTokens, parse_remaining_tokens,
}

-- A beatmap id lies above the positions and below the score ids, a score id above it.
abbrev pub IdsOk : Option ℕ → Option ℕ → Type 0
IdsOk beatmap_id score_id =
    Within 201 9999999 beatmap_id × Within score_id_threshold u64_max score_id

abbrev pub PositionOk : Option ℕ → Option ℕ → Type 0
PositionOk implicit_limit limit_end =
    Within 1 max_limit implicit_limit × Within 1 max_limit limit_end

pub record ScanOk (s : Scan) : Type 0 where
  pub ids : IdsOk s.beatmap_id s.score_id
  pub position : PositionOk s.implicit_limit s.limit_end

scan_mention-ScanOk : (s : Scan) (id : Option ℤ) → ScanOk s → ScanOk (scan_mention s id)
unfolding scan_mention
scan_mention-ScanOk s id h = ground arith

scan_range-Holds : (s : Scan) (a b : ℕ) → ScanOk s → Holds ScanOk (scan_range s a b)
unfolding scan_range
scan_range-Holds s a b h = ground arith

scan_number-Holds : (s : Scan) (n : ℕ) → n ≤ u64_max → ScanOk s → Holds ScanOk (scan_number s n)
unfolding scan_number
scan_number-Holds s n u h = ground arith

scan_word-Holds :
    (s : Scan) (t : Text) (n : Option ℕ)
    → Within 0 u64_max n
    → ScanOk s
    → Holds ScanOk (scan_word s t n)
unfolding scan_word
scan_word-Holds s t (some n) u h = scan_number-Holds s n u.1 h
scan_word-Holds s t none u h = ground arith

scan_other-Holds :
    (s : Scan) (t : Text) (r : Option (ℕ × ℕ)) → ScanOk s → Holds ScanOk (scan_other s t r)
unfolding scan_other
scan_other-Holds s t (some (a, b)) h = ground (arith, scan_range-Holds s a b h)
scan_other-Holds s t none h =
    ground (arith, scan_word-Holds s t (parse_u64 t) (parse_unsigned_bounds u64_max t) h)

scan_at-Holds : (s : Scan) (t : Text) (r : Option Text) → ScanOk s → Holds ScanOk (scan_at s t r)
unfolding scan_at
scan_at-Holds s t (some id) h = scan_mention-ScanOk s _ h
scan_at-Holds s t none h = scan_other-Holds s t (try_parse_range t) h

scan_filter-Holds : (s : Scan) (t : Text) → ScanOk s → Holds ScanOk (scan_filter s t)
unfolding scan_filter
scan_filter-Holds s t h = ground (arith, scan_at-Holds s t (strip_prefix (codes "@") t) h)

scan_token-Holds : (s : Scan) (t : Text) → ScanOk s → Holds ScanOk (scan_token s t)
unfolding scan_token
scan_token-Holds s t h = elim (Option-cases (strip_prefix (codes "qq=") t)) [
  | inl e ↦ rw (e, scan_token, scan_qq) (scan_filter-Holds s t h)
  | inr (id, e) ↦ rw (e, scan_token, scan_qq) (scan_mention-ScanOk s (parse_i64 id) h)
]

scan_tokens-Holds : (s : Scan) (ts : List Text) → ScanOk s → Holds ScanOk (scan_tokens s ts)
unfolding scan_tokens
scan_tokens-Holds s [] h = h
scan_tokens-Holds s (t ∷ ts) h =
    Holds->>= ScanOk ScanOk (scan_token s t) _ (scan_token-Holds s t h)
      (λ s' h'. scan_tokens-Holds s' ts h')

-- Of the two ids one is given at most, and the numbers lie in their ranges.
pub record TokensOk (rt : RemainingTokens) : Type 0 where
  pub ids : IdsOk rt.beatmap_id rt.score_id
  pub exclusive : (rt.beatmap_id ≡ none) ⊎ (rt.score_id ≡ none)
  pub position : PositionOk rt.implicit_limit rt.limit_end

finish_scan-TokensOk : (q : Option ℤ) (s : Scan) → ScanOk s → Holds TokensOk (finish_scan q s)
unfolding finish_scan
finish_scan-TokensOk q s h = ground arith

pub parse_remaining_tokens-TokensOk :
    (rest : Text) (q : Option ℤ) → Holds TokensOk (parse_remaining_tokens rest q)
unfolding parse_remaining_tokens
parse_remaining_tokens-TokensOk [] q = ground arith
parse_remaining_tokens-TokensOk (c ∷ rest) q =
    Holds->>= ScanOk TokensOk (scan_tokens scan_start (split_whitespace (c ∷ rest))) _
      (scan_tokens-Holds scan_start (split_whitespace (c ∷ rest)) (ground arith))
      (finish_scan-TokensOk q)
