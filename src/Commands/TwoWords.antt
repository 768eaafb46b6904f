-- ===== src/Commands/TwoWords.antt =====
-- Two plain words as the arguments of a score command (osubot-core/src/commands/common.rs and scoring.rs).
use osubot_rs.Prelude.{
  ℕ, ◌≤◌, ◌%◌, ◌^◌, leb, ◌≡◌, refl, ◌∙◌, Bool, true, false, not, ◌==◌, if◌then◌else◌, [], ◌∷◌,
  Option, none, some, ℤ, arith, done,
}
use osubot_rs.Text.{Text, codes, is_digit, trim, split_whitespace, strip_prefix}
use osubot_rs.Text.Laws.{free_of, rsplit_once_free}
use osubot_rs.Text.Words.{split_once_free, split_at_free}
use osubot_rs.Text.Number.{parse_u64}
use osubot_rs.Text.Number.Digits.{all_digits}
use osubot_rs.Commands.Scoring.{
  Scan, scan_start, scan_range, scan_number, scan_word, scan_other, scan_at, scan_filter, scan_qq,
  scan_token, scan_tokens, finish_scan, is_filter_token, parse_remaining_tokens,
}
use osubot_rs.Commands.Args.{
  CommonArgs, extract_common_args, extract_mode, extract_plus_suffix, find_position,
  position_in_filters, merge_mods_into_filters, clamp, max_limit, score_id_threshold,
  try_parse_range, last_plus,
}

-- Digits do not meet a test of other characters.
pub digits_free :
    (p : ℕ → Bool) (s : Text)
    → ((c : ℕ) → is_digit c ≡ true → p c ≡ false)
    → all_digits s ≡ true
    → free_of p s ≡ true
digits_free p [] h d = refl
digits_free p (c ∷ s) h d = ground (arith, h c, digits_free p s h)

-- A text without the characters of a mode, a suffix and a position is what is left.
extract_mode_free : (t : Text) → free_of (λ c. c == b':') t ≡ true → extract_mode t ≡ done (t, none)
unfolding extract_mode
extract_mode_free t h = rw (extract_mode, rsplit_once_free b':' t h) refl

extract_plus_suffix-words :
    (t v w : Text)
    → split_whitespace t ≡ v ∷ w ∷ []
    → strip_prefix (codes "+") v ≡ none
    → strip_prefix (codes "+") w ≡ none
    → extract_plus_suffix t ≡ (t, none, none)
unfolding extract_plus_suffix last_plus
extract_plus_suffix-words t v w s x y = rw (extract_plus_suffix, s, last_plus, y, x) refl

abbrev pub plain_args : Text → ℕ → CommonArgs
plain_args t d = record {
  mode = none;
  raw_mods = none;
  filters = none;
  limit = d;
  limit_end = none;
  rest = t;
  explicit_position = false;
}

find_position_free :
    (t : Text) (d : ℕ)
    → free_of (λ c. c == b'#') t ≡ true
    → trim t ≡ t
    → find_position t d none ≡ record {
      rest = t;
      limit = d;
      limit_end = none;
      explicit_position = false;
      filter_suffix = none;
    }
unfolding find_position position_in_filters
find_position_free t d h k = rw (find_position, rsplit_once_free b'#' t h, k) refl

pub extract_common_args-words :
    (t v w : Text) (d : ℕ)
    → free_of (λ c. c == b':') t ≡ true
    → free_of (λ c. c == b'#') t ≡ true
    → trim t ≡ t
    → split_whitespace t ≡ v ∷ w ∷ []
    → strip_prefix (codes "+") v ≡ none
    → strip_prefix (codes "+") w ≡ none
    → extract_common_args t d ≡ done (plain_args t d)
unfolding extract_common_args merge_mods_into_filters
extract_common_args-words t v w d h k m s x y =
    rw
      (
        extract_common_args,
        extract_mode_free t h,
        extract_plus_suffix-words t v w s x y,
        find_position_free t d k m,
      )
      refl

-- A word that is no mention and no filter.
pub record IsPlainWord (w : Text) : Type 0 where
  pub no_qq : strip_prefix (codes "qq=") w ≡ none
  pub no_at : strip_prefix (codes "@") w ≡ none
  pub no_plus : strip_prefix (codes "+") w ≡ none
  pub no_equals : free_of (λ c. c == b'=') w ≡ true
  pub no_more : free_of (λ c. c == b'>') w ≡ true
  pub no_less : free_of (λ c. c == b'<') w ≡ true
  pub no_mark : free_of (λ c. c == b'!') w ≡ true

is_filter_token-plain : (w : Text) → IsPlainWord w → is_filter_token w ≡ false
unfolding is_filter_token
is_filter_token-plain w h =
    rw
      (
        is_filter_token,
        split_at_free b'=' (b'=' ∷ []) w h.no_equals,
        split_at_free b'>' (b'=' ∷ []) w h.no_more,
        split_at_free b'<' (b'=' ∷ []) w h.no_less,
        split_at_free b'!' (b'=' ∷ []) w h.no_mark,
        split_once_free b'=' w h.no_equals,
        split_once_free b'>' w h.no_more,
        split_once_free b'<' w h.no_less,
      )
      refl

scan_token-plain :
    (s : Scan) (w : Text) → IsPlainWord w → scan_token s w ≡ scan_other s w (try_parse_range w)
unfolding scan_token scan_qq scan_filter scan_at
scan_token-plain s w h =
    rw (scan_token, h.no_qq, scan_filter, is_filter_token-plain w h, h.no_at) refl

scan_range_low :
    (s : Scan) (start end : ℕ)
    → start ≤ 200
    → scan_range s start end
      ≡ some (record s {
        implicit_limit = some (clamp 1 200 start);
        limit_end = some (clamp (clamp 1 200 start) 200 end);
      })
unfolding scan_range
scan_range_low s start end h = ground arith

scan_number_low :
    (s : Scan) (num : ℕ)
    → num ≤ 200
    → scan_number s num ≡ some (record s { implicit_limit = some (clamp 1 200 num) })
unfolding scan_number
scan_number_low s num h =
    let same : num % 2 ^ 32 ≡ num = omega arith in
    let low : leb score_id_threshold num ≡ false = ground arith in
    let position : leb num max_limit ≡ true = ground arith in
    rw (scan_number, low, position, same) refl

-- What the loop makes of a range and a number behind it.
abbrev pub ranged : ℕ → ℕ → ℕ → Scan
ranged start end num = record scan_start {
  implicit_limit = some (clamp 1 200 num);
  limit_end = some (clamp (clamp 1 200 start) 200 end);
}

chosen : (b : Bool) (x y : Option Scan) → b ≡ true → (if b then x else y) ≡ x
chosen b x y h = rw (h) refl

scan_range_word :
    (s : Scan) (v : Text) (start end : ℕ)
    → IsPlainWord v
    → s.found_eq ≡ false
    → try_parse_range v ≡ some (start, end)
    → scan_token s v ≡ scan_range s start end
unfolding scan_other
scan_range_word s v start end h f r =
    scan_token-plain s v h ∙ rw (r, scan_other) (chosen (not s.found_eq) _ _ (rw (f) refl))

scan_number_word :
    (s : Scan) (w : Text) (num : ℕ)
    → IsPlainWord w
    → s.found_eq ≡ false
    → try_parse_range w ≡ none
    → parse_u64 w ≡ some num
    → scan_token s w ≡ scan_number s num
unfolding scan_other scan_word
scan_number_word s w num h f r n =
    scan_token-plain s w h
    ∙ rw (r, scan_other) (chosen (not s.found_eq) _ _ (rw (f) refl) ∙ rw (n, scan_word) refl)

pub scan_tokens-words :
    (v w : Text) (start end num : ℕ)
    → IsPlainWord v
    → IsPlainWord w
    → try_parse_range v ≡ some (start, end)
    → try_parse_range w ≡ none
    → parse_u64 w ≡ some num
    → start ≤ 200
    → num ≤ 200
    → scan_tokens scan_start (v ∷ w ∷ []) ≡ some (ranged start end num)
unfolding scan_tokens
scan_tokens-words v w start end num hv hw r x n a b =
    let first = record scan_start {
      implicit_limit = some (clamp 1 200 start);
      limit_end = some (clamp (clamp 1 200 start) 200 end);
    } in
    rw
      (
        scan_tokens,
        scan_range_word scan_start v start end hv refl r,
        scan_range_low scan_start start end a,
        scan_number_word first w num hw refl x n,
        scan_number_low first num b,
      )
      refl

pub parse_remaining_tokens-words :
    (c : ℕ) (t v w : Text) (q : Option ℤ) (start end num : ℕ)
    → split_whitespace (c ∷ t) ≡ v ∷ w ∷ []
    → scan_tokens scan_start (v ∷ w ∷ []) ≡ some (ranged start end num)
    → parse_remaining_tokens (c ∷ t) q
      ≡ some (record {
        beatmap_id = none;
        score_id = none;
        username = none;
        qq = q;
        filters = none;
        implicit_limit = some (clamp 1 200 num);
        limit_end = some (clamp (clamp 1 200 start) 200 end);
      })
unfolding parse_remaining_tokens finish_scan
parse_remaining_tokens-words c t v w q start end num s h = rw (parse_remaining_tokens, s, h) refl
