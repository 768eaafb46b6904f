-- ===== src/Commands/MatchId.antt =====
-- The three spellings of a match id (`parse_ml_match_id` of osubot-core/src/commands/mod.rs).
use osubot_rs.Prelude.{ℕ, ◌≤◌, ◌≡◌, refl, true, [], ◌∷◌, ◌++◌, some, none, arith, ◌==◌}
use osubot_rs.Text.{Text, codes, is_whitespace, strip_prefix}
use osubot_rs.Text.Laws.{free_of, free_of-append, trim_free, trim_end_by_free, strip_prefix-append}
use osubot_rs.Text.Number.{u64_max, parse_u64, parse_unsigned}
use osubot_rs.Text.Number.Digits.{all_digits, value_from, parse_unsigned-value}
use osubot_rs.Commands.MatchListen.{matches_url, parse_ml_match_id}

digits_no_space : (s : Text) → all_digits s ≡ true → free_of is_whitespace s ≡ true
unfolding is_whitespace
digits_no_space [] d = refl
digits_no_space (c ∷ s) d = ground (arith, digits_no_space s)

digits_no_slash : (s : Text) → all_digits s ≡ true → free_of (λ c. c == b'/') s ≡ true
digits_no_slash [] d = refl
digits_no_slash (c ∷ s) d = ground (arith, digits_no_slash s)

url_no_space : free_of is_whitespace matches_url ≡ true
unfolding is_whitespace
url_no_space = refl

mp_no_space : free_of is_whitespace (codes "mp") ≡ true
unfolding is_whitespace
mp_no_space = refl

mp_no_number : (s : Text) → parse_u64 (codes "mp" ++ s) ≡ none
unfolding parse_unsigned
mp_no_number s = refl

url_no_number : (s : Text) → parse_u64 (matches_url ++ s) ≡ none
unfolding parse_unsigned
url_no_number s = refl

url_no_mp : (s : Text) → strip_prefix (codes "mp") (matches_url ++ s) ≡ none
unfolding strip_prefix
url_no_mp s = refl

module _ (c : ℕ) (s : Text) (d : all_digits (c ∷ s) ≡ true)
    (fits : value_from 0 (c ∷ s) ≤ u64_max) where
  plain_id : parse_ml_match_id (c ∷ s) ≡ some (value_from 0 (c ∷ s))
  unfolding parse_ml_match_id
  plain_id =
      rw (trim_free (c ∷ s) (digits_no_space (c ∷ s) d))
        (rw (parse_unsigned-value u64_max c s d fits))

  mp_id : parse_ml_match_id (codes "mp" ++ (c ∷ s)) ≡ some (value_from 0 (c ∷ s))
  unfolding parse_ml_match_id
  mp_id =
      rw
        (trim_free (codes "mp" ++ (c ∷ s)) (
          free_of-append is_whitespace (codes "mp") (c ∷ s) mp_no_space
            (digits_no_space (c ∷ s) d)))
        (rw (
          mp_no_number (c ∷ s),
          strip_prefix-append (codes "mp") (c ∷ s),
          parse_unsigned-value u64_max c s d fits,
        ))

  url_id : parse_ml_match_id (matches_url ++ (c ∷ s)) ≡ some (value_from 0 (c ∷ s))
  unfolding parse_ml_match_id
  url_id =
      rw
        (trim_free (matches_url ++ (c ∷ s)) (
          free_of-append is_whitespace matches_url (c ∷ s) url_no_space
            (digits_no_space (c ∷ s) d)))
        (rw (
          url_no_number (c ∷ s),
          url_no_mp (c ∷ s),
          strip_prefix-append matches_url (c ∷ s),
          trim_end_by_free (λ k. k == b'/') (c ∷ s) (digits_no_slash (c ∷ s) d),
          parse_unsigned-value u64_max c s d fits,
        ))

  -- The digits of a number below 2^64, `mp` before them and the address of the match page before
  -- them are read as that number.
  pub parse_ml_match_id_spellings :
      (parse_ml_match_id (c ∷ s) ≡ some (value_from 0 (c ∷ s)))
      × (parse_ml_match_id (codes "mp" ++ (c ∷ s)) ≡ some (value_from 0 (c ∷ s)))
      × (parse_ml_match_id (matches_url ++ (c ∷ s)) ≡ some (value_from 0 (c ∷ s)))
  parse_ml_match_id_spellings = (plain_id, mp_id, url_id)
