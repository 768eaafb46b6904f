-- ===== src/Tests/Filters.antt =====
-- Filters on scores at concrete inputs.
use osubot_rs.Prelude.{ℕ, ◌≡◌, ◌↔◌, refl, true, false, List, [], ◌∷◌, ◌++◌, none, some}
use osubot_rs.Text.{Text, codes, trim, text_eq, split_at, split_once, split_by, strip_prefix}
use osubot_rs.ScoreFilter.{
  FilterOp, parse_filter_token, two_char_ops, one_char_ops, parse_mod_filter, chunks, push_parts,
  apply_mod_filter, all_member, cmp_i64,
}
use osubot_rs.ScoreFilter.Tokens.{op_text, parse_filter_token-printed}
use osubot_rs.ScoreFilter.Mods.{apply_mod_filter_exact}

-- All that the filters call, for the runs below.
filters : ℕ
unfolding parse_filter_token two_char_ops one_char_ops parse_mod_filter push_parts chunks
    apply_mod_filter all_member trim text_eq split_at split_once strip_prefix cmp_i64 split_by
filters = 0

-- `to_uppercase`, on texts that are upper-case.
abbrev to_uppercase : Text → Text
to_uppercase s = s

abbrev hidden : List Text
hidden = codes "HD" ∷ []

abbrev hidden_double_time : List Text
hidden_double_time = codes "HD" ∷ codes "DT" ∷ []

reads_full_width :
    parse_filter_token (codes "combo" ++ (0xff1e ∷ codes "=500"))
    ≡ some (record { key = codes "combo"; op = FilterOp.gt_eq; value = codes "500" })
unfolding filters
reads_full_width = refl

refuses_no_value : parse_filter_token (codes "pp>") ≡ none
unfolding filters
refuses_no_value = refl

-- A mod named twice counts twice: the exact filter on HDHD accepts a score with HD and DT.
accepts_repeated :
    apply_mod_filter to_uppercase hidden_double_time FilterOp.eq_eq (codes "HDHD") ≡ true
unfolding filters
accepts_repeated = refl

exact_no_mod : apply_mod_filter to_uppercase hidden FilterOp.eq_eq (codes "NM") ≡ false
unfolding filters
exact_no_mod = refl

parse_filter_token-printed_example :
    parse_filter_token (codes "star" ++ (op_text FilterOp.lt_eq ++ codes "6.5"))
    ≡ some (record { key = codes "star"; op = FilterOp.lt_eq; value = codes "6.5" })
parse_filter_token-printed_example =
    parse_filter_token-printed b's' (codes "tar") FilterOp.lt_eq b'6' (codes ".5") refl refl

apply_mod_filter_exact_example :
    (apply_mod_filter to_uppercase hidden_double_time FilterOp.eq_eq (codes "DT,HD") ≡ true) ↔ (
      (all_member (codes "DT" ∷ codes "HD" ∷ []) hidden_double_time ≡ true)
      × (all_member hidden_double_time (codes "DT" ∷ codes "HD" ∷ []) ≡ true))
unfolding filters
apply_mod_filter_exact_example =
    apply_mod_filter_exact to_uppercase hidden_double_time (codes "DT" ∷ codes "HD" ∷ [])
      (codes "DT,HD") refl refl refl
