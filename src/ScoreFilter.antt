-- ===== src/ScoreFilter.antt =====
-- Filters on scores (osubot/src/score_filter.rs): the tokens, the comparison of integers, and the
-- filter on mods. `to_uppercase` is the method of `str`, whose tables the standard library holds;
-- `present` is the list of the acronyms of a score's mods.
pub mod Tokens
pub mod Mods
pub mod Integers
use osubot_rs.Prelude.{
  ℕ, ◌≡◌, refl, Bool, true, false, not, ◌&&◌, List, [], ◌∷◌, ◌++◌, map, Option, none, some, ◌==◌,
  if◌then◌else◌, ℤ, pos, negsuc, lt_i64, eq_i64, length, or_else, ◌>>=◌,
}
use osubot_rs.Text.{Text, codes, text_eq, trim, split, split_at, split_once, member, to_upper}

pub data FilterOp : Type 0 where
  eq : FilterOp
  eq_eq : FilterOp
  not_eq : FilterOp
  lt : FilterOp
  lt_eq : FilterOp
  gt : FilterOp
  gt_eq : FilterOp

-- The key, the operator and the value of a token.
pub record FilterToken : Type 0 where
  pub key : Text
  pub op : FilterOp
  pub value : Text

-- The full-width forms of the operators' characters.
abbrev pub normal : ℕ → ℕ
normal c =
    if c == 0xff01
    then b'!'
    else if c == 0xff1d
    then b'='
    else if c == 0xff1e
    then b'>'
    else if c == 0xff1c
    then b'<'
    else c

-- A round of either loop on what `find` gave: `none` goes on, `some` is what the function returns.
abbrev pub found_op : FilterOp → Option (Text × Text) → Option (Option FilterToken)
found_op op none = none
found_op op (some ([], value)) = none
found_op op (some (k ∷ key, [])) = some none
found_op op (some (k ∷ key, v ∷ value)) =
    some (some (record { key = k ∷ key; op = op; value = v ∷ value }))

unfoldable pub two_char_ops : Text → Option (Option FilterToken)
unfolding split_at
two_char_ops s = or_else (found_op FilterOp.eq_eq (split_at (b'=' ∷ b'=' ∷ []) s)) (
    or_else (found_op FilterOp.gt_eq (split_at (b'>' ∷ b'=' ∷ []) s)) (
      or_else (found_op FilterOp.lt_eq (split_at (b'<' ∷ b'=' ∷ []) s))
        (found_op FilterOp.not_eq (split_at (b'!' ∷ b'=' ∷ []) s))))

unfoldable pub one_char_ops : Text → Option (Option FilterToken)
unfolding split_once
one_char_ops s =
    or_else (found_op FilterOp.eq (split_once b'=' s)) (
      or_else (found_op FilterOp.gt (split_once b'>' s)) (found_op FilterOp.lt (split_once b'<' s)))

abbrev pub returned_token : Option (Option FilterToken) → Option FilterToken
returned_token none = none
returned_token (some r) = r

unfoldable pub parse_filter_token : Text → Option FilterToken
unfolding two_char_ops one_char_ops
parse_filter_token token =
    let normalized = map normal token in
    returned_token (or_else (two_char_ops normalized) (one_char_ops normalized))

unfoldable pub cmp_i64 : ℤ → ℤ → FilterOp → Bool
cmp_i64 a b FilterOp.eq = eq_i64 a b
cmp_i64 a b FilterOp.eq_eq = eq_i64 a b
cmp_i64 a b FilterOp.not_eq = not (eq_i64 a b)
cmp_i64 a b FilterOp.lt = lt_i64 a b
cmp_i64 a b FilterOp.lt_eq = not (lt_i64 b a)
cmp_i64 a b FilterOp.gt = lt_i64 b a
cmp_i64 a b FilterOp.gt_eq = not (lt_i64 a b)

-- `chars.chunks(2)`, refused where the number of characters is odd.
unfoldable pub chunks : Text → Option (List Text)
chunks [] = some []
chunks (a ∷ []) = none
chunks (a ∷ b ∷ s) = let rest = chunks s in rest >>= λ ws. some ((a ∷ b ∷ []) ∷ ws)

unfoldable pub all_member : List Text → List Text → Bool
unfolding member
all_member [] present = true
all_member (r ∷ required) present = member r present && all_member required present

module _ (to_uppercase : Text → Text) where
  unfoldable pub push_parts : List Text → Option (List Text)
  unfolding chunks trim
  push_parts [] = some []
  push_parts (part ∷ parts) =
      let rest = push_parts parts in
      chunks (to_uppercase (trim part)) >>= λ out. rest >>= λ more. some (out ++ more)

  unfoldable pub parse_mod_filter : Text → Option (List Text)
  unfolding push_parts text_eq trim
  parse_mod_filter [] = some []
  parse_mod_filter (c ∷ s) =
      if text_eq (map to_upper (trim (c ∷ s))) (codes "NM")
      then some []
      else push_parts (split b',' (c ∷ s))

  abbrev pub mods_match : List Text → FilterOp → Option (List Text) → Bool
  mods_match present op none = false
  mods_match present FilterOp.eq (some required) = all_member required present
  mods_match present FilterOp.eq_eq (some required) =
      all_member required present && length present == length required
  mods_match present FilterOp.not_eq (some required) = not (all_member required present)
  mods_match present _ (some required) = true

  unfoldable pub apply_mod_filter : List Text → FilterOp → Text → Bool
  unfolding parse_mod_filter all_member
  apply_mod_filter present FilterOp.gt value = true
  apply_mod_filter present FilterOp.lt value = true
  apply_mod_filter present FilterOp.gt_eq value = true
  apply_mod_filter present FilterOp.lt_eq value = true
  apply_mod_filter present op value = mods_match present op (parse_mod_filter value)
