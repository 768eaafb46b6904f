-- ===== src/Commands/Args/Suffix.antt =====
-- The `+mods,conditions` suffix (osubot-core/src/commands/common.rs).
use osubot_rs.Prelude.{
  Bool, false, not, ◌&&◌, ◌||◌, List, [], ◌∷◌, ◌++◌, Option, none, some, if◌then◌else◌, ◌>>=◌,
  is_empty, unwrap_or,
}
use osubot_rs.Text.{
  Text, codes, starts_with, is_ascii_alphabetic, to_upper, split, split_whitespace, split_once,
  contains_char, join, strip_prefix,
}

-- `parts` of the last token that begins with `+`: the tokens before it, what stands behind the
-- `+`, and the tokens after it (`rposition` and `filter`).
unfoldable pub last_plus : List Text → Option (List Text × Text × List Text)
last_plus [] = none
last_plus (t ∷ ts) = elim (last_plus ts) [
  | some (before, suffix, after) ↦ some (t ∷ before, suffix, after)
  | none ↦ elim (strip_prefix (codes "+") t) [ some suffix ↦ some ([], suffix, ts) | none ↦ none ]
]

-- The mods of a `+` suffix in twos; `none` where their number is odd or one is no letter.
unfoldable pub parse_mods : Text → Option (List Text)
parse_mods [] = some []
parse_mods (a ∷ []) = none
parse_mods (a ∷ b ∷ s) =
    let rest = parse_mods s in
    if is_ascii_alphabetic a && is_ascii_alphabetic b
    then (rest >>= λ ms. some ((to_upper a ∷ to_upper b ∷ []) ∷ ms))
    else none

abbrev optional_mods : Text → Option (Option (List Text))
optional_mods first =
    if not (is_empty first) && not (contains_char b'=' first)
    then (parse_mods first >>= λ ms. some (some ms))
    else some none

pub any_without_eq : List Text → Bool
any_without_eq [] = false
any_without_eq (f ∷ fs) = not (contains_char b'=' f) || any_without_eq fs

abbrev optional_filters : Text → Option (Option (List Text))
optional_filters filter_str =
    if is_empty filter_str
    then some none
    else if any_without_eq (split b',' filter_str)
    then none
    else some (some (split b',' filter_str))

-- `first` and `rest_str` of a suffix.
abbrev suffix_halves : Text → Text × Text
suffix_halves suffix = unwrap_or (split_once b',' suffix) (suffix, [])

-- Mods and filters of a `+` suffix; `none` is the early `return (new_rest, None, None)`.
unfoldable pub parse_suffix : Text → Option (Option (List Text) × Option (List Text))
unfolding parse_mods any_without_eq
parse_suffix suffix =
    let first = (suffix_halves suffix).0 in
    let rest_str = (suffix_halves suffix).1 in
    let filter_str = if contains_char b'=' first then suffix else rest_str in
    if is_empty suffix
    then none
    else optional_mods first >>= λ mods.
        optional_filters filter_str >>= λ filters. some (mods, filters)

unfoldable pub extract_plus_suffix : Text → Text × Option (List Text) × Option (List Text)
unfolding last_plus parse_suffix
extract_plus_suffix rest = elim (last_plus (split_whitespace rest)) [
  | none ↦ (rest, none, none)
  | some (before, suffix, after) ↦
      let new_rest = join (codes " ") (before ++ after) in
      let parsed = unwrap_or (parse_suffix suffix) (none, none) in (new_rest, parsed.0, parsed.1)
]

-- `any` of the filters begins with `mod=`, `mod==` or `mod!=`.
pub has_mod_filter : List Text → Bool
has_mod_filter [] = false
has_mod_filter (s ∷ fs) =
    starts_with (codes "mod=") s
    || starts_with (codes "mod==") s
    || starts_with (codes "mod!=") s
    || has_mod_filter fs

-- `m.join("")` of mods that are given and not empty.
abbrev mod_text : Option (List Text) → Option Text
mod_text none = none
mod_text (some []) = none
mod_text (some (m ∷ ms)) = some (join [] (m ∷ ms))

abbrev nonempty_filters : Option (List Text) → Option (List Text)
nonempty_filters none = none
nonempty_filters (some []) = none
nonempty_filters (some (f ∷ fs)) = some (f ∷ fs)

unfoldable pub merge_mods_into_filters :
    Option (List Text) → Option (List Text) → Option (List Text)
unfolding has_mod_filter
merge_mods_into_filters mods filters = elim (mod_text mods) [
  | none ↦ nonempty_filters filters
  | some mod_str ↦
      let fs = unwrap_or filters [] in
      let merged = if has_mod_filter fs then fs else fs ++ ((codes "mod=" ++ mod_str) ∷ []) in
      nonempty_filters (some merged)
]
