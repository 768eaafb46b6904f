-- ===== src/Commands/Args/Common.antt =====
-- The arguments that the score commands share (osubot-core/src/commands/common.rs).
use osubot_rs.Prelude.{
  ℕ, Bool, true, false, List, [], ◌∷◌, ◌++◌, Option, none, some, Run, done, and_then, if◌then◌else◌,
  ◌>>=◌, is_empty,
}
use osubot_rs.Text.{Text, trim, rsplit_once}
use osubot_rs.GameMode.{GameMode}
use osubot_rs.Commands.Args.Mode.{extract_mode}
use osubot_rs.Commands.Args.Limit.{parse_limit}
use osubot_rs.Commands.Args.Suffix.{extract_plus_suffix, merge_mods_into_filters}

pub record CommonArgs : Type 0 where
  pub mode : Option GameMode
  pub raw_mods : Option (List Text)
  pub filters : Option (List Text)
  pub limit : ℕ
  pub limit_end : Option ℕ
  pub rest : Text
  pub explicit_position : Bool

-- What the position part of `extract_common_args` gives, with the filters it leaves.
pub record Position : Type 0 where
  pub rest : Text
  pub limit : ℕ
  pub limit_end : Option ℕ
  pub explicit_position : Bool
  pub filter_suffix : Option (List Text)

-- The items before the last one, and the last one.
unfoldable pub split_last : List Text → Option (List Text × Text)
split_last [] = none
split_last (f ∷ fs) = elim (split_last fs) [
  | none ↦ some ([], f)
  | some (before, last) ↦ some (f ∷ before, last)
]

-- No position is given.
abbrev default_position : Text → ℕ → Option (List Text) → Position
default_position s default_limit filter_suffix = record {
  rest = trim s;
  limit = default_limit;
  limit_end = none;
  explicit_position = false;
  filter_suffix = filter_suffix;
}

-- The last filter with its `#N` taken off, and dropped where nothing is left of it.
abbrev put_back : List Text → Text → List Text
put_back before last = if is_empty last then before else before ++ (last ∷ [])

unfoldable pub position_in_filters :
    Text → ℕ → Option (List Text) → Option (List Text × Text) → Position
position_in_filters s default_limit filter_suffix none =
    default_position s default_limit filter_suffix
position_in_filters s default_limit filter_suffix (some (before, last)) =
    elim (rsplit_once b'#' last) [
      | none ↦ default_position s default_limit filter_suffix
      | some (kept, num_str) ↦ record {
        rest = trim s;
        limit = (parse_limit num_str).0;
        limit_end = (parse_limit num_str).1;
        explicit_position = true;
        filter_suffix = some (put_back before (trim kept));
      }
    ]

unfoldable pub find_position : Text → ℕ → Option (List Text) → Position
unfolding position_in_filters split_last rsplit_once
find_position s default_limit filter_suffix = elim (rsplit_once b'#' s) [
  | some (before, num_str) ↦ record {
    rest = trim before;
    limit = (parse_limit num_str).0;
    limit_end = (parse_limit num_str).1;
    explicit_position = true;
    filter_suffix = filter_suffix;
  }
  | none ↦ position_in_filters s default_limit filter_suffix (filter_suffix >>= λ fs. split_last fs)
]

unfoldable pub extract_common_args : Text → ℕ → Run CommonArgs
unfolding find_position
extract_common_args s default_limit = and_then (extract_mode s) (λ moded.
    let plus = extract_plus_suffix moded.0 in
    let position = find_position plus.0 default_limit plus.2 in
    done (record {
      mode = moded.1;
      raw_mods = plus.1;
      filters = merge_mods_into_filters plus.1 position.filter_suffix;
      limit = position.limit;
      limit_end = position.limit_end;
      rest = position.rest;
      explicit_position = position.explicit_position;
    }))
