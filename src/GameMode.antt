-- ===== src/GameMode.antt =====
-- The game modes (osubot-game-mode/src/lib.rs): the enum, its conversions and its names.
pub mod Laws
use osubot_rs.Prelude.{
  ℕ, Bool, Option, none, some, Result, ok, err, ℤ, pos, negsuc, ◌==◌, if◌then◌else◌,
}
use osubot_rs.Text.{Text, codes, text_eq, trim}

pub data GameMode : Type 0 where
  osu taiko catch mania : GameMode

pub record InvalidGameMode : Type 0 where
  pub value : ℤ

-- `TryFrom<u8>`.
unfoldable pub try_from_u8 : ℕ → Result GameMode InvalidGameMode
try_from_u8 v =
    if v == 0
    then ok osu
    else if v == 1
    then ok taiko
    else if v == 2
    then ok catch
    else if v == 3
    then ok mania
    else err (record { value = pos v })

-- `TryFrom<i32>`.
unfoldable pub try_from_i32 : ℤ → Result GameMode InvalidGameMode
unfolding try_from_u8
try_from_i32 (pos v) = try_from_u8 v
try_from_i32 (negsuc v) = err (record { value = negsuc v })

-- `From<GameMode> for u8`.
unfoldable pub to_u8 : GameMode → ℕ
to_u8 osu = 0
to_u8 taiko = 1
to_u8 catch = 2
to_u8 mania = 3

-- `From<GameMode> for i32`.
unfoldable pub to_i32 : GameMode → ℤ
unfolding to_u8
to_i32 m = pos (to_u8 m)

from_trimmed : Text → Option GameMode
unfolding text_eq
from_trimmed s =
    if text_eq s (codes "0")
    then some osu
    else if text_eq s (codes "1")
    then some taiko
    else if text_eq s (codes "2")
    then some catch
    else if text_eq s (codes "3")
    then some mania
    else none

unfoldable pub from_digit_str : Text → Option GameMode
unfolding from_trimmed trim
from_digit_str s = from_trimmed (trim s)

unfoldable pub name : GameMode → Text
name osu = codes "osu!"
name taiko = codes "taiko"
name catch = codes "catch"
name mania = codes "mania"

unfoldable pub display_name : GameMode → Text
display_name osu = codes "osu"
display_name taiko = codes "taiko"
display_name catch = codes "catch"
display_name mania = codes "mania"

unfoldable pub api_value : GameMode → Text
api_value osu = codes "osu"
api_value taiko = codes "taiko"
api_value catch = codes "fruits"
api_value mania = codes "mania"

unfoldable pub short_name : GameMode → Text
unfolding api_value
short_name m = api_value m
