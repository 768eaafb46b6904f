-- ===== src/GameMode/Laws.antt =====
-- The conversions of game modes.
use osubot_rs.Prelude.{ℕ, ◌+◌, ◌≡◌, ◌↔◌, [], ◌∷◌, some, ok, pos, negsuc, ℤ, arith}
use osubot_rs.Text.{Text, trim}
use osubot_rs.GameMode.{
  GameMode, try_from_u8, try_from_i32, to_u8, to_i32, from_digit_str, from_trimmed, api_value,
}

-- A number converts to a mode exactly when it is the mode's number.
pub try_from-to_iff : (v : ℕ) (m : GameMode) → (try_from_u8 v ≡ ok m) ↔ (v ≡ to_u8 m)
unfolding try_from_u8 to_u8
try_from-to_iff v m = ground arith

from_trimmed_iff :
    (s : Text) (m : GameMode) → (from_trimmed s ≡ some m) ↔ (s ≡ (b'0' + to_u8 m) ∷ [])
unfolding from_trimmed to_u8
from_trimmed_iff [] m = ground arith
from_trimmed_iff (c ∷ []) m = ground arith
from_trimmed_iff (c ∷ d ∷ s) m = ground arith

-- A text is read as a mode exactly when, trimmed, it is the one digit of that mode.
pub from_digit_str_iff :
    (s : Text) (m : GameMode) → (from_digit_str s ≡ some m) ↔ (trim s ≡ (b'0' + to_u8 m) ∷ [])
unfolding from_digit_str
from_digit_str_iff s m = from_trimmed_iff (trim s) m

-- The conversion from `i32` takes back the number of a mode, and accepts no other number.
pub try_from_i32_iff : (v : ℤ) (m : GameMode) → (try_from_i32 v ≡ ok m) ↔ (v ≡ to_i32 m)
unfolding try_from_i32 to_i32
try_from_i32_iff (pos v) m = ground arith
try_from_i32_iff (negsuc v) m = ground arith

-- Two modes with one name in the API are one mode.
pub api_value_injective : (m n : GameMode) → api_value m ≡ api_value n → m ≡ n
unfolding api_value
api_value_injective m n h = ground arith
