-- ===== src/Tests/Remembered.antt =====
-- The cache of last beatmaps at concrete calls.
use osubot_rs.Prelude.{◌≡◌, refl, List, [], ◌∷◌, none, pos, negsuc, arith}
use osubot_rs.LastBeatmap.{get, set}
use osubot_rs.LastBeatmap.History.{
  Call, got, was_set, call, after_calls, last_set, if_fresh, get-last_set,
}

-- Group 1 asks at 15, after a private chat set another beatmap at 12.
abbrev calls : List Call
calls = was_set (negsuc 6) 99 12 ∷ got (pos 1) 8 ∷ was_set (pos 1) 42 5 ∷ []

get-last_set_example :
    (get (after_calls 20 calls) (pos 1) 15).0 ≡ if_fresh 20 15 (last_set (pos 1) calls)
get-last_set_example =
    get-last_set 20 15 (pos 1) calls (omega arith, (omega arith, (omega arith, tt)))

-- It has expired at 25.
expires : (get (after_calls 20 calls) (pos 1) 25).0 ≡ none
unfolding get set call
expires = refl
