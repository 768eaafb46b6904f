-- ===== src/StableGrade.antt =====
-- The rank of a score of the stable client (osubot-core/src/api/stable_grade.rs). The counts are natural
-- numbers: those that the API gives are not negative, and the products stay far below the bounds of `i64`.
pub mod Order
use osubot_rs.Prelude.{
  ℕ, zero, suc, ◌+◌, ◌*◌, Bool, true, false, not, ◌&&◌, ◌||◌, ltb, ◌==◌, if◌then◌else◌,
}
use osubot_rs.GameMode.{GameMode, osu, taiko, catch, mania}

pub record OsuApiScoreStatistics : Type 0 where
  pub count_geki : ℕ
  pub count_300 : ℕ
  pub count_katu : ℕ
  pub count_100 : ℕ
  pub count_50 : ℕ
  pub count_miss : ℕ
  pub ok_hits : ℕ
  pub osu_large_tick_misses : ℕ
  pub osu_small_tick_misses : ℕ
  pub osu_large_tick_hits : ℕ
  pub osu_small_tick_hits : ℕ
  pub osu_slider_tail_hits : ℕ

pub data Rank : Type 0 where
  rank_f rank_d rank_c rank_b rank_a rank_s rank_sh rank_x rank_xh : Rank

abbrev pub hundreds : OsuApiScoreStatistics → ℕ
hundreds s = if not (s.count_100 == 0) then s.count_100 else s.ok_hits

unfoldable pub total_hits : GameMode → OsuApiScoreStatistics → ℕ
total_hits taiko s = s.count_300 + hundreds s + s.count_miss
total_hits catch s =
    s.count_300 + s.osu_large_tick_hits + s.osu_small_tick_hits + s.osu_large_tick_misses
    + s.osu_small_tick_misses + s.count_miss
total_hits mania s =
    s.count_geki + s.count_300 + s.count_katu + hundreds s + s.count_50 + s.count_miss
total_hits osu s = s.count_300 + hundreds s + s.count_50 + s.count_miss

-- The ranks of taiko and of osu!; in taiko there is no test of the hits of 50.
unfoldable pub rank_by_greats : (great total miss : ℕ) → (is50_over_1p : Bool) → Rank
rank_by_greats great total miss is50_over_1p =
    if great == total
    then rank_x
    else if ltb (total * 9) (great * 10)
    then (if ltb 0 miss || is50_over_1p then rank_a else rank_s)
    else if ltb (total * 8) (great * 10)
    then (if ltb 0 miss then rank_b else rank_a)
    else if ltb (total * 7) (great * 10)
    then (if ltb 0 miss then rank_c else rank_b)
    else if ltb (total * 6) (great * 10)
    then rank_c
    else rank_d

unfoldable pub catch_rank : (hit total : ℕ) → Rank
catch_rank hit total =
    if hit == total
    then rank_x
    else if ltb (total * 98) (hit * 100)
    then rank_s
    else if ltb (total * 94) (hit * 100)
    then rank_a
    else if ltb (total * 90) (hit * 100)
    then rank_b
    else if ltb (total * 85) (hit * 100)
    then rank_c
    else rank_d

unfoldable pub mania_rank : (judgement total : ℕ) → Rank
mania_rank judgement total =
    if judgement == total * 300
    then rank_x
    else if ltb (total * 300 * 95) (judgement * 100)
    then rank_s
    else if ltb (total * 300 * 90) (judgement * 100)
    then rank_a
    else if ltb (total * 300 * 80) (judgement * 100)
    then rank_b
    else if ltb (total * 300 * 70) (judgement * 100)
    then rank_c
    else rank_d

abbrev pub judgement : OsuApiScoreStatistics → ℕ
judgement s =
    s.count_geki * 300 + s.count_300 * 300 + s.count_katu * 200 + hundreds s * 100 + s.count_50 * 50

unfoldable pub plain_rank : OsuApiScoreStatistics → GameMode → Rank
unfolding total_hits rank_by_greats catch_rank mania_rank
plain_rank s taiko = rank_by_greats s.count_300 (total_hits taiko s) s.count_miss false
plain_rank s catch =
    catch_rank (s.count_300 + s.osu_large_tick_hits + s.osu_small_tick_hits) (total_hits catch s)
plain_rank s mania = mania_rank (judgement s) (total_hits mania s)
plain_rank s osu =
    rank_by_greats s.count_300 (total_hits osu s) s.count_miss
      (ltb (total_hits osu s) (s.count_50 * 100))

abbrev pub hidden_rank : Rank → Rank
hidden_rank rank_s = rank_sh
hidden_rank rank_x = rank_xh
hidden_rank r = r

unfoldable pub get_stable_rank :
    OsuApiScoreStatistics → GameMode → (passed has_hidden : Bool) → Rank
unfolding plain_rank
get_stable_rank s mode passed has_hidden =
    if not passed
    then rank_f
    else if has_hidden
    then hidden_rank (plain_rank s mode)
    else plain_rank s mode
