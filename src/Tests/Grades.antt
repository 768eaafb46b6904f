-- ===== src/Tests/Grades.antt =====
-- The rank of a score with one miss, and of the same score without it.
use osubot_rs.Prelude.{◌≡◌, ◌≤◌, refl, true, false}
use osubot_rs.GameMode.{osu}
use osubot_rs.StableGrade.{
  OsuApiScoreStatistics, get_stable_rank, plain_rank, rank_by_greats, total_hits, rank_a, rank_sh,
  rank_x,
}
use osubot_rs.StableGrade.Order.{grade, hit_one, get_stable_rank_mono}

abbrev one_miss : OsuApiScoreStatistics
one_miss = record {
  count_geki = 20;
  count_300 = 190;
  count_katu = 3;
  count_100 = 0;
  count_50 = 1;
  count_miss = 1;
  ok_hits = 8;
  osu_large_tick_misses = 0;
  osu_small_tick_misses = 0;
  osu_large_tick_hits = 0;
  osu_small_tick_hits = 0;
  osu_slider_tail_hits = 0;
}

get_stable_rank_mono_example :
    grade (get_stable_rank one_miss osu true true)
    ≤ grade (get_stable_rank (hit_one 0 one_miss) osu true true)
get_stable_rank_mono_example = get_stable_rank_mono one_miss osu true true 0 refl

one_miss_rank : get_stable_rank one_miss osu true true ≡ rank_a
unfolding get_stable_rank plain_rank rank_by_greats total_hits
one_miss_rank = refl

no_miss_rank : get_stable_rank (hit_one 0 one_miss) osu true true ≡ rank_sh
unfolding get_stable_rank plain_rank rank_by_greats total_hits
no_miss_rank = refl

-- A score without hits.
no_hits_rank :
    get_stable_rank
      (record one_miss { count_300 = 0; count_50 = 0; count_miss = 0; ok_hits = 0 })
      osu
      true
      false
    ≡ rank_x
unfolding get_stable_rank plain_rank rank_by_greats total_hits
no_hits_rank = refl
