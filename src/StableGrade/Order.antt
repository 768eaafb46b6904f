-- ===== src/StableGrade/Order.antt =====
-- The ranks in the order of the hits (osubot-core/src/api/stable_grade.rs).
use osubot_rs.Prelude.{ℕ, suc, ◌+◌, ◌*◌, ◌≤◌, ◌≡◌, refl, Bool, true, false, ltb, arith}
use osubot_rs.GameMode.{GameMode, osu, taiko, catch, mania}
use osubot_rs.StableGrade.{
  OsuApiScoreStatistics, Rank, rank_f, rank_d, rank_c, rank_b, rank_a, rank_s, rank_sh, rank_x,
  rank_xh, total_hits, rank_by_greats, catch_rank, mania_rank, judgement, plain_rank, hidden_rank,
  get_stable_rank,
}

-- From F to X; a hidden rank is as high as the plain one.
abbrev pub grade : Rank → ℕ
grade rank_f = 0
grade rank_d = 1
grade rank_c = 2
grade rank_b = 3
grade rank_a = 4
grade rank_s = 5
grade rank_sh = 5
grade rank_x = 6
grade rank_xh = 6

catch_rank_mono :
    (hit hit' total : ℕ)
    → hit ≤ hit'
    → hit' ≤ total
    → grade (catch_rank hit total) ≤ grade (catch_rank hit' total)
unfolding catch_rank
catch_rank_mono hit hit' total h k = ground arith

mania_rank_mono :
    (j j' total : ℕ)
    → j ≤ j'
    → j' ≤ total * 300
    → grade (mania_rank j total) ≤ grade (mania_rank j' total)
unfolding mania_rank
mania_rank_mono j j' total h k = ground arith

rank_by_greats_mono :
    (great great' total miss miss' : ℕ) (b : Bool)
    → great ≤ great'
    → great' ≤ total
    → miss' ≤ miss
    → grade (rank_by_greats great total miss b) ≤ grade (rank_by_greats great' total miss' b)
unfolding rank_by_greats
rank_by_greats_mono great great' total miss miss' b h k l = ground arith

grade-hidden_rank : (r : Rank) → grade (hidden_rank r) ≡ grade r
grade-hidden_rank rank_f = refl
grade-hidden_rank rank_d = refl
grade-hidden_rank rank_c = refl
grade-hidden_rank rank_b = refl
grade-hidden_rank rank_a = refl
grade-hidden_rank rank_s = refl
grade-hidden_rank rank_sh = refl
grade-hidden_rank rank_x = refl
grade-hidden_rank rank_xh = refl

-- The score in which one of the misses is a great hit.
abbrev pub hit_one : ℕ → OsuApiScoreStatistics → OsuApiScoreStatistics
hit_one misses s = record s { count_300 = suc s.count_300; count_miss = misses }

total_hits-hit_one :
    (mode : GameMode) (s : OsuApiScoreStatistics) (m : ℕ)
    → s.count_miss ≡ suc m
    → total_hits mode (hit_one m s) ≡ total_hits mode s
unfolding total_hits
total_hits-hit_one taiko s m h = omega arith
total_hits-hit_one catch s m h = omega arith
total_hits-hit_one mania s m h = omega arith
total_hits-hit_one osu s m h = omega arith

-- What is compared with the number of hits does not exceed it.
abbrev Full : GameMode → OsuApiScoreStatistics → ℕ → ℕ → Type 0
Full taiko s m total = suc s.count_300 ≤ total
Full catch s m total = suc s.count_300 + s.osu_large_tick_hits + s.osu_small_tick_hits ≤ total
Full mania s m total = judgement (hit_one m s) ≤ total * 300
Full osu s m total = suc s.count_300 ≤ total

total_hits-Full :
    (mode : GameMode) (s : OsuApiScoreStatistics) (m : ℕ)
    → s.count_miss ≡ suc m
    → Full mode s m (total_hits mode s)
unfolding total_hits
total_hits-Full taiko s m h = omega arith
total_hits-Full catch s m h = omega arith
total_hits-Full mania s m h = omega arith
total_hits-Full osu s m h = omega arith

plain_rank_mono :
    (mode : GameMode) (s : OsuApiScoreStatistics) (m : ℕ)
    → s.count_miss ≡ suc m
    → grade (plain_rank s mode) ≤ grade (plain_rank (hit_one m s) mode)
unfolding plain_rank
plain_rank_mono taiko s m h = rw (total_hits-hit_one taiko s m h) (
    rank_by_greats_mono s.count_300 (suc s.count_300) (total_hits taiko s) s.count_miss m false
      (omega arith) (total_hits-Full taiko s m h) (omega arith))
plain_rank_mono catch s m h = rw (total_hits-hit_one catch s m h) (
    catch_rank_mono (s.count_300 + s.osu_large_tick_hits + s.osu_small_tick_hits)
      (suc s.count_300 + s.osu_large_tick_hits + s.osu_small_tick_hits) (total_hits catch s)
      (omega arith) (total_hits-Full catch s m h))
plain_rank_mono mania s m h = rw (total_hits-hit_one mania s m h) (
    mania_rank_mono (judgement s) (judgement (hit_one m s)) (total_hits mania s) (omega arith)
      (total_hits-Full mania s m h))
plain_rank_mono osu s m h = rw (total_hits-hit_one osu s m h) (
    rank_by_greats_mono s.count_300 (suc s.count_300) (total_hits osu s) s.count_miss m
      (ltb (total_hits osu s) (s.count_50 * 100)) (omega arith) (total_hits-Full osu s m h)
      (omega arith))

-- In every mode, passed or not, with or without hidden: a score in which one of the misses is a great hit
-- has no lower rank.
pub get_stable_rank_mono :
    (s : OsuApiScoreStatistics) (mode : GameMode) (passed has_hidden : Bool) (m : ℕ)
    → s.count_miss ≡ suc m
    → grade (get_stable_rank s mode passed has_hidden)
      ≤ grade (get_stable_rank (hit_one m s) mode passed has_hidden)
unfolding get_stable_rank
get_stable_rank_mono s mode false has_hidden m h = omega arith
get_stable_rank_mono s mode true false m h = plain_rank_mono mode s m h
get_stable_rank_mono s mode true true m h =
    rw (grade-hidden_rank (plain_rank s mode))
      (rw (grade-hidden_rank (plain_rank (hit_one m s) mode)) (plain_rank_mono mode s m h))
