-- ===== src/ScoreFilter/Integers.antt =====
-- The operators on integers.
use osubot_rs.Prelude.{◌≡◌, refl, ◌||◌, arith, ℤ, pos, negsuc}
use osubot_rs.ScoreFilter.{FilterOp, cmp_i64}

-- On any two integers: "at most" is "less or equal", "at least" is "greater or equal", "not equal" is
-- "less or greater", and both spellings of equality agree.
cmp_i64_agree :
    (a b : ℤ)
    → (cmp_i64 a b FilterOp.lt_eq ≡ (cmp_i64 a b FilterOp.lt || cmp_i64 a b FilterOp.eq))
      × ((cmp_i64 a b FilterOp.gt_eq ≡ (cmp_i64 a b FilterOp.gt || cmp_i64 a b FilterOp.eq))
          × ((cmp_i64 a b FilterOp.not_eq ≡ (cmp_i64 a b FilterOp.lt || cmp_i64 a b FilterOp.gt))
              × (cmp_i64 a b FilterOp.eq ≡ cmp_i64 a b FilterOp.eq_eq)))
unfolding cmp_i64
cmp_i64_agree (pos a) (pos b) = (ground arith, (ground arith, (ground arith, refl)))
cmp_i64_agree (pos a) (negsuc b) = (ground arith, (ground arith, (ground arith, refl)))
cmp_i64_agree (negsuc a) (pos b) = (ground arith, (ground arith, (ground arith, refl)))
cmp_i64_agree (negsuc a) (negsuc b) = (ground arith, (ground arith, (ground arith, refl)))
