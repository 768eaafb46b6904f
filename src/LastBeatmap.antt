-- ===== src/LastBeatmap.antt =====
-- The last beatmap of each group (osubot/src/last_beatmap_cache.rs). An `Instant` is a number, and
-- `now` is the time at which a call is made; the lock is held for the whole of a call.
pub mod History
use osubot_rs.Prelude.{
  ℕ, ◌-◌, Bool, List, [], ◌∷◌, Option, none, some, ℤ, ltb, eq_i64, if◌then◌else◌,
}

pub record LastBeatmapCache : Type 0 where
  pub inner : ℤ → Option (ℕ × ℕ)
  pub ttl : ℕ

abbrev pub with_ttl : ℕ → LastBeatmapCache
with_ttl ttl = record { inner = λ id. none; ttl = ttl }

-- 24 hours, in seconds.
abbrev pub new : LastBeatmapCache
new = with_ttl 86400

-- `map.insert` and `map.remove`.
abbrev pub put : ℤ → Option (ℕ × ℕ) → (ℤ → Option (ℕ × ℕ)) → ℤ → Option (ℕ × ℕ)
put id x inner j = if eq_i64 id j then x else inner j

-- `time.elapsed() < ttl`.
abbrev pub is_fresh : ℕ → ℕ → ℕ → Bool
is_fresh ttl now time = ltb (now - time) ttl

-- `get` on what the map holds for the group.
abbrev pub get_found : LastBeatmapCache → ℤ → ℕ → Option (ℕ × ℕ) → Option ℕ × LastBeatmapCache
get_found cache id now none = (none, cache)
get_found cache id now (some (bid, time)) =
    if is_fresh cache.ttl now time
    then (some bid, cache)
    else (none, record cache { inner = put id none cache.inner })

unfoldable pub get : LastBeatmapCache → ℤ → ℕ → Option ℕ × LastBeatmapCache
get cache id now = get_found cache id now (cache.inner id)

unfoldable pub set : LastBeatmapCache → ℤ → ℕ → ℕ → LastBeatmapCache
set cache id bid now = record cache { inner = put id (some (bid, now)) cache.inner }
