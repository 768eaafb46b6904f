-- ===== src/Database/Schedule.antt =====
-- The tables of the updates of users, of their plays and of their statistics, and the statements of the
-- scheduler (osubot-core/src/storage.rs). Times of the clock are numbers of nanoseconds; the columns with
-- numbers hold seconds.
use osubot_rs.Prelude.{
  ℕ, Bool, true, not, ◌&&◌, List, [], ◌∷◌, ◌++◌, Option, none, some, ltb, leb, ◌==◌, if◌then◌else◌,
  ℤ, eq_i64, lt_i64, Result, ok, err, map,
}
use osubot_rs.Text.{Text}
use osubot_rs.GameMode.{GameMode, InvalidGameMode, osu, taiko, catch, mania, to_i32, try_from_i32}
use osubot_rs.Database.Table.{
  update_where, count_where, select_where, delete_where, first_row, upsert, order_by,
}
use osubot_rs.Database.Bindings.{Binding, NextUpdate, has_user_id}

pub record LastUpdate : Type 0 where
  pub user_id : ℤ
  pub mode : ℤ
  pub last_update : ℕ

pub record PlayRecord : Type 0 where
  pub user_id : ℤ
  pub mode : ℤ
  pub played_at : ℤ

-- The statistics of a user; those that are only copied are `rest`.
pub record Stats (Rest : Type 0) : Type 0 where
  pub username : Text
  pub rank : ℤ
  pub playcount : ℤ
  pub rest : Rest

pub record Snapshot (Rest : Type 0) : Type 0 where
  pub user_id : ℤ
  pub mode : ℤ
  pub recorded_at : ℕ
  pub stats : Stats Rest

abbrev pub next_of : ℤ → GameMode → NextUpdate → Bool
next_of user_id mode n = eq_i64 n.user_id user_id && eq_i64 n.mode (to_i32 mode)

abbrev pub next_time : Option NextUpdate → Option ℤ
next_time none = none
next_time (some n) = some n.next_update

unfoldable pub get_next_update : ℤ → GameMode → List NextUpdate → Option ℤ
unfolding select_where
get_next_update user_id mode rows = next_time (first_row (select_where (next_of user_id mode) rows))

unfoldable pub set_next_update : ℤ → GameMode → ℤ → List NextUpdate → List NextUpdate
unfolding upsert
set_next_update user_id mode time rows =
    let row : NextUpdate = record { user_id = user_id; mode = to_i32 mode; next_update = time } in
    upsert (next_of user_id mode) (λ _. row) row rows

unfoldable pub reset_all_next_updates : ℤ → List NextUpdate → List NextUpdate
unfolding update_where
reset_all_next_updates now rows =
    update_where (λ _. true) (λ n. record n { next_update = now }) rows

abbrev pub last_of : ℤ → GameMode → LastUpdate → Bool
last_of user_id mode l = eq_i64 l.user_id user_id && eq_i64 l.mode (to_i32 mode)

abbrev pub last_time : Option LastUpdate → Option ℕ
last_time none = none
last_time (some l) = some l.last_update

unfoldable pub get_last_update : ℤ → GameMode → List LastUpdate → Option ℕ
unfolding select_where
get_last_update user_id mode rows = last_time (first_row (select_where (last_of user_id mode) rows))

unfoldable pub set_last_update : ℤ → GameMode → ℕ → List LastUpdate → List LastUpdate
unfolding upsert
set_last_update user_id mode time rows =
    let row : LastUpdate = record { user_id = user_id; mode = to_i32 mode; last_update = time } in
    upsert (last_of user_id mode) (λ _. row) row rows

-- `GameMode::try_from(mode_int).unwrap_or(GameMode::Osu)`.
abbrev pub mode_or_osu : Result GameMode InvalidGameMode → GameMode
mode_or_osu (ok m) = m
mode_or_osu (err e) = osu

abbrev pub due_pair : NextUpdate → ℤ × GameMode
due_pair n = (n.user_id, mode_or_osu (try_from_i32 n.mode))

-- A mode with no time of a next update.
abbrev pub if_unscheduled :
    ℤ → GameMode → List NextUpdate → List (ℤ × GameMode) → List (ℤ × GameMode)
if_unscheduled user_id mode updates rest =
    if count_where (next_of user_id mode) updates == 0 then (user_id, mode) ∷ rest else rest

unfoldable pub unscheduled : List Binding → List NextUpdate → List (ℤ × GameMode)
unfolding count_where
unscheduled [] updates = []
unscheduled (b ∷ bs) updates = if_unscheduled b.user_id osu updates (
    if_unscheduled b.user_id taiko updates (
      if_unscheduled b.user_id catch updates
        (if_unscheduled b.user_id mania updates (unscheduled bs updates))))

unfoldable pub get_due_users : ℤ → List Binding → List NextUpdate → List (ℤ × GameMode)
unfolding select_where unscheduled
get_due_users now bindings updates =
    map due_pair (select_where (λ n. not (lt_i64 now n.next_update)) updates)
    ++ unscheduled bindings updates

abbrev pub same_play : ℤ → GameMode → ℤ → PlayRecord → Bool
same_play user_id mode time p =
    eq_i64 p.user_id user_id && eq_i64 p.mode (to_i32 mode) && eq_i64 p.played_at time

-- INSERT OR IGNORE, for each time.
unfoldable pub save_play_records : ℤ → GameMode → List ℤ → List PlayRecord → List PlayRecord
unfolding upsert
save_play_records user_id mode [] rows = rows
save_play_records user_id mode (t ∷ ts) rows = save_play_records user_id mode ts (
    upsert (same_play user_id mode t) (λ p. p)
      (record { user_id = user_id; mode = to_i32 mode; played_at = t }) rows)

unfoldable pub has_play_since : ℤ → GameMode → ℤ → List PlayRecord → Bool
unfolding count_where
has_play_since user_id mode since rows = ltb 0 (
    count_where
      (λ p.
        eq_i64 p.user_id user_id && eq_i64 p.mode (to_i32 mode) && not (lt_i64 p.played_at since))
      rows)

module _ {Rest : Type 0} where
  abbrev pub snapshot_of : ℤ → GameMode → Snapshot Rest → Bool
  snapshot_of user_id mode s = eq_i64 s.user_id user_id && eq_i64 s.mode (to_i32 mode)

  unfoldable pub save_stats :
      ℤ → GameMode → Stats Rest → ℕ → List (Snapshot Rest) → List (Snapshot Rest)
  unfolding upsert
  save_stats user_id mode stats now rows =
      upsert (λ s. snapshot_of user_id mode s && s.recorded_at == now) (λ s. s)
        (record { user_id = user_id; mode = to_i32 mode; recorded_at = now; stats = stats }) rows

  abbrev pub stats_of : Option (Snapshot Rest) → Option (Stats Rest)
  stats_of none = none
  stats_of (some s) = some s.stats

  unfoldable pub get_latest_snapshot : ℤ → GameMode → List (Snapshot Rest) → Option (Stats Rest)
  unfolding order_by select_where
  get_latest_snapshot user_id mode rows = stats_of (
      first_row (
        order_by (λ a b. leb b.recorded_at a.recorded_at)
          (select_where (snapshot_of user_id mode) rows)))

  -- The rows of users that are bound, and what is not too old. The first statement that fails is the
  -- last one.
  unfoldable pub prune_old_records :
      (stats_fails plays_fails next_fails : Bool)
      → ℕ
      → ℤ
      → List Binding
      → List (Snapshot Rest)
      → List PlayRecord
      → List NextUpdate
      → List (Snapshot Rest) × List PlayRecord × List NextUpdate
  unfolding delete_where count_where
  prune_old_records stats_fails plays_fails next_fails cutoff_stats cutoff_plays bindings snapshots
        plays updates =
      let snapshots' = delete_where (λ s. ltb s.recorded_at cutoff_stats) snapshots in
      let plays' = delete_where (λ p. lt_i64 p.played_at cutoff_plays) plays in
      let updates' =
        delete_where (λ n. count_where (has_user_id n.user_id) bindings == 0) updates in
      if stats_fails
      then (snapshots, plays, updates)
      else if plays_fails
      then (snapshots', plays, updates)
      else if next_fails
      then (snapshots', plays', updates)
      else (snapshots', plays', updates')
