-- ===== src/Scheduler/Times.antt =====
-- The times of the next updates, as the results of a tick are written (osubot/src/scheduler.rs).
use osubot_rs.Prelude.{
  ℕ, ◌+◌, ◌*◌, ◌≤◌, pos, negsuc, done, and_then, ◌≡◌, refl, ap, ◌∙◌, Bool, true, false, ◌&&◌, ◌||◌,
  List, [], ◌∷◌, some, if◌then◌else◌, ℤ, eq_i64, eq_i64_same, arith, Bool-cases, inl, inr, is_some,
  if_both, map,
}
use osubot_rs.GameMode.{GameMode, to_i32, to_u8}
use osubot_rs.Validation.{SchedulerConfig}
use osubot_rs.Database.Table.{first_row}
use osubot_rs.Database.Table.First.{first-upsert_row, select-upsert-elsewhere}
use osubot_rs.Database.Listeners.Keys.{eq_i64_refl}
use osubot_rs.Database.Bindings.{NextUpdate}
use osubot_rs.Database.Schedule.{next_of, next_time, get_next_update, set_next_update}
use osubot_rs.Scheduler.{Chrono, interval_hours, Written, write_all, next_due}
use osubot_rs.Database.Pending.{timestamp}
use osubot_rs.Scheduler.Evaluation.{
  UpdateResult, UserActivity, semi_active, normal, inactive, no_recent, user_not_exists,
}

abbrev pub same_pair : ℤ → GameMode → ℤ × GameMode → Bool
same_pair u m (u', m') = eq_i64 u' u && eq_i64 (to_i32 m') (to_i32 m)

abbrev pub occurs : ℤ → GameMode → List (ℤ × GameMode) → Bool
occurs u m [] = false
occurs u m (p ∷ ps) = same_pair u m p || occurs u m ps

abbrev pub evaluated_pair : ℤ × GameMode × UpdateResult → ℤ × GameMode
evaluated_pair (u, m, r) = (u, m)

abbrev pub is_scheduled : ℤ → GameMode → List NextUpdate → Bool
is_scheduled u m rows = is_some (get_next_update u m rows)

pub to_i32_injective : (m m' : GameMode) → to_i32 m' ≡ to_i32 m → m' ≡ m
unfolding to_i32 to_u8
to_i32_injective m m' h = ground arith

pub get_next_update-set_same :
    (u : ℤ) (m : GameMode) (t : ℤ) (rows : List NextUpdate)
    → get_next_update u m (set_next_update u m t rows) ≡ some t
unfolding get_next_update set_next_update
get_next_update-set_same u m t rows = ap next_time (
    first-upsert_row (next_of u m) (record { user_id = u; mode = to_i32 m; next_update = t }) rows
      (rw (eq_i64_refl u, eq_i64_refl (to_i32 m)) refl))

pub get_next_update-set_other :
    (u u' : ℤ) (m m' : GameMode) (t : ℤ) (rows : List NextUpdate)
    → same_pair u m (u', m') ≡ false
    → get_next_update u m (set_next_update u' m' t rows) ≡ get_next_update u m rows
unfolding get_next_update set_next_update
get_next_update-set_other u u' m m' t rows q =
    ap (λ r. next_time (first_row r))
      (select-upsert-elsewhere (next_of u m) (next_of u' m') _ _ rows q (λ r h. (elsewhere r h, q)))
  where
    elsewhere : (r : NextUpdate) → next_of u' m' r ≡ true → next_of u m r ≡ false
    elsewhere r h =
        rw (eq_i64_same r.user_id u' (ground arith), eq_i64_same r.mode (to_i32 m') (ground arith))
          q

-- A time that is set is there, and the others stay.
pub get_next_update-set :
    (u u' : ℤ) (m m' : GameMode) (t : ℤ) (rows : List NextUpdate)
    → get_next_update u m (set_next_update u' m' t rows)
      ≡ (if same_pair u m (u', m') then some t else get_next_update u m rows)
get_next_update-set u u' m m' t rows = elim (Bool-cases (same_pair u m (u', m'))) [
  | inl q ↦
      let e = eq_i64_same u' u (ground arith) in
      let f = to_i32_injective m m' (eq_i64_same (to_i32 m') (to_i32 m) (ground arith)) in
      rw (q, e, f) (get_next_update-set_same u m t rows)
  | inr q ↦ rw (q) (get_next_update-set_other u u' m m' t rows q)
]

pub stays_scheduled :
    (u u' : ℤ) (m m' : GameMode) (t : ℤ) (rows : List NextUpdate)
    → is_scheduled u m rows ≡ true
    → is_scheduled u m (set_next_update u' m' t rows) ≡ true
stays_scheduled u u' m m' t rows h =
    ap is_some (get_next_update-set u u' m m' t rows)
    ∙ if_both (λ o. is_some o ≡ true) (same_pair u m (u', m')) refl h

pub becomes_scheduled :
    (u u' : ℤ) (m m' : GameMode) (t : ℤ) (rows : List NextUpdate)
    → same_pair u m (u', m') ≡ true
    → is_scheduled u m (set_next_update u' m' t rows) ≡ true
becomes_scheduled u u' m m' t rows q = rw (get_next_update-set u u' m m' t rows, q) refl

-- No write fails.
abbrev pub AllWrite : (ℤ → GameMode → Written) → Type 0
AllWrite w = (u : ℤ) (m : GameMode) → (w u m).write_fails ≡ false

-- What is documented of chrono: hours and times in these bounds do not panic.
abbrev pub Documented : Chrono → Type 0
Documented c =
    ((h : ℕ) → h ≤ 2562047788015 → c.hours (pos h) ≡ done (pos (h * 3600)))
    × ((t d : ℕ) → t + d ≤ 8000000000000 → c.plus (pos t) (pos d) ≡ done (pos (t + d)))

-- At most a thousand million hours.
abbrev pub IsInterval : ℤ → Type 0
IsInterval (pos h) = h ≤ 1000000000
IsInterval (negsuc h) = ⊥

abbrev pub AreIntervals : SchedulerConfig → Type 0
AreIntervals cfg =
    IsInterval cfg.semi_active_interval_hours
    × IsInterval cfg.normal_interval_hours
    × IsInterval cfg.inactive_interval_hours
    × IsInterval cfg.no_recent_interval_hours
    × IsInterval cfg.user_not_exists_interval_hours

-- The clock is before the second 4000000000000.
abbrev pub OnTime : (ℤ → GameMode → Written) → Type 0
OnTime w = (u : ℤ) (m : GameMode) → timestamp (w u m).done_at ≤ 4000000000000

interval_hours-IsInterval :
    (cfg : SchedulerConfig) (a : UserActivity)
    → AreIntervals cfg
    → IsInterval (interval_hours cfg a)
interval_hours-IsInterval cfg semi_active h = h.0
interval_hours-IsInterval cfg normal h = h.1
interval_hours-IsInterval cfg inactive h = h.2
interval_hours-IsInterval cfg no_recent h = h.3
interval_hours-IsInterval cfg user_not_exists h = h.4

next_of_interval :
    (c : Chrono) (i : ℤ) (now : ℕ)
    → Documented c
    → IsInterval i
    → now ≤ 4000000000000
    → (t : ℤ) × (and_then (c.hours i) (c.plus (pos now)) ≡ done t)
next_of_interval c (pos h) now k b n =
    (pos (now + h * 3600), rw (k.0 h (omega arith)) (k.1 now (h * 3600) (omega arith)))
next_of_interval c (negsuc h) now k b n = absurd b

-- The time of the next update is computed.
next_due-done :
    (c : Chrono) (cfg : SchedulerConfig) (r : UpdateResult) (now : ℕ)
    → Documented c
    → AreIntervals cfg
    → timestamp now ≤ 4000000000000
    → (t : ℤ) × (next_due c cfg r now ≡ done t)
unfolding next_due
next_due-done c cfg r now k b n = elim (Bool-cases r.success) [
  | inl s ↦
      let (t, e) =
        next_of_interval c (interval_hours cfg r.activity) (timestamp now) k
          (interval_hours-IsInterval cfg r.activity b) n in
      (t, rw (s) e)
  | inr s ↦ (pos (timestamp now), rw (s) refl)
]

pub write_all-scheduled :
    (c : Chrono) (cfg : SchedulerConfig) (w : ℤ → GameMode → Written) (u : ℤ) (m : GameMode)
    (rs : List (ℤ × GameMode × UpdateResult)) (rows : List NextUpdate)
    → Documented c
    → AreIntervals cfg
    → OnTime w
    → AllWrite w
    → (is_scheduled u m rows || occurs u m (map evaluated_pair rs)) ≡ true
    → ((write_all c cfg w rs rows).1 ≡ false)
      × (is_scheduled u m (write_all c cfg w rs rows).0 ≡ true)
unfolding write_all
write_all-scheduled c cfg w u m [] rows k b n ok h = (refl, ground arith)
write_all-scheduled c cfg w u m ((u', m', r) ∷ rs) rows k b n ok h =
    let (t, e) = next_due-done c cfg r (w u' m').done_at k b (n u' m') in
    rw (e, write_all)
      (rw (ok u' m') (
        write_all-scheduled c cfg w u m rs (set_next_update u' m' t rows) k b n ok
          (ground (arith, stays_scheduled u u' m m' t rows, becomes_scheduled u u' m m' t rows))))
