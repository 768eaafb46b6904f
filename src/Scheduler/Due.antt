-- ===== src/Scheduler/Due.antt =====
-- Who is due (osubot-core/src/storage.rs, get_due_users).
use osubot_rs.Prelude.{
  ◌≡◌, refl, true, false, List, [], ◌∷◌, ◌++◌, Option, none, some, ltb, ◌==◌, ℤ, eq_i64,
  eq_i64_same, arith, Bool-cases, inl, inr, is_some, if_both, ◌⊎◌,
}
use osubot_rs.GameMode.{GameMode, osu, taiko, catch, mania, to_i32}
use osubot_rs.Database.Table.{count_where, select_where, first_row}
use osubot_rs.Database.Table.First.{first-none}
use osubot_rs.Database.Listeners.Keys.{eq_i64_refl}
use osubot_rs.Database.Bindings.{Binding, NextUpdate, has_user_id}
use osubot_rs.Database.Schedule.{
  next_of, next_time, get_next_update, if_unscheduled, unscheduled, get_due_users,
}
use osubot_rs.Scheduler.Times.{occurs, is_scheduled}

pub no_row :
    (u : ℤ) (m : GameMode) (updates : List NextUpdate)
    → is_scheduled u m updates ≡ false
    → count_where (next_of u m) updates ≡ 0
unfolding get_next_update
no_row u m updates h =
    first-none (next_of u m) updates (none_found (first_row (select_where (next_of u m) updates)) h)
  where
    none_found : (o : Option NextUpdate) → is_some (next_time o) ≡ false → o ≡ none
    none_found none h = refl
    none_found (some n) h = absurd (ground arith)

module _ (u : ℤ) (m : GameMode) (updates : List NextUpdate) where
  pub hit :
      (rest : List (ℤ × GameMode))
      → count_where (next_of u m) updates ≡ 0
      → occurs u m (if_unscheduled u m updates rest) ≡ true
  hit rest z = rw (z, eq_i64_refl u, eq_i64_refl (to_i32 m)) refl

  pub skip :
      (u' : ℤ) (m' : GameMode) (rest : List (ℤ × GameMode))
      → occurs u m rest ≡ true
      → occurs u m (if_unscheduled u' m' updates rest) ≡ true
  skip u' m' rest h =
      if_both (λ l. occurs u m l ≡ true) (count_where (next_of u' m') updates == 0) (ground arith) h

-- The modes of a user that have no time, in front of `rest`.
abbrev pub modes_of : ℤ → List NextUpdate → List (ℤ × GameMode) → List (ℤ × GameMode)
modes_of u updates rest = if_unscheduled u osu updates (
    if_unscheduled u taiko updates
      (if_unscheduled u catch updates (if_unscheduled u mania updates rest)))

pub mode_due :
    (u : ℤ) (m : GameMode) (updates : List NextUpdate) (rest : List (ℤ × GameMode))
    → count_where (next_of u m) updates ≡ 0
    → occurs u m (modes_of u updates rest) ≡ true
mode_due u osu updates rest z = hit u osu updates _ z
mode_due u taiko updates rest z = skip u taiko updates u osu _ (hit u taiko updates _ z)
mode_due u catch updates rest z =
    skip u catch updates u osu _ (skip u catch updates u taiko _ (hit u catch updates _ z))
mode_due u mania updates rest z =
    skip u mania updates u osu _
      (skip u mania updates u taiko _ (skip u mania updates u catch _ (hit u mania updates _ z)))

pub other_due :
    (u u' : ℤ) (m : GameMode) (updates : List NextUpdate) (rest : List (ℤ × GameMode))
    → occurs u m rest ≡ true
    → occurs u m (modes_of u' updates rest) ≡ true
other_due u u' m updates rest h =
    skip u m updates u' osu _
      (skip u m updates u' taiko _ (skip u m updates u' catch _ (skip u m updates u' mania rest h)))

-- A pair of a user who is bound, with no time, is due.
pub unscheduled_due :
    (u : ℤ) (m : GameMode) (bs : List Binding) (updates : List NextUpdate)
    → ltb 0 (count_where (has_user_id u) bs) ≡ true
    → count_where (next_of u m) updates ≡ 0
    → occurs u m (unscheduled bs updates) ≡ true
unfolding unscheduled count_where
unscheduled_due u m [] updates h z = ground arith
unscheduled_due u m (b ∷ bs) updates h z = elim (Bool-cases (eq_i64 b.user_id u)) [
  | inl q ↦ rw (eq_i64_same b.user_id u q) (mode_due u m updates (unscheduled bs updates) z)
  | inr q ↦
      other_due u b.user_id m updates (unscheduled bs updates)
        (unscheduled_due u m bs updates (ground arith) z)
]

pub occurs-append :
    (u : ℤ) (m : GameMode) (xs ys : List (ℤ × GameMode))
    → occurs u m ys ≡ true
    → occurs u m (xs ++ ys) ≡ true
occurs-append u m [] ys h = h
occurs-append u m (x ∷ xs) ys h = ground (arith, occurs-append u m xs ys h)

pub due_or_scheduled :
    (u : ℤ) (m : GameMode) (now : ℤ) (bs : List Binding) (updates : List NextUpdate)
    → ltb 0 (count_where (has_user_id u) bs) ≡ true
    → (is_scheduled u m updates ≡ true) ⊎ (occurs u m (get_due_users now bs updates) ≡ true)
unfolding get_due_users
due_or_scheduled u m now bs updates h = elim (Bool-cases (is_scheduled u m updates)) [
  | inl q ↦ inl q
  | inr q ↦ inr (
      occurs-append u m _ (unscheduled bs updates)
        (unscheduled_due u m bs updates h (no_row u m updates q)))
]
