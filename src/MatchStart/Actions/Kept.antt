-- ===== src/MatchStart/Actions/Kept.antt =====
-- The statements on the table of listeners keep the number of those that run in a chat within a limit
-- (osubot-core/src/storage.rs).
use osubot_rs.Prelude.{
  ℕ, ◌≤◌, ◌<◌, ◌≡◌, refl, Bool, true, Option, ℤ, eq_i64, eq_i64_same, arith, All, Bool-cases, inl,
  inr,
}
use osubot_rs.MatchStart.Actions.{Table}
use osubot_rs.Database.Table.{update_where, count_where}
use osubot_rs.Database.Table.Counts.{
  count-update-le, count-upsert-le, count-upsert-elsewhere, All-update, All-upsert,
}
use osubot_rs.Database.Listeners.{
  MatchListener, MatchListenerStartParams, is_private, at_key, restarted, new_row, deactivated,
  progressed, runs_in_group, start_match_listener, update_match_listener_progress,
}
use osubot_rs.MatchStart.Actions.Chats.{Keyed, NotAfter, later}

pub record Kept (max : ℕ) (t : ℤ) (rows : Table) : Type 0 where
  pub keyed : All Keyed rows
  pub within : (key : ℤ) → count_where (runs_in_group key t) rows ≤ max

pub Kept-later :
    (max : ℕ) (a b : ℤ) (rows : Table) → NotAfter a b → Kept max a rows → Kept max b rows
Kept-later max a b rows h k = record {
  keyed = k.keyed;
  within = λ key. ground (arith, later key a b rows h, k.within key);
}

-- An update that makes no row run, and leaves the keys.
pub Kept-update :
    (max : ℕ) (t : ℤ) (p : MatchListener → Bool) (set : MatchListener → MatchListener)
    (rows : Table)
    → ((l : MatchListener) → Keyed l → Keyed (set l))
    → ((key : ℤ) (l : MatchListener)
        → runs_in_group key t (set l) ≡ true
        → runs_in_group key t l ≡ true)
    → Kept max t rows
    → Kept max t (update_where p set rows)
Kept-update max t p set rows same less k = record {
  keyed = All-update Keyed p set rows same k.keyed;
  within = λ key.
      ground
        (arith, k.within key, count-update-le (runs_in_group key t) p set rows (λ l _. less key l));
}

pub Kept-stopped :
    (max : ℕ) (t : ℤ) (p : MatchListener → Bool) (rows : Table)
    → Kept max t rows
    → Kept max t (update_where p deactivated rows)
unfolding is_private
Kept-stopped max t p rows k =
    Kept-update max t p deactivated rows (λ l h. h) (λ key l r. ground arith) k

pub Kept-progressed :
    (max : ℕ) (t m g : ℤ) (a b c : Option ℤ) (d : Option ℕ) (rows : Table)
    → Kept max t rows
    → Kept max t (update_match_listener_progress m g a b c d rows)
unfolding update_match_listener_progress is_private
Kept-progressed max t m g a b c d rows k =
    Kept-update max t (at_key m g) (progressed a b c d) rows (λ l h. h) (λ key l r. r) k

-- The parameters have the key of a chat.
abbrev pub ParamsKeyed : MatchListenerStartParams → Type 0
ParamsKeyed p =
    (l : MatchListener)
    → l.user_id ≡ p.user_id
    → l.notification_type ≡ p.notification_type
    → l.group_id ≡ p.group_id
    → Keyed l

-- A start at a key whose count is below the limit.
pub Kept-started :
    (max : ℕ) (t : ℤ) (p : MatchListenerStartParams) (created : ℕ) (rows : Table)
    → ParamsKeyed p
    → count_where (runs_in_group p.group_id t) rows < max
    → Kept max t rows
    → Kept max t (start_match_listener p created t rows)
unfolding start_match_listener
Kept-started max t p created rows keyed free k = record {
  keyed =
      All-upsert Keyed (at_key p.match_id p.group_id) (restarted p created t) (new_row p created)
        rows (keyed (new_row p created) refl refl refl)
        (λ l at _. keyed (restarted p created t l) refl refl (has_key p l at)) k.keyed;
  within = λ key. elim (Bool-cases (eq_i64 p.group_id key)) [
    | inl q ↦ rw (← eq_i64_same p.group_id key q) ground (
      arith,
      free,
      count-upsert-le (runs_in_group p.group_id t) (at_key p.match_id p.group_id)
          (restarted p created t) (new_row p created) rows,
    )
    | inr q ↦ ground (
      arith,
      k.within key,
      count-upsert-elsewhere (runs_in_group key t) (at_key p.match_id p.group_id)
          (restarted p created t) (new_row p created) rows (rw (q) refl)
          (λ l at. rw (has_key p l at, q) refl),
    )
  ];
}
  where
    has_key :
        (p : MatchListenerStartParams) (l : MatchListener)
        → at_key p.match_id p.group_id l ≡ true
        → l.group_id ≡ p.group_id
    has_key p l at = eq_i64_same l.group_id p.group_id (ground arith)
