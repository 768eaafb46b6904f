-- ===== src/MatchStart/Actions/Limit.antt =====
-- How many listeners of a chat run at once (osubot/src/command/match_listen.rs and
-- osubot-core/src/storage.rs).
use osubot_rs.Prelude.{
  ℕ, zero, suc, ◌≤◌, ◌<◌, refl, not, ◌&&◌, Option, none, some, ltb, ℤ, pos, negsuc, eq_i64, lt_i64,
  arith, [], Bool-cases, inl, inr,
}
use osubot_rs.Text.{text_eq}
use osubot_rs.Types.{MatchListenAction}
use osubot_rs.Poller.{MatchListenConfig}
use osubot_rs.MatchStart.{as_i64, initial_cursor_from_response, InitialMatchCursor}
use osubot_rs.MatchStart.Actions.{
  Attempt, LegacyMatchResponse, Table, execute_ml_action, execute_start, execute_stop,
  execute_stop_all, counted, group_or_private_key, started_with, start_params, runs_already,
}
use osubot_rs.Database.Table.{count_where}
use osubot_rs.Database.Listeners.{
  MatchListener, is_private, at_key, runs_in_group, stop_match_listener,
  stop_all_match_listeners_in_group, update_match_listener_progress, expire_old_match_listeners,
  count_active_match_listeners_in_group, get_match_listener,
}
use osubot_rs.MatchStart.Actions.Chats.{IsChat, NotAfter, NotAfter-trans, later, counted_key}
use osubot_rs.MatchStart.Actions.Kept.{
  Kept, Kept-later, Kept-stopped, Kept-progressed, ParamsKeyed, Kept-started,
}

module _ {Content : Type 0} where
  -- The statements of an action run one after another, from the time `b` to the time `e`.
  abbrev pub Between : ℤ → Attempt Content → ℤ → Type 0
  Between b a e =
      NotAfter b a.asked_at
      × NotAfter a.asked_at a.counted_at
      × NotAfter a.counted_at a.started_at
      × NotAfter a.started_at e

-- What happens to the table: actions of chats, stores of the poller and the clean-up, each after
-- the one before, up to a time.
pub data Served (Content : Type 0) (cfg : MatchListenConfig) : ℤ → Table → Type 0 where
  opened : (t : ℤ) → Served Content cfg t []
  acted :
      (b e : ℤ) (rows : Table) (a : Attempt Content) (action : MatchListenAction) (g : Option ℤ)
      (u : ℤ)
      → Served Content cfg b rows
      → Between b a e
      → IsChat g u
      → Served Content cfg e (execute_ml_action cfg a action g u rows).1
  polled :
      (t m g : ℤ) (last notified pending : Option ℤ) (touched : Option ℕ) (rows : Table)
      → Served Content cfg t rows
      → Served Content cfg t (update_match_listener_progress m g last notified pending touched rows)
  cleaned :
      (t now : ℤ) (rows : Table)
      → Served Content cfg t rows
      → Served Content cfg t (expire_old_match_listeners now rows)
  passed :
      (b e : ℤ) (rows : Table)
      → NotAfter b e
      → Served Content cfg b rows
      → Served Content cfg e rows

module _ {Content : Type 0} where
  params_keyed :
      (a : Attempt Content) (m : ℕ) (c : InitialMatchCursor) (g : Option ℤ) (u : ℤ)
      (r : LegacyMatchResponse Content)
      → IsChat g u
      → ParamsKeyed (start_params a m c g u r)
  unfolding start_params is_private text_eq
  params_keyed a m c none (pos (suc u)) r h l at_user at_type at_group =
      rw (at_user, at_type, at_group) refl
  params_keyed a m c none (pos zero) r h l at_user at_type at_group = elim h [ ]
  params_keyed a m c none (negsuc u) r h l at_user at_type at_group = elim h [ ]
  params_keyed a m c (some (pos g)) u r h l at_user at_type at_group =
      rw (at_user, at_type, at_group) tt
  params_keyed a m c (some (negsuc g)) u r h l at_user at_type at_group = elim h [ ]

  Kept-started_with :
      (max : ℕ) (a : Attempt Content) (m skip : ℕ) (g : Option ℤ) (u : ℤ)
      (r : Option (LegacyMatchResponse Content)) (rows : Table)
      → IsChat g u
      → count_where (runs_in_group (group_or_private_key g u) a.started_at) rows < max
      → Kept max a.started_at rows
      → Kept max a.started_at (started_with a m skip g u r rows).1
  unfolding started_with
  Kept-started_with max a m skip g u none rows c free k = k
  Kept-started_with max a m skip g u (some r) rows c free k =
      let cursor = initial_cursor_from_response r.latest_event_id r.events skip in
      elim (Bool-cases a.write_fails) [
        | inl q ↦ rw (q) k
        | inr q ↦ rw (q) (
            Kept-started max a.started_at (start_params a m cursor g u r) a.created_at rows
              (params_keyed a m cursor g u r c) free k)
      ]

  Between-ends : (b e : ℤ) (a : Attempt Content) → Between b a e → NotAfter b e
  Between-ends b e a (p, q, r, s) =
      NotAfter-trans b a.asked_at e p (
        NotAfter-trans a.asked_at a.counted_at e q (NotAfter-trans a.counted_at a.started_at e r s))

  Kept-start :
      (cfg : MatchListenConfig) (b e : ℤ) (a : Attempt Content) (m skip : ℕ) (g : Option ℤ) (u : ℤ)
      (rows : Table)
      → IsChat g u
      → Between b a e
      → Kept cfg.max_per_group b rows
      → Kept cfg.max_per_group e (execute_start cfg a m skip g u rows).1
  unfolding execute_start
  Kept-start cfg b e a m skip g u rows c (p, q, r, s) k =
      let key = group_or_private_key g u in
      let by_asked = NotAfter-trans b a.asked_at a.counted_at p q in
      let by_started = NotAfter-trans b a.counted_at a.started_at by_asked r in
      let idle = Kept-later cfg.max_per_group b e rows (Between-ends b e a (p, q, r, s)) k in
      elim (Bool-cases
        (not a.get_fails && runs_already a.asked_at (get_match_listener (as_i64 m) key rows))) [
          | inl x ↦ rw (x) idle
          | inr x ↦ elim (Bool-cases a.count_fails) [
            | inl y ↦ rw (x, y) idle
            | inr y ↦ elim (Bool-cases (ltb (counted a.counted_at g u rows) cfg.max_per_group)) [
              | inl z ↦
                  rw (x, y, z)
                    (Kept-later cfg.max_per_group a.started_at e
                      (started_with a m skip g u a.response rows).1 s
                      (Kept-started_with cfg.max_per_group a m skip g u a.response rows c
                        (ground (
                          arith,
                          z,
                          counted_key a.counted_at g u rows c k.keyed,
                          later key a.counted_at a.started_at rows r,
                        ))
                        (Kept-later cfg.max_per_group b a.started_at rows by_started k)))
              | inr z ↦ rw (x, y, z) idle
            ]
          ]
        ]

  Kept-stop :
      (max : ℕ) (t : ℤ) (a : Attempt Content) (m : ℕ) (g : Option ℤ) (u : ℤ) (rows : Table)
      → Kept max t rows
      → Kept max t (execute_stop a m g u rows).1
  unfolding execute_stop stop_match_listener
  Kept-stop max t a m g u rows k =
      let key = group_or_private_key g u in
      let p = λ (l : MatchListener). at_key (as_i64 m) key l && l.active in
      elim (Bool-cases a.write_fails) [
        | inl x ↦ rw (x) k
        | inr x ↦ elim (Bool-cases (ltb 0 (count_where p rows))) [
          | inl y ↦ rw (x, y) (Kept-stopped max t p rows k)
          | inr y ↦ rw (x, y) (Kept-stopped max t p rows k)
        ]
      ]

  Kept-stop_all :
      (max : ℕ) (t : ℤ) (a : Attempt Content) (g : Option ℤ) (u : ℤ) (rows : Table)
      → Kept max t rows
      → Kept max t (execute_stop_all a g u rows).1
  unfolding execute_stop_all stop_all_match_listeners_in_group
  Kept-stop_all max t a g u rows k =
      let p = λ (l : MatchListener). eq_i64 l.group_id (group_or_private_key g u) && l.active in
      elim (Bool-cases a.write_fails) [
        | inl x ↦ rw (x) k
        | inr x ↦ rw (x) (Kept-stopped max t p rows k)
      ]

  Kept-action :
      (cfg : MatchListenConfig) (b e : ℤ) (a : Attempt Content) (action : MatchListenAction)
      (g : Option ℤ) (u : ℤ) (rows : Table)
      → IsChat g u
      → Between b a e
      → Kept cfg.max_per_group b rows
      → Kept cfg.max_per_group e (execute_ml_action cfg a action g u rows).1
  unfolding execute_ml_action
  Kept-action cfg b e a (MatchListenAction.start m skip) g u rows c o k =
      Kept-start cfg b e a m skip g u rows c o k
  Kept-action cfg b e a (MatchListenAction.stop m) g u rows c o k =
      Kept-stop cfg.max_per_group e a m g u rows
        (Kept-later cfg.max_per_group b e rows (Between-ends b e a o) k)
  Kept-action cfg b e a MatchListenAction.stop_all g u rows c o k =
      Kept-stop_all cfg.max_per_group e a g u rows
        (Kept-later cfg.max_per_group b e rows (Between-ends b e a o) k)
  Kept-action cfg b e a MatchListenAction.list g u rows c o k =
      Kept-later cfg.max_per_group b e rows (Between-ends b e a o) k
  Kept-action cfg b e a (MatchListenAction.status m) g u rows c o k =
      Kept-later cfg.max_per_group b e rows (Between-ends b e a o) k

Kept-Served :
    {Content : Type 0} (cfg : MatchListenConfig) (t : ℤ) (rows : Table)
    → Served Content cfg t rows
    → Kept cfg.max_per_group t rows
unfolding count_where expire_old_match_listeners
Kept-Served cfg _ _ (opened t) = record { keyed = tt; within = λ key. omega arith }
Kept-Served cfg _ _ (acted b e rows a action g u s o c) =
    Kept-action cfg b e a action g u rows c o (Kept-Served cfg b rows s)
Kept-Served cfg _ _ (polled t m g l n p touched rows s) =
    Kept-progressed cfg.max_per_group t m g l n p touched rows (Kept-Served cfg t rows s)
Kept-Served cfg _ _ (cleaned t now rows s) =
    Kept-stopped cfg.max_per_group t (λ l. l.active && lt_i64 l.expires_at now) rows
      (Kept-Served cfg t rows s)
Kept-Served cfg _ _ (passed b e rows h s) =
    Kept-later cfg.max_per_group b e rows h (Kept-Served cfg b rows s)

-- When the actions are served one after another, no group and no private chat ever has more
-- listeners that run than the configured limit, whatever the actions, the polls and the clean-ups.
pub count_active-Served :
    {Content : Type 0} (cfg : MatchListenConfig) (now : ℤ) (rows : Table)
    → Served Content cfg now rows
    → (key : ℤ) → count_active_match_listeners_in_group key now rows ≤ cfg.max_per_group
unfolding count_active_match_listeners_in_group
count_active-Served cfg now rows s key = (Kept-Served cfg now rows s).within key
