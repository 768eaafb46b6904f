-- ===== src/MatchStart/Actions/Outcome.antt =====
-- What the answers of `!ml start` say of the table (osubot/src/command/match_listen.rs).
use osubot_rs.Prelude.{
  ℕ, ◌≡◌, refl, Bool, true, not, ◌&&◌, Option, none, some, ltb, ℤ, pos, negsuc, ◌+ℤ◌, arith,
  Bool-cases, inl, inr,
}
use osubot_rs.Poller.{MatchListenConfig}
use osubot_rs.MatchStart.{as_i64, initial_cursor_from_response}
use osubot_rs.MatchStart.Actions.{
  Attempt, LegacyMatchResponse, Table, MlActionResult, started, failed, execute_start, counted,
  group_or_private_key, started_with, start_params, runs_already, max_listener_lifetime,
}
use osubot_rs.MatchStart.Actions.Chats.{NotAfter, NotAfter-trans}
use osubot_rs.Database.Table.First.{written}
use osubot_rs.Database.Listeners.{
  MatchListener, MatchListenerStartParams, new_row, restarted, get_match_listener,
}
use osubot_rs.Database.Listeners.Keys.{get-start, eq_i64_refl}

NotAfter-plus : (a : ℤ) (n : ℕ) → NotAfter a (a +ℤ pos n)
unfolding ◌+ℤ◌
NotAfter-plus (pos a) n = ground arith
NotAfter-plus (negsuc a) n = ground arith

written_runs :
    (p : MatchListenerStartParams) (created : ℕ) (now t : ℤ) (o : Option MatchListener)
    → NotAfter t p.expires_at
    → runs_already t (some (written (new_row p created) (restarted p created now) o)) ≡ true
written_runs p created now t none h = rw (h) refl
written_runs p created now t (some l) h = rw (h) refl

-- What an answer says of the tables before and after the call.
abbrev pub Answered : ℤ → ℤ → ℤ → Table → MlActionResult → Table → Type 0
Answered t m key rows (started qq name) rows' =
    runs_already t (get_match_listener m key rows') ≡ true
Answered t m key rows (failed qq why) rows' = rows' ≡ rows
Answered t m key rows _ rows' = ⊥

module _ {Content : Type 0} where
  started_with-Answered :
      (a : Attempt Content) (m skip : ℕ) (g : Option ℤ) (u : ℤ)
      (r : Option (LegacyMatchResponse Content)) (rows : Table)
      → NotAfter a.asked_at a.started_at
      → Answered a.asked_at
          (as_i64 m)
          (group_or_private_key g u)
          rows
          (started_with a m skip g u r rows).0
          (started_with a m skip g u r rows).1
  unfolding started_with
  started_with-Answered a m skip g u none rows h = refl
  started_with-Answered a m skip g u (some r) rows h =
      let p =
        start_params a m (initial_cursor_from_response r.latest_event_id r.events skip) g u r in
      elim (Bool-cases a.write_fails) [
        | inl q ↦ rw (q) refl
        | inr q ↦
            rw
              (
                q,
                get-start p a.created_at a.started_at (as_i64 m) (group_or_private_key g u) rows,
                eq_i64_refl (as_i64 m),
                eq_i64_refl (group_or_private_key g u),
              )
              (written_runs p a.created_at a.started_at a.asked_at
                (get_match_listener (as_i64 m) (group_or_private_key g u) rows)
                (NotAfter-trans a.asked_at a.started_at (a.started_at +ℤ pos max_listener_lifetime)
                  h (NotAfter-plus a.started_at max_listener_lifetime)))
      ]

  -- A start that is answered with success leaves a listener that runs at the key of the match and the
  -- chat, whether it ran before or not, and a start that is answered with an error leaves the table as
  -- it was; there is no other answer.
  pub execute_start-Answered :
      (cfg : MatchListenConfig) (a : Attempt Content) (m skip : ℕ) (g : Option ℤ) (u : ℤ)
      (rows : Table)
      → NotAfter a.asked_at a.started_at
      → Answered a.asked_at
          (as_i64 m)
          (group_or_private_key g u)
          rows
          (execute_start cfg a m skip g u rows).0
          (execute_start cfg a m skip g u rows).1
  unfolding execute_start
  execute_start-Answered cfg a m skip g u rows h =
      let key = group_or_private_key g u in
      let runs = runs_already a.asked_at (get_match_listener (as_i64 m) key rows) in
      elim (Bool-cases (not a.get_fails && runs)) [
        | inl x ↦ rw (x) (both (not a.get_fails) runs x)
        | inr x ↦ elim (Bool-cases a.count_fails) [
          | inl y ↦ rw (x, y) refl
          | inr y ↦ elim (Bool-cases (ltb (counted a.counted_at g u rows) cfg.max_per_group)) [
            | inl z ↦ rw (x, y, z) (started_with-Answered a m skip g u a.response rows h)
            | inr z ↦ rw (x, y, z) refl
          ]
        ]
      ]
    where
      both : (b c : Bool) → (b && c) ≡ true → c ≡ true
      both b c h = ground arith
