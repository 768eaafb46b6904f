-- ===== src/MatchListener/Notified.antt =====
-- The notifications of a poll, and the events they are of.
use osubot_rs.Prelude.{
  ℕ, suc, ◌≤◌, ◌<◌, ◌≡◌, refl, false, List, [], ◌∷◌, ◌++◌, Option, none, some, arith, ◌⊎◌, inl, inr,
  Bool-cases,
}
use osubot_rs.Text.{codes}
use osubot_rs.MatchListener.{
  LegacyMatchGame, push_completed, push_start, is_pending, suppressed_lobby_event, LegacyMatchEvent,
  ListenerCursor, NotificationAction, text, image, StateMachineOutput, EventKind, lobby,
  completed_game, in_progress_game, already_processed, must_wait, classify_event, handle, on_lobby,
  on_completed, on_in_progress, on_disbanded, process_event, process_from, process_events, initial,
}
use osubot_rs.MatchListener.Cursor.{output, Ascending, Round-cases}

-- The id lies behind `last`.
abbrev pub After : Option ℕ → ℕ → Type 0
After none id = Unit
After (some last) id = last < id

not_processed-After : (last : Option ℕ) (id : ℕ) → already_processed last id ≡ false → After last id
not_processed-After none id h = tt
not_processed-After (some last) id h = ground arith

module _ {Content : Type 0} where
  abbrev pub event_id_of : NotificationAction Content → ℕ
  event_id_of (text id event_type t) = id
  event_id_of (image id label played_at game) = id

  -- The ids of notifications rise, behind `last` and below `k`.
  abbrev pub Rising : Option ℕ → ℕ → List (NotificationAction Content) → Type 0
  Rising last k [] = Unit
  Rising last k (n ∷ ns) =
      After last (event_id_of n) × (event_id_of n < k) × Rising (some (event_id_of n)) k ns

  Rising-weaken :
      (last : Option ℕ) (k k' : ℕ) (ns : List (NotificationAction Content))
      → k ≤ k'
      → Rising last k ns
      → Rising last k' ns
  Rising-weaken last k k' [] h r = tt
  Rising-weaken last k k' (n ∷ ns) h r =
      (r.0, omega arith, Rising-weaken (some (event_id_of n)) k k' ns h r.2)

  Rising-push :
      (last : Option ℕ) (k : ℕ) (ns : List (NotificationAction Content))
      (n : NotificationAction Content)
      → After last (event_id_of n)
      → k ≤ event_id_of n
      → Rising last k ns
      → Rising last (suc (event_id_of n)) (ns ++ (n ∷ []))
  Rising-push last k [] n a h r = (a, omega arith, tt)
  Rising-push last k (m ∷ ns) n a h r =
      (r.0, omega arith, Rising-push (some (event_id_of m)) k ns n (omega arith) h r.2)

  -- Each handler adds one notification at most, with the id of the event.
  pub data Adds (e : LegacyMatchEvent Content) (ns ns' : List (NotificationAction Content))
      : Type 0 where
    same : ns' ≡ ns → Adds e ns ns'
    one :
        (n : NotificationAction Content)
        → event_id_of n ≡ e.id
        → ns' ≡ ns ++ (n ∷ [])
        → Adds e ns ns'

  on_lobby-Adds :
      (o : StateMachineOutput Content) (e : LegacyMatchEvent Content)
      → Adds e o.notifications (on_lobby o e).notifications
  unfolding on_lobby
  on_lobby-Adds o e = elim (Bool-cases (suppressed_lobby_event e.detail.event_type)) [
    | inl h ↦ same (rw (h, on_lobby))
    | inr h ↦ one (text e.id e.detail.event_type e.detail.text) refl (rw (h, on_lobby))
  ]

  push_completed-Adds :
      (o : StateMachineOutput Content) (e : LegacyMatchEvent Content)
      (g : Option (LegacyMatchGame Content))
      → Adds e o.notifications (push_completed o e g).notifications
  unfolding push_completed
  push_completed-Adds o e none = same refl
  push_completed-Adds o e (some game) = one _ refl refl

  on_completed_notifications :
      (o : StateMachineOutput Content) (e : LegacyMatchEvent Content)
      → (on_completed o e).notifications ≡ (push_completed o e e.game).notifications
  unfolding on_completed
  on_completed_notifications o e = ground arith

  push_start-Adds :
      (o : StateMachineOutput Content) (e : LegacyMatchEvent Content)
      (g : Option (LegacyMatchGame Content))
      → Adds e o.notifications (push_start o e g).notifications
  unfolding push_start
  push_start-Adds o e none = same refl
  push_start-Adds o e (some game) =
      elim (Bool-cases (is_pending o.new_pending_game_event_id e.id)) [
        | inl h ↦ same (rw (h, push_start))
        | inr h ↦ one (image e.id (codes "场次开始") e.timestamp game) refl (rw (h, push_start))
      ]

  handle-Adds :
      (kind : EventKind) (o : StateMachineOutput Content) (e : LegacyMatchEvent Content)
      → Adds e o.notifications (output (handle kind o e)).notifications
  unfolding on_in_progress on_disbanded
  handle-Adds lobby o e = on_lobby-Adds o e
  handle-Adds completed_game o e =
      rw (on_completed_notifications o e) (push_completed-Adds o e e.game)
  handle-Adds in_progress_game o e = push_start-Adds o e e.game
  handle-Adds EventKind.match_disbanded o e =
      one (text e.id e.detail.event_type e.detail.text) refl refl

  pub process_event-Adds :
      (c : ListenerCursor) (o : StateMachineOutput Content) (e : LegacyMatchEvent Content)
      → After c.last_event_id e.id
          × Adds e o.notifications (output (process_event c o e)).notifications
        ⊎ (output (process_event c o e) ≡ o)
  unfolding process_event
  process_event-Adds c o e = elim (Bool-cases (already_processed c.last_event_id e.id)) [
    | inl old ↦ inr (rw (old, process_event))
    | inr new ↦
        elim (Bool-cases (must_wait c.pending_game_event_id o.new_pending_game_event_id e.id)) [
          | inl wait ↦ inr (rw (new, process_event) (rw wait))
          | inr ready ↦ inl (
            not_processed-After c.last_event_id e.id new,
            rw (new, process_event) (rw ready (handle-Adds (classify_event e) o e)),
          )
        ]
  ]

  Adds-Rising :
      (last : Option ℕ) (k : ℕ) (e : LegacyMatchEvent Content)
      (ns ns' : List (NotificationAction Content))
      → k ≤ e.id
      → After last e.id
      → Rising last k ns
      → Adds e ns ns'
      → Rising last (suc e.id) ns'
  Adds-Rising last k e ns ns' h a r (same q) =
      rw q (Rising-weaken last k (suc e.id) ns (omega arith) r)
  Adds-Rising last k e ns ns' h a r (one n i q) =
      rw (q, ← i) (Rising-push last k ns n (rw i a) (rw i h) r)

  process_event-Rising :
      (c : ListenerCursor) (o : StateMachineOutput Content) (e : LegacyMatchEvent Content) (k : ℕ)
      → k ≤ e.id
      → Rising c.last_event_id k o.notifications
      → Rising c.last_event_id (suc e.id) (output (process_event c o e)).notifications
  process_event-Rising c o e k h r = elim (process_event-Adds c o e) [
    | inl (a, added) ↦ Adds-Rising c.last_event_id k e o.notifications _ h a r added
    | inr unchanged ↦
        rw unchanged (Rising-weaken c.last_event_id k (suc e.id) o.notifications (omega arith) r)
  ]

  -- The largest id of a batch, plus one.
  abbrev pub end_of : ℕ → List (LegacyMatchEvent Content) → ℕ
  end_of k [] = k
  end_of k (e ∷ es) = end_of (suc e.id) es

  le-end_of : (k : ℕ) (es : List (LegacyMatchEvent Content)) → Ascending k es → k ≤ end_of k es
  le-end_of k [] h = omega arith
  le-end_of k (e ∷ es) h = omega (arith, le-end_of (suc e.id) es h.1)

  process_from-Rising :
      (c : ListenerCursor) (o : StateMachineOutput Content) (es : List (LegacyMatchEvent Content))
      (k : ℕ)
      → Ascending k es
      → Rising c.last_event_id k o.notifications
      → Rising c.last_event_id (end_of k es) (process_from c o es).notifications
  unfolding process_from
  process_from-Rising c o [] k h r = r
  process_from-Rising c o (e ∷ es) k h r = elim (Round-cases (process_event c o e)) [
    | inl (o', went) ↦
        rw (went, process_from)
          (process_from-Rising c o' es (suc e.id) h.1
            (rw went at (process_event-Rising c o e k h.0 r)))
    | inr (o', broke) ↦
        rw (broke, process_from)
          (Rising-weaken c.last_event_id (suc e.id) (end_of (suc e.id) es) o'.notifications
            (le-end_of (suc e.id) es h.1) (rw broke at (process_event-Rising c o e k h.0 r)))
  ]

-- For events with rising ids the ids of the notifications of a poll rise, behind the cursor.
pub process_events-Rising :
    {Content : Type 0} (c : ListenerCursor) (es : List (LegacyMatchEvent Content))
    → Ascending 0 es
    → Rising c.last_event_id (end_of 0 es) (process_events c es).notifications
unfolding process_events
process_events-Rising c es h = process_from-Rising c (initial c) es 0 h tt
