-- ===== src/Poller/Retry.antt =====
-- What a poll leaves for the next one.
use osubot_rs.Prelude.{
  ℕ, ◌≡◌, refl, true, false, not, List, [], ◌∷◌, Option, none, some, arith, All, inl, inr,
  Bool-cases, ◌∙◌, sym, is_some,
}
use osubot_rs.MatchListener.{
  LegacyMatchEvent, ListenerCursor, NotificationAction, text, image, StateMachineOutput,
  process_events, initial,
}
use osubot_rs.MatchListener.Cursor.{NotAfter, Ascending, process_events-NotAfter}
use osubot_rs.MatchListener.Notified.{After, Rising, event_id_of, end_of, process_events-Rising}
use osubot_rs.MatchListener.Sequel.{next_cursor, process_events_again, NotAfter-refl}
use osubot_rs.Poller.{
  MatchListenConfig, Channel, send_notification, should_emit_notification,
  apply_acknowledged_notification, deliver, progress_of, process_one, same_id,
}

NotAfter-After : (a last : Option ℕ) (id : ℕ) → NotAfter a last → After last id → After a id
NotAfter-After a last id h r = ground arith

NotAfter-trans : (a b c : Option ℕ) → NotAfter a b → NotAfter b c → NotAfter a c
NotAfter-trans a b c h k = ground arith

module _ {Content : Type 0} where
  -- No notification of a rising list is of an event at or before the cursor.
  Rising-After :
      (a last : Option ℕ) (k : ℕ) (ns : List (NotificationAction Content))
      → NotAfter a last
      → Rising last k ns
      → All (λ n. After a (event_id_of n)) ns
  Rising-After a last k [] h r = tt
  Rising-After a last k (n ∷ ns) h r =
      (ground arith, Rising-After a (some (event_id_of n)) k ns (ground arith) r.2)

  -- Acknowledging leaves the cursor where it is, or takes it to the notification's event.
  acknowledged-NotAfter :
      (c : ListenerCursor) (n : NotificationAction Content)
      → After c.last_event_id (event_id_of n)
      → NotAfter (apply_acknowledged_notification c n).last_event_id (some (event_id_of n))
        × NotAfter c.last_event_id (apply_acknowledged_notification c n).last_event_id
  unfolding apply_acknowledged_notification
  acknowledged-NotAfter c (text id event_type t) a = (ground arith, ground arith)
  acknowledged-NotAfter c (image id label played_at game) a =
      (ground (arith, NotAfter-refl c.last_event_id), ground (arith, NotAfter-refl c.last_event_id))

  deliver-After :
      (cfg : MatchListenConfig) (ch : Channel Content) (c : ListenerCursor) (last : Option ℕ)
      (k : ℕ) (ns : List (NotificationAction Content))
      → NotAfter c.last_event_id last
      → Rising last k ns
      → All
          (λ n. After (deliver cfg ch c ns).0.last_event_id (event_id_of n))
          (deliver cfg ch c ns).1
        × NotAfter c.last_event_id (deliver cfg ch c ns).0.last_event_id
  unfolding deliver
  deliver-After cfg ch c last k [] h r = (tt, NotAfter-refl c.last_event_id)
  deliver-After cfg ch c last k (n ∷ ns) h r =
      let a =
        acknowledged-NotAfter c n (NotAfter-After c.last_event_id last (event_id_of n) h r.0) in
      let c' = apply_acknowledged_notification c n in
      let i = deliver-After cfg ch c' (some (event_id_of n)) k ns a.0 r.2 in
      let on = NotAfter-trans c.last_event_id c'.last_event_id _ a.1 i.1 in
      elim (Bool-cases (not (should_emit_notification cfg n))) [
        | inl e ↦ rw (e) (i.0, on)
        | inr e ↦ rw (e) (elim (Bool-cases (send_notification ch n)) [
          | inl s ↦ rw (s) (i.0, on)
          | inr s ↦
              rw (s)
                (Rising-After c.last_event_id last k (n ∷ ns) h r, NotAfter-refl c.last_event_id)
        ])
      ]

  progress_of-After :
      (c : ListenerCursor) (output : StateMachineOutput Content)
      (d : ListenerCursor × List (NotificationAction Content))
      → NotAfter c.last_event_id output.new_last_event_id
      → All (λ n. After d.0.last_event_id (event_id_of n)) d.1
      → NotAfter c.last_event_id d.0.last_event_id
      → All
          (λ n. After (progress_of c output d).final_cursor.last_event_id (event_id_of n))
          (progress_of c output d).undelivered
        × NotAfter c.last_event_id (progress_of c output d).final_cursor.last_event_id
  progress_of-After c output (a, []) o h l = (tt, o)
  progress_of-After c output (a, n ∷ ns) o h l = (h, l)

same_id_refl : (a : Option ℕ) → same_id a a ≡ true
same_id_refl none = refl
same_id_refl (some a) = ground arith

-- For events with rising ids, whichever messages are delivered: the events of the notifications that a
-- poll did not deliver lie behind the cursor that it stores, and that cursor is not before the one it
-- began with.
pub process_one_retries :
    {Content : Type 0} (cfg : MatchListenConfig) (ch : Channel Content) (c : ListenerCursor)
    (es : List (LegacyMatchEvent Content))
    → Ascending 0 es
    → All
        (λ n. After (process_one cfg ch c es).final_cursor.last_event_id (event_id_of n))
        (process_one cfg ch c es).undelivered
      × NotAfter c.last_event_id (process_one cfg ch c es).final_cursor.last_event_id
unfolding process_one
process_one_retries cfg ch c es h =
    let o = process_events c es in
    let d =
      deliver-After cfg ch c c.last_event_id (end_of 0 es) o.notifications
        (NotAfter-refl c.last_event_id) (process_events-Rising c es h) in
    progress_of-After c o (deliver cfg ch c o.notifications) (process_events-NotAfter c es) d.0 d.1

-- What a poll that delivers everything stores, as a function of what the state machine gives.
progress_of_delivered :
    {Content : Type 0} (c : ListenerCursor) (output : StateMachineOutput Content)
    (d : ListenerCursor × List (NotificationAction Content))
    → (progress_of c output d).undelivered ≡ []
    → ((progress_of c output d).final_cursor ≡ next_cursor output)
      × ((progress_of c output d).stopped ≡ is_some output.stop_reason)
progress_of_delivered c output (a, []) h = (refl, refl)
progress_of_delivered c output (a, n ∷ ns) h = absurd (ground arith)

-- A poll on a response that gives nothing new.
process_one_quiet :
    {Content : Type 0} (cfg : MatchListenConfig) (ch : Channel Content) (c : ListenerCursor)
    (es : List (LegacyMatchEvent Content))
    → process_events c es ≡ initial c
    → process_one cfg ch c es ≡ record {
      final_cursor = c;
      touch_last_notified_at = false;
      stopped = false;
      undelivered = [];
    }
unfolding process_one deliver
process_one_quiet cfg ch c es e = rw (e, same_id_refl c.last_notified_event_id) refl

none-is_some : {A : Type 0} (o : Option A) → is_some o ≡ false → o ≡ none
none-is_some none h = refl
none-is_some (some a) h = absurd (ground arith)

again_quiet :
    {Content : Type 0} (cfg : MatchListenConfig) (ch : Channel Content) (c : ListenerCursor)
    (es : List (LegacyMatchEvent Content))
    → Ascending 0 es
    → (process_one cfg ch c es).undelivered ≡ []
    → (process_one cfg ch c es).stopped ≡ false
    → process_events (process_one cfg ch c es).final_cursor es
      ≡ initial (process_one cfg ch c es).final_cursor
unfolding process_one
again_quiet cfg ch c es h u s =
    let o = process_events c es in
    let (at, stop) = progress_of_delivered c o (deliver cfg ch c o.notifications) u in
    rw (at) (process_events_again c es h (none-is_some o.stop_reason (sym stop ∙ s)))

-- For events with rising ids: once a poll has handled all its notifications and did not stop the
-- listener, a poll of the same response, with any settings and whatever can be sent, leaves the cursor,
-- does not touch the time of the last notification, and sends nothing.
pub process_one_again :
    {Content : Type 0} (cfg cfg' : MatchListenConfig) (ch ch' : Channel Content)
    (c : ListenerCursor) (es : List (LegacyMatchEvent Content))
    → Ascending 0 es
    → (process_one cfg ch c es).undelivered ≡ []
    → (process_one cfg ch c es).stopped ≡ false
    → process_one cfg' ch' (process_one cfg ch c es).final_cursor es ≡ record {
      final_cursor = (process_one cfg ch c es).final_cursor;
      touch_last_notified_at = false;
      stopped = false;
      undelivered = [];
    }
process_one_again cfg cfg' ch ch' c es h u s =
    process_one_quiet cfg' ch' (process_one cfg ch c es).final_cursor es
      (again_quiet cfg ch c es h u s)
