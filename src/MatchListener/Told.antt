-- ===== src/MatchListener/Told.antt =====
-- The notifications of a poll as a part of its events (osubot/src/match_listener/state.rs).
use osubot_rs.Prelude.{◌≡◌, sym, List, [], ◌∷◌, ◌++◌, append-nil, append_assoc, inl, inr}
use osubot_rs.MatchListener.{
  LegacyMatchEvent, ListenerCursor, NotificationAction, StateMachineOutput, process_event,
  process_from, process_events, initial,
}
use osubot_rs.MatchListener.Cursor.{output, Ascending, Round-cases}
use osubot_rs.MatchListener.Notified.{
  event_id_of, Rising, Adds, same, one, process_event-Adds, end_of, process_events-Rising,
}

module _ {Content : Type 0} where
  -- Each notification is of one event of the list, and of another one than the others, in their order.
  pub data OfEvents
      : List (LegacyMatchEvent Content) → List (NotificationAction Content) → Type 0 where
    nothing : OfEvents [] []
    silent :
        (e : LegacyMatchEvent Content) (es : List (LegacyMatchEvent Content))
        (ns : List (NotificationAction Content))
        → OfEvents es ns
        → OfEvents (e ∷ es) ns
    told :
        (e : LegacyMatchEvent Content) (es : List (LegacyMatchEvent Content))
        (n : NotificationAction Content) (ns : List (NotificationAction Content))
        → event_id_of n ≡ e.id
        → OfEvents es ns
        → OfEvents (e ∷ es) (n ∷ ns)

  all_silent : (es : List (LegacyMatchEvent Content)) → OfEvents es []
  all_silent [] = nothing
  all_silent (e ∷ es) = silent e es [] (all_silent es)

  -- What is appended to `ns` is of these events.
  Appends :
      List (LegacyMatchEvent Content)
      → List (NotificationAction Content)
      → List (NotificationAction Content)
      → Type 0
  Appends es ns ns' =
      (added : List (NotificationAction Content)) × (ns' ≡ ns ++ added) × OfEvents es added

  Appends-silent :
      (e : LegacyMatchEvent Content) (es : List (LegacyMatchEvent Content))
      (ns ns' : List (NotificationAction Content))
      → Appends es ns ns'
      → Appends (e ∷ es) ns ns'
  unfolding Appends
  Appends-silent e es ns ns' (added, q, h) = (added, q, silent e es added h)

  Appends-added :
      (e : LegacyMatchEvent Content) (es : List (LegacyMatchEvent Content))
      (ns ns' ns'' : List (NotificationAction Content))
      → Adds e ns ns'
      → Appends es ns' ns''
      → Appends (e ∷ es) ns ns''
  unfolding Appends
  Appends-added e es ns ns' ns'' (same s) (added, q, h) = (added, rw (← s) q, silent e es added h)
  Appends-added e es ns ns' ns'' (one n i s) (added, q, h) =
      (n ∷ added, rw (q, s) (simp append_assoc), told e es n added i h)

  process_event-Appends :
      (c : ListenerCursor) (o : StateMachineOutput Content) (e : LegacyMatchEvent Content)
      (es : List (LegacyMatchEvent Content)) (ns : List (NotificationAction Content))
      → Appends es (output (process_event c o e)).notifications ns
      → Appends (e ∷ es) o.notifications ns
  process_event-Appends c o e es ns h = elim (process_event-Adds c o e) [
    | inl (a, added) ↦ Appends-added e es o.notifications _ ns added h
    | inr unchanged ↦ Appends-silent e es o.notifications ns (rw unchanged at h)
  ]

  nothing_more :
      (es : List (LegacyMatchEvent Content)) (ns : List (NotificationAction Content))
      → Appends es ns ns
  unfolding Appends
  nothing_more es ns = ([], sym (append-nil ns), all_silent es)

  process_from-Appends :
      (c : ListenerCursor) (o : StateMachineOutput Content) (es : List (LegacyMatchEvent Content))
      → Appends es o.notifications (process_from c o es).notifications
  unfolding process_from
  process_from-Appends c o [] = nothing_more [] o.notifications
  process_from-Appends c o (e ∷ es) =
      process_event-Appends c o e es _ (elim (Round-cases (process_event c o e)) [
        | inl (o', went) ↦ rw (went, process_from) (process_from-Appends c o' es)
        | inr (o', broke) ↦ rw (broke, process_from) (nothing_more es o'.notifications)
      ])

  Appends-OfEvents :
      (es : List (LegacyMatchEvent Content)) (ns : List (NotificationAction Content))
      → Appends es [] ns
      → OfEvents es ns
  unfolding Appends
  Appends-OfEvents es ns (added, q, h) = rw q h

-- For events with rising ids: the notifications of a poll are of events of the response, at most one of
-- each event, in the order of the events, and their ids rise, behind the cursor.
pub process_events-Told :
    {Content : Type 0} (c : ListenerCursor) (es : List (LegacyMatchEvent Content))
    → Ascending 0 es
    → OfEvents es (process_events c es).notifications
      × Rising c.last_event_id (end_of 0 es) (process_events c es).notifications
unfolding process_events
process_events-Told c es h =
    (Appends-OfEvents es _ (process_from-Appends c (initial c) es), process_events-Rising c es h)
