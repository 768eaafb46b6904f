-- ===== src/MatchListener/Cursor.antt =====
-- The order of cursors and of events.
use osubot_rs.Prelude.{
  ℕ, suc, ◌≤◌, ◌≡◌, refl, List, [], ◌∷◌, Option, none, some, arith, ◌⊎◌, inl, inr,
}
use osubot_rs.MatchListener.{
  LegacyMatchEvent, ListenerCursor, StateMachineOutput, Round, continue, break, on_lobby,
  on_completed, on_in_progress, on_disbanded, process_event, process_from, process_events, initial,
}

-- `none` is before every event.
abbrev pub NotAfter : Option ℕ → Option ℕ → Type 0
NotAfter none b = Unit
NotAfter (some a) none = ⊥
NotAfter (some a) (some b) = a ≤ b

module _ {Content : Type 0} where
  abbrev pub output : Round (StateMachineOutput Content) → StateMachineOutput Content
  output (continue o) = o
  output (break o) = o

  pub Round-cases :
      (r : Round (StateMachineOutput Content))
      → ((o : StateMachineOutput Content) × (r ≡ continue o))
        ⊎ ((o : StateMachineOutput Content) × (r ≡ break o))
  Round-cases (continue o) = inl (o, refl)
  Round-cases (break o) = inr (o, refl)

  process_event-NotAfter :
      (c : ListenerCursor) (o : StateMachineOutput Content) (e : LegacyMatchEvent Content)
      → NotAfter c.last_event_id o.new_last_event_id
      → NotAfter c.last_event_id (output (process_event c o e)).new_last_event_id
  unfolding process_event on_lobby on_completed on_in_progress on_disbanded
  process_event-NotAfter c o e h = ground arith

  process_from-NotAfter :
      (c : ListenerCursor) (o : StateMachineOutput Content) (es : List (LegacyMatchEvent Content))
      → NotAfter c.last_event_id o.new_last_event_id
      → NotAfter c.last_event_id (process_from c o es).new_last_event_id
  unfolding process_from
  process_from-NotAfter c o [] h = h
  process_from-NotAfter c o (e ∷ es) h = ground (
    arith,
    process_event-NotAfter c o e h,
    process_from-NotAfter c (output (process_event c o e)) es,
  )

NotAfter-refl : (a : Option ℕ) → NotAfter a a
NotAfter-refl none = tt
NotAfter-refl (some a) = omega arith

-- A poll never moves the cursor back, whatever events the response holds and in whatever order.
pub process_events-NotAfter :
    {Content : Type 0} (c : ListenerCursor) (es : List (LegacyMatchEvent Content))
    → NotAfter c.last_event_id (process_events c es).new_last_event_id
unfolding process_events
process_events-NotAfter c es =
    process_from-NotAfter c (initial c) es (NotAfter-refl c.last_event_id)

-- Event ids rise, from `k` on.
abbrev pub Ascending : {Content : Type 0} → ℕ → List (LegacyMatchEvent Content) → Type 0
Ascending k [] = Unit
Ascending k (e ∷ es) = (k ≤ e.id) × Ascending (suc e.id) es
