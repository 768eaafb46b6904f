-- ===== src/MatchListener/Sequel.antt =====
-- Polling a response again.
use osubot_rs.Prelude.{
  ℕ, suc, ◌≤◌, ◌<◌, ◌≡◌, refl, List, [], ◌∷◌, Option, none, some, arith, ◌⊎◌, inl, inr, ap, ◌∙◌,
}
use osubot_rs.MatchListener.{
  LegacyMatchEvent, ListenerCursor, StateMachineOutput, Round, continue, break, on_lobby,
  on_completed, on_in_progress, on_disbanded, process_event, process_from, process_events, initial,
}
use osubot_rs.MatchListener.Cursor.{NotAfter, Ascending, Round-cases, output}

-- The cursor that the poller stores after a poll.
abbrev pub next_cursor : {Content : Type 0} → StateMachineOutput Content → ListenerCursor
next_cursor o = record {
  last_event_id = o.new_last_event_id;
  last_notified_event_id = o.new_last_notified_event_id;
  pending_game_event_id = o.new_pending_game_event_id;
}

-- The last processed event is the cursor's, or lies below `k`.
abbrev pub Settled : Option ℕ → Option ℕ → ℕ → Type 0
Settled last (some new) k = (last ≡ some new) ⊎ (new < k)
Settled last none k = last ≡ none

-- The pending game is the cursor's, or none.
abbrev pub Kept : Option ℕ → Option ℕ → Type 0
Kept pending new = (new ≡ pending) ⊎ (new ≡ none)

module _ {Content : Type 0} where
  pub record Running (c : ListenerCursor) (o : StateMachineOutput Content) (k : ℕ) : Type 0 where
    pub settled : Settled c.last_event_id o.new_last_event_id k
    pub kept : Kept c.pending_game_event_id o.new_pending_game_event_id
    pub going : o.stop_reason ≡ none

  pub start-Running : (c : ListenerCursor) → Running c (initial c) 0
  start-Running c = ground arith

  pub later-Running :
      (c : ListenerCursor) (o : StateMachineOutput Content) (k k' : ℕ)
      → k ≤ k'
      → Running c o k
      → Running c o k'
  later-Running c o k k' h r = ground arith

  abbrev pub StillRunning : ListenerCursor → ℕ → Round (StateMachineOutput Content) → Type 0
  StillRunning c k (continue o) = Running c o k
  StillRunning c k (break o) = Unit

  pub process_event-Running :
      (c : ListenerCursor) (o : StateMachineOutput Content) (e : LegacyMatchEvent Content) (k : ℕ)
      → k ≤ e.id
      → Running c o k
      → StillRunning c (suc e.id) (process_event c o e)
  unfolding process_event on_lobby on_completed
  process_event-Running c o e k h r = ground arith

  -- An event on which the loop breaks, with no disbanding, is quiet afterwards.
  break-Quiet :
      (c : ListenerCursor) (o : StateMachineOutput Content) (e : LegacyMatchEvent Content) (k : ℕ)
      (o' : StateMachineOutput Content)
      → k ≤ e.id
      → Running c o k
      → process_event c o e ≡ break o'
      → o'.stop_reason ≡ none
      → process_event (next_cursor o') (initial (next_cursor o')) e
        ≡ break (initial (next_cursor o'))
  unfolding process_event on_in_progress on_disbanded
  break-Quiet c o e k o' h r b s = ground arith

  -- An event at or before the cursor is passed over.
  process_event_old :
      (c : ListenerCursor) (o : StateMachineOutput Content) (e : LegacyMatchEvent Content)
      → NotAfter (some e.id) c.last_event_id
      → process_event c o e ≡ continue o
  unfolding process_event
  process_event_old c o e h = ground arith

  -- What the loop goes on from is at or before what it ends with.
  abbrev pub Past : ℕ → StateMachineOutput Content → Type 0
  Past id o = NotAfter (some id) o.new_last_event_id

  -- An event after which the loop goes on is old for the stored cursor.
  pub continue-Past :
      (c : ListenerCursor) (o o' : StateMachineOutput Content) (e : LegacyMatchEvent Content)
      → NotAfter c.last_event_id o.new_last_event_id
      → process_event c o e ≡ continue o'
      → Past e.id o' × NotAfter c.last_event_id o'.new_last_event_id
  unfolding process_event on_lobby on_completed
  continue-Past c o o' e h q = ground arith

  process_event-Past :
      (c : ListenerCursor) (o : StateMachineOutput Content) (e : LegacyMatchEvent Content) (id : ℕ)
      → id < e.id
      → Past id o
      → Past id (output (process_event c o e))
  unfolding process_event on_lobby on_completed on_in_progress on_disbanded
  process_event-Past c o e id l p = ground arith

  -- In rising order the last event id only grows along the loop.
  process_from-grows :
      (c : ListenerCursor) (o : StateMachineOutput Content) (es : List (LegacyMatchEvent Content))
      (k id : ℕ)
      → Ascending k es
      → id < k
      → Past id o
      → Past id (process_from c o es)
  unfolding process_from
  process_from-grows c o [] k id h l p = p
  process_from-grows c o (e ∷ es) k id h l p = elim (Round-cases (process_event c o e)) [
    | inl (o', went) ↦
        rw (went, process_from)
          (process_from-grows c o' es (suc e.id) id h.1 (omega arith)
            (rw went at (process_event-Past c o e id (omega arith) p)))
    | inr (o', broke) ↦
        rw (broke, process_from) (rw broke at (process_event-Past c o e id (omega arith) p))
  ]

  process_from-again :
      (c : ListenerCursor) (o o' : StateMachineOutput Content)
      (es : List (LegacyMatchEvent Content)) (k : ℕ)
      → Ascending k es
      → Running c o k
      → NotAfter c.last_event_id o.new_last_event_id
      → process_from c o es ≡ o'
      → o'.stop_reason ≡ none
      → process_from (next_cursor o') (initial (next_cursor o')) es ≡ initial (next_cursor o')
  unfolding process_from
  process_from-again c o o' [] k h r n q s = refl
  process_from-again c o o' (e ∷ es) k h r n q s = elim (Round-cases (process_event c o e)) [
    | inl (o₁, went) ↦
        let (past, n') = continue-Past c o o₁ e n went in
        let q' : process_from c o₁ es ≡ o' = rw (went, process_from) at q in
        let grown = process_from-grows c o₁ es (suc e.id) e.id h.1 (omega arith) past in
        let old =
          process_event_old (next_cursor o') (initial (next_cursor o')) e (rw q' at grown) in
        rw (old, process_from)
          (process_from-again c o₁ o' es (suc e.id) h.1
            (rw went at (process_event-Running c o e k h.0 r)) n' q' s)
    | inr (o₁, broke) ↦
        let q' : o₁ ≡ o' = rw (broke, process_from) at q in
        rw (break-Quiet c o e k o' h.0 r (broke ∙ ap break q') s, process_from)
  ]

pub NotAfter-refl : (a : Option ℕ) → NotAfter a a
NotAfter-refl none = tt
NotAfter-refl (some a) = omega arith

-- For events with rising ids: a poll that does not end the listener, made again on the same
-- response from the cursor it stored, sends nothing and leaves the cursor and the pending game as
-- they are.
pub process_events_again :
    {Content : Type 0} (c : ListenerCursor) (es : List (LegacyMatchEvent Content))
    → Ascending 0 es
    → (process_events c es).stop_reason ≡ none
    → process_events (next_cursor (process_events c es)) es
      ≡ initial (next_cursor (process_events c es))
unfolding process_events
process_events_again c es h s =
    process_from-again c (initial c) (process_from c (initial c) es) es 0 h (start-Running c)
      (NotAfter-refl c.last_event_id) refl s
