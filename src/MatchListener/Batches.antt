-- ===== src/MatchListener/Batches.antt =====
-- Events that arrive in two responses, and in one.
use osubot_rs.Prelude.{
  ℕ, suc, ◌≡◌, refl, List, [], ◌∷◌, ◌++◌, Option, none, some, arith, ◌⊎◌, inl, inr, ap, sym, ◌∙◌,
  append_assoc, append-nil, All, unwrap_or,
}
use osubot_rs.Text.{codes}
use osubot_rs.MatchListener.{
  LegacyMatchEvent, LegacyMatchGame, text, image, ListenerCursor, StateMachineOutput, Round,
  continue, break, EventKind, lobby, completed_game, in_progress_game, already_processed,
  classify_event, handle, on_lobby, on_completed, on_in_progress, on_disbanded, push_completed,
  push_start, process_event, process_from, process_events, initial,
}
use osubot_rs.MatchListener.Cursor.{NotAfter, output, Ascending, Round-cases}
use osubot_rs.MatchListener.Sequel.{
  next_cursor, Running, process_event-Running, later-Running, continue-Past, start-Running,
  NotAfter-refl,
}

module _ {Content : Type 0} where
  -- The outcome of a second poll, with what the first one sent in front.
  abbrev pub after :
      StateMachineOutput Content → StateMachineOutput Content → StateMachineOutput Content
  after o p = record p { notifications = o.notifications ++ p.notifications }

  abbrev after_round :
      StateMachineOutput Content
      → Round (StateMachineOutput Content)
      → Round (StateMachineOutput Content)
  after_round o (continue p) = continue (after o p)
  after_round o (break p) = break (after o p)

  push_completed-after :
      (o p : StateMachineOutput Content) (e : LegacyMatchEvent Content)
      (g : Option (LegacyMatchGame Content))
      → push_completed (after o p) e g ≡ after o (push_completed p e g)
  unfolding push_completed
  push_completed-after o p e none = refl
  push_completed-after o p e (some game) = ground (
    arith,
    append_assoc o.notifications p.notifications
        (image e.id (codes "场次结束") (unwrap_or game.end_time e.timestamp) game ∷ []),
  )

  push_start-after :
      (o p : StateMachineOutput Content) (e : LegacyMatchEvent Content)
      (g : Option (LegacyMatchGame Content))
      → push_start (after o p) e g ≡ after o (push_start p e g)
  unfolding push_start
  push_start-after o p e none = refl
  push_start-after o p e (some game) = ground (
    arith,
    append_assoc o.notifications p.notifications (image e.id (codes "场次开始") e.timestamp game ∷ []),
  )

  handle-after :
      (kind : EventKind) (o p : StateMachineOutput Content) (e : LegacyMatchEvent Content)
      → handle kind (after o p) e ≡ after_round o (handle kind p e)
  unfolding on_lobby on_completed on_in_progress on_disbanded
  handle-after lobby o p e = ground (
    arith,
    append_assoc o.notifications p.notifications (text e.id e.detail.event_type e.detail.text ∷ []),
  )
  handle-after completed_game o p e = ground (arith, push_completed-after o p e e.game)
  handle-after in_progress_game o p e = ground (arith, push_start-after o p e e.game)
  handle-after EventKind.match_disbanded o p e = ground (
    arith,
    append_assoc o.notifications p.notifications (text e.id e.detail.event_type e.detail.text ∷ []),
  )

  -- Both cursors pass over the event, or neither does.
  abbrev SameView : ListenerCursor → ListenerCursor → LegacyMatchEvent Content → Type 0
  SameView c c' e = already_processed c.last_event_id e.id ≡ already_processed c'.last_event_id e.id

  process_event-after :
      (c c' : ListenerCursor) (o p : StateMachineOutput Content) (e : LegacyMatchEvent Content)
      → c.pending_game_event_id ≡ none
      → c'.pending_game_event_id ≡ none
      → SameView c c' e
      → process_event c (after o p) e ≡ after_round o (process_event c' p e)
  unfolding process_event
  process_event-after c c' o p e n n' v = ground (arith, handle-after (classify_event e) o p e)

  process_from-after :
      (c c' : ListenerCursor) (o p : StateMachineOutput Content)
      (es : List (LegacyMatchEvent Content))
      → c.pending_game_event_id ≡ none
      → c'.pending_game_event_id ≡ none
      → All (SameView c c') es
      → process_from c (after o p) es ≡ after o (process_from c' p es)
  unfolding process_from
  process_from-after c c' o p [] n n' v = refl
  process_from-after c c' o p (e ∷ es) n n' v = elim (Round-cases (process_event c' p e)) [
    | inl (p', went) ↦
        rw (process_event-after c c' o p e n n' v.0, process_from)
          (rw (went, process_from) (process_from-after c c' o p' es n n' v.1))
    | inr (p', broke) ↦
        rw (process_event-after c c' o p e n n' v.0, process_from) (rw (broke, process_from) refl)
  ]

  -- A lobby event or a completed game: no event on which the loop breaks.
  abbrev pub IsSettledEvent : LegacyMatchEvent Content → Type 0
  IsSettledEvent e = (classify_event e ≡ lobby) ⊎ (classify_event e ≡ completed_game)

  settled_continues :
      (c : ListenerCursor) (o : StateMachineOutput Content) (e : LegacyMatchEvent Content)
      → c.pending_game_event_id ≡ none
      → IsSettledEvent e
      → (o' : StateMachineOutput Content) × (process_event c o e ≡ continue o')
  unfolding process_event
  settled_continues c o e n s = (output (process_event c o e), ground arith)

  SameView-later :
      (c : ListenerCursor) (o : StateMachineOutput Content) (ys : List (LegacyMatchEvent Content))
      (k : ℕ)
      → Ascending k ys
      → Running c o k
      → NotAfter c.last_event_id o.new_last_event_id
      → All (SameView c (next_cursor o)) ys
  SameView-later c o [] k h r n = tt
  SameView-later c o (y ∷ ys) k h r n = (
    ground arith,
    SameView-later c o ys (suc y.id) h.1 (later-Running c o k (suc y.id) (omega arith) r) n,
  )

  fresh :
      (c : ListenerCursor) (o : StateMachineOutput Content) (k : ℕ)
      → Running c o k
      → o ≡ after o (initial (next_cursor o))
  fresh c o k r = ground (arith, append-nil o.notifications)

  none-pending :
      (c : ListenerCursor) (o : StateMachineOutput Content) (k : ℕ)
      → c.pending_game_event_id ≡ none
      → Running c o k
      → o.new_pending_game_event_id ≡ none
  none-pending c o k p r = ground arith

  process_from_step :
      (c : ListenerCursor) (o o' : StateMachineOutput Content) (e : LegacyMatchEvent Content)
      (es : List (LegacyMatchEvent Content))
      → process_event c o e ≡ continue o'
      → process_from c o (e ∷ es) ≡ process_from c o' es
  unfolding process_from
  process_from_step c o o' e es went = rw (went, process_from) refl

  -- What a first poll sent, and then a second one on `ys`.
  abbrev both :
      List (LegacyMatchEvent Content) → StateMachineOutput Content → StateMachineOutput Content
  both ys q = after q (process_from (next_cursor q) (initial (next_cursor q)) ys)

  process_from-batches :
      (c : ListenerCursor) (o : StateMachineOutput Content)
      (xs ys : List (LegacyMatchEvent Content)) (k : ℕ)
      → c.pending_game_event_id ≡ none
      → Ascending k (xs ++ ys)
      → All IsSettledEvent xs
      → Running c o k
      → NotAfter c.last_event_id o.new_last_event_id
      → process_from c o (xs ++ ys)
        ≡ after (process_from c o xs) (
            process_from
              (next_cursor (process_from c o xs))
              (initial (next_cursor (process_from c o xs)))
              ys)
  unfolding process_from
  process_from-batches c o [] ys k p h s r n =
      ap (λ z. process_from c z ys) (fresh c o k r)
      ∙ process_from-after c (next_cursor o) o (initial (next_cursor o)) ys p
          (none-pending c o k p r) (SameView-later c o ys k h r n)
  process_from-batches c o (x ∷ xs) ys k p h s r n =
      let (o', went) = settled_continues c o x p s.0 in
      process_from_step c o o' x (xs ++ ys) went
      ∙ process_from-batches c o' xs ys (suc x.id) p h.1 s.1
          (rw went at (process_event-Running c o x k h.0 r)) (continue-Past c o o' x n went).1
      ∙ ap (both ys) (sym (process_from_step c o o' x xs went))

-- Where no game is pending: events with rising ids, the first of them lobby events and completed
-- games, give the same notifications and the same cursor whether they arrive in one response or,
-- cut behind those first ones, in two successive polls.
pub process_events_batches :
    {Content : Type 0} (c : ListenerCursor) (xs ys : List (LegacyMatchEvent Content))
    → c.pending_game_event_id ≡ none
    → Ascending 0 (xs ++ ys)
    → All IsSettledEvent xs
    → process_events c (xs ++ ys)
      ≡ after (process_events c xs) (process_events (next_cursor (process_events c xs)) ys)
unfolding process_events
process_events_batches c xs ys p h s =
    process_from-batches c (initial c) xs ys 0 p h s (start-Running c)
      (NotAfter-refl c.last_event_id)
