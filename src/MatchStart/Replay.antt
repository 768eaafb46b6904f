-- ===== src/MatchStart/Replay.antt =====
-- A listener that starts while a game runs.
use osubot_rs.Prelude.{
  ℕ, zero, suc, ◌≤◌, ◌<◌, ◌-◌, ◌≡◌, refl, true, false, List, [], ◌∷◌, ◌++◌, none, some, arith, ap,
  ◌∙◌, All, is_some, if◌then◌else◌, ◌⊎◌, inl, inr,
}
use osubot_rs.Text.{codes}
use osubot_rs.MatchListener.{
  LegacyMatchEvent, LegacyMatchGame, ListenerCursor, StateMachineOutput, continue, break, image,
  in_progress_game, classify_event, process_event, process_from, process_events, initial,
  on_in_progress, push_start,
}
use osubot_rs.MatchListener.Cursor.{Ascending}
use osubot_rs.MatchStart.{
  as_i64, as_u64, before, i64_bound, runs, last_running, initial_cursor_from_response, first_cursor,
  starts_at, nth_game, skipped_game,
}

module _ {Content : Type 0} where
  -- No game of these events runs.
  abbrev pub NoneRuns : List (LegacyMatchEvent Content) → Type 0
  NoneRuns es = All (λ e. runs e.game ≡ false) es

  last_running-NoneRuns :
      (es : List (LegacyMatchEvent Content)) → NoneRuns es → last_running es ≡ none
  unfolding last_running
  last_running-NoneRuns [] h = refl
  last_running-NoneRuns (e ∷ es) h = ground (arith, last_running-NoneRuns es h.1)

  last_running-append :
      (xs : List (LegacyMatchEvent Content)) (e : LegacyMatchEvent Content)
      (ys : List (LegacyMatchEvent Content))
      → runs e.game ≡ true
      → NoneRuns ys
      → last_running (xs ++ (e ∷ ys)) ≡ some (as_i64 e.id)
  unfolding last_running
  last_running-append [] e ys r h = ground (arith, last_running-NoneRuns ys h)
  last_running-append (x ∷ xs) e ys r h = ground (arith, last_running-append xs e ys r h)

  process_event_skips :
      (c : ListenerCursor) (o : StateMachineOutput Content) (x : LegacyMatchEvent Content)
      (last : ℕ)
      → c.last_event_id ≡ some last
      → x.id ≤ last
      → process_event c o x ≡ continue o
  unfolding process_event
  process_event_skips c o x last e b = ground arith

  -- Events up to the cursor are passed over.
  process_from_skips :
      (c : ListenerCursor) (o : StateMachineOutput Content) (last : ℕ)
      (xs ys : List (LegacyMatchEvent Content)) (k : ℕ)
      → c.last_event_id ≡ some last
      → Ascending k (xs ++ ys)
      → All (λ x. x.id ≤ last) xs
      → process_from c o (xs ++ ys) ≡ process_from c o ys
  unfolding process_from
  process_from_skips c o last [] ys k e h b = refl
  process_from_skips c o last (x ∷ xs) ys k e h b =
      rw (process_event_skips c o x last e b.0, process_from)
        (process_from_skips c o last xs ys (suc x.id) e h.1 b.1)

  below :
      (xs ys : List (LegacyMatchEvent Content)) (e : LegacyMatchEvent Content) (k : ℕ)
      → Ascending k (xs ++ (e ∷ ys))
      → (k ≤ e.id) × All (λ x. suc x.id ≤ e.id) xs
  below [] ys e k h = (h.0, tt)
  below (x ∷ xs) ys e k h =
      let r = below xs ys e (suc x.id) h.1 in (omega arith, (omega arith, r.1))

  -- What the round on that game gives.
  abbrev started :
      ListenerCursor
      → LegacyMatchEvent Content
      → LegacyMatchGame Content
      → StateMachineOutput Content
  started c e game = record (initial c) {
    notifications = image e.id (codes "场次开始") e.timestamp game ∷ [];
    new_last_notified_event_id = some e.id;
    new_pending_game_event_id = some e.id;
  }

  breaks :
      (c : ListenerCursor) (last : ℕ) (e : LegacyMatchEvent Content)
      (game : LegacyMatchGame Content)
      → c.last_event_id ≡ some last
      → c.pending_game_event_id ≡ none
      → last < e.id
      → e.game ≡ some game
      → classify_event e ≡ in_progress_game
      → process_event c (initial c) e ≡ break (started c e game)
  unfolding process_event on_in_progress push_start
  breaks c last e game at p l g k = ground arith

  -- The game that runs, at the head of what is left.
  starts_game :
      (c : ListenerCursor) (last : ℕ) (e : LegacyMatchEvent Content)
      (game : LegacyMatchGame Content) (ys : List (LegacyMatchEvent Content))
      → c.last_event_id ≡ some last
      → c.pending_game_event_id ≡ none
      → last < e.id
      → e.game ≡ some game
      → classify_event e ≡ in_progress_game
      → (process_from c (initial c) (e ∷ ys)).notifications
        ≡ image e.id (codes "场次开始") e.timestamp game ∷ []
  unfolding process_from
  starts_game c last e game ys at p l g k = rw (breaks c last e game at p l g k, process_from) refl

before-as_i64 : (id : ℕ) → 1 ≤ id → id < i64_bound → as_u64 (before (as_i64 id)) ≡ id - 1
before-as_i64 zero l u = absurd (omega arith)
before-as_i64 (suc n) l u = ground arith

classified-runs :
    {Content : Type 0} (e : LegacyMatchEvent Content)
    → classify_event e ≡ in_progress_game
    → runs e.game ≡ true
unfolding classify_event
classified-runs e k = ground arith

up_to :
    {Content : Type 0} (xs : List (LegacyMatchEvent Content)) (k : ℕ)
    → All (λ x. suc x.id ≤ k) xs
    → All (λ x. x.id ≤ k - 1) xs
up_to [] k h = tt
up_to (x ∷ xs) k h = (omega arith, up_to xs k h.1)

module _ {Content : Type 0} where
  -- How many of the events have a game.
  abbrev pub games : List (LegacyMatchEvent Content) → ℕ
  games [] = 0
  games (e ∷ es) = if is_some e.game then suc (games es) else games es

  nth_game-none :
      (n : ℕ) (es : List (LegacyMatchEvent Content)) → games es ≤ n → nth_game n es ≡ none
  unfolding nth_game
  nth_game-none n [] h = refl
  nth_game-none zero (e ∷ es) h = ground (arith, nth_game-none zero es)
  nth_game-none (suc n) (e ∷ es) h = ground (arith, nth_game-none n es, nth_game-none (suc n) es)

  skipped_game-none :
      (skip : ℕ) (es : List (LegacyMatchEvent Content))
      → (skip ≡ 0) ⊎ (games es < skip)
      → skipped_game skip es ≡ none
  unfolding skipped_game
  skipped_game-none zero es h = refl
  skipped_game-none (suc n) es (inl z) = absurd (omega arith)
  skipped_game-none (suc n) es (inr l) = nth_game-none n es (omega arith)

-- Where a listener starts in a match of which the response holds events with rising ids, the last game
-- that runs among them, with its id in the positive `i64`s, and no rounds are to be skipped, or more than
-- the events have games: the first poll on those events announces the start of that game, and nothing
-- else.
pub start_replays :
    {Content : Type 0} (latest skip : ℕ) (xs : List (LegacyMatchEvent Content))
    (e : LegacyMatchEvent Content) (game : LegacyMatchGame Content)
    (ys : List (LegacyMatchEvent Content))
    → Ascending 0 (xs ++ (e ∷ ys))
    → e.game ≡ some game
    → classify_event e ≡ in_progress_game
    → NoneRuns ys
    → (skip ≡ 0) ⊎ (games (xs ++ (e ∷ ys)) < skip)
    → 1 ≤ e.id
    → e.id < i64_bound
    → (process_events
        (first_cursor (initial_cursor_from_response latest (xs ++ (e ∷ ys)) skip))
        (xs ++ (e ∷ ys))).notifications
      ≡ image e.id (codes "场次开始") e.timestamp game ∷ []
unfolding process_events initial_cursor_from_response
start_replays latest skip xs e game ys h g k n z l u =
    let c = first_cursor (starts_at (before (as_i64 e.id))) in
    let at = ap some (before-as_i64 e.id l u) in
    let b = below xs ys e 0 h in
    rw (skipped_game-none skip (xs ++ (e ∷ ys)) z) (
      rw (last_running-append xs e ys (classified-runs e k) n) (
        ap (λ o. o.notifications)
          (process_from_skips c (initial c) (e.id - 1) xs (e ∷ ys) 0 at h (up_to xs e.id b.1))
        ∙ starts_game c (e.id - 1) e game ys at refl (omega arith) g k))
