-- ===== src/Poller/Resume.antt =====
-- What a poll finds of the poll before it (osubot/src/match_listener/poller.rs).
use osubot_rs.Prelude.{
  ℕ, ◌+◌, ◌<◌, ◌≡◌, refl, ap, ◌∙◌, sym, Bool, true, false, not, ◌&&◌, List, [], Option, none, some,
  ℤ, pos, negsuc, ltb, arith, Bool-cases, inl, inr,
}
use osubot_rs.MatchListener.{LegacyMatchEvent, ListenerCursor}
use osubot_rs.MatchListener.Cursor.{Ascending}
use osubot_rs.MatchStart.{as_i64, as_u64, i64_bound, stored_id}
use osubot_rs.Poller.{MatchListenConfig, Channel, Progress, process_one}
use osubot_rs.Poller.Retry.{process_one_again}
use osubot_rs.Poller.Stored.{
  Writes, cursor_of, id_to_store, touch, store_progress, after_poll, poll_listener,
}
use osubot_rs.Database.Table.First.{updated_first, update-update}
use osubot_rs.Database.Listeners.{
  MatchListener, at_key, deactivated, progressed, get_match_listener,
  update_match_listener_progress,
}
use osubot_rs.Database.Listeners.Keys.{get-update_progress, get-stop, eq_i64_refl}

-- The values of `u64`, and of `i64`.
abbrev pub IsU64 : Option ℕ → Type 0
IsU64 none = Unit
IsU64 (some n) = n < i64_bound + i64_bound

abbrev pub IsI64 : ℤ → Type 0
IsI64 (pos n) = n < i64_bound
IsI64 (negsuc n) = n < i64_bound

abbrev pub IsCursor : ListenerCursor → Type 0
IsCursor c = IsU64 c.last_event_id × IsU64 c.last_notified_event_id × IsU64 c.pending_game_event_id

read_back : (id : Option ℕ) → IsU64 id → stored_id (id_to_store id) ≡ id
read_back none h = refl
read_back (some id) h = elim (Bool-cases (ltb id i64_bound)) [
  | inl q ↦ rw (q) refl
  | inr q ↦ rw (q) (ap some (ground arith))
]

read_id : (z : ℤ) → IsI64 z → as_i64 (as_u64 z) ≡ z
read_id (pos n) h = ground arith
read_id (negsuc n) h = ground arith

read_cursor :
    (c : ListenerCursor) (t : Option ℕ) (l : MatchListener)
    → IsCursor c
    → cursor_of (
        progressed
          (id_to_store c.last_event_id)
          (id_to_store c.last_notified_event_id)
          (id_to_store c.pending_game_event_id)
          t
          l)
      ≡ c
read_cursor c t l (a, b, d) =
    rw
      (
        read_back c.last_event_id a,
        read_back c.last_notified_event_id b,
        read_back c.pending_game_event_id d,
      )
      refl

abbrev pub cursor_in : Option MatchListener → Option ListenerCursor
cursor_in none = none
cursor_in (some l) = some (cursor_of l)

stopped_cursor :
    (p : MatchListener → Bool) (o : Option MatchListener) (c : ListenerCursor)
    → cursor_in o ≡ some c
    → cursor_in (updated_first p deactivated o) ≡ some c
stopped_cursor p none c h = h
stopped_cursor p (some l) c h = elim (Bool-cases (p l)) [ inl q ↦ rw (q) h | inr q ↦ rw (q) h ]

module _ {Content : Type 0} where
  stored_after :
      (m g : ℤ) (p : Progress Content) (f : Writes) (l : MatchListener) (rows : List MatchListener)
      → f.update_fails ≡ false
      → get_match_listener m g rows ≡ some l
      → at_key m g l ≡ true
      → get_match_listener m g (store_progress m g p f rows)
        ≡ some (
            progressed
              (id_to_store p.final_cursor.last_event_id)
              (id_to_store p.final_cursor.last_notified_event_id)
              (id_to_store p.final_cursor.pending_game_event_id)
              (touch p.touch_last_notified_at f.stored_at)
              l)
  unfolding store_progress
  stored_after m g p f l rows u at k =
      rw
        (
          u,
          get-update_progress m g _ _ _ (touch p.touch_last_notified_at f.stored_at) m g rows,
          at,
          k,
        )
        refl

  after_poll_cursor :
      (m g : ℤ) (p : Progress Content) (f : Writes) (l : MatchListener) (rows : List MatchListener)
      → f.update_fails ≡ false
      → get_match_listener m g rows ≡ some l
      → at_key m g l ≡ true
      → IsCursor p.final_cursor
      → cursor_in (get_match_listener m g (after_poll m g p f rows)) ≡ some p.final_cursor
  after_poll_cursor m g p f l rows u at k fits =
      let here =
        ap cursor_in (stored_after m g p f l rows u at k)
        ∙ ap some
            (read_cursor p.final_cursor (touch p.touch_last_notified_at f.stored_at) l fits) in
      elim (Bool-cases (p.stopped && not f.stop_fails)) [
        | inl q ↦ rw (q, get-stop m g m g (store_progress m g p f rows)) (stopped_cursor _ _ _ here)
        | inr q ↦ rw (q) here
      ]

-- A poll of a listener of the table, with an answer of the API and the progress written, leaves in the
-- table the cursor that the state machine and the deliveries give, which is what the next poll reads;
-- the ids, which are of 64 bits, come back unchanged through the signed columns.
pub poll_listener_cursor :
    {Content : Type 0} (cfg : MatchListenConfig) (ch : Channel Content) (f : Writes)
    (l : MatchListener) (es : List (LegacyMatchEvent Content)) (rows : List MatchListener)
    → f.update_fails ≡ false
    → get_match_listener l.match_id l.group_id rows ≡ some l
    → IsI64 l.match_id
    → IsCursor (process_one cfg ch (cursor_of l) es).final_cursor
    → cursor_in (get_match_listener l.match_id l.group_id (poll_listener cfg ch f l (some es) rows))
      ≡ some (process_one cfg ch (cursor_of l) es).final_cursor
poll_listener_cursor cfg ch f l es rows u at m fits = rw (read_id l.match_id m) (
    after_poll_cursor l.match_id l.group_id (process_one cfg ch (cursor_of l) es) f l rows u at
      (rw (eq_i64_refl l.match_id, eq_i64_refl l.group_id) refl) fits)

module _ {Content : Type 0} where
  -- Storing what is stored.
  store_again :
      (m g : ℤ) (p p' : Progress Content) (f f' : Writes) (rows : List MatchListener)
      → f.update_fails ≡ false
      → p'.final_cursor ≡ p.final_cursor
      → p'.touch_last_notified_at ≡ false
      → store_progress m g p' f' (store_progress m g p f rows) ≡ store_progress m g p f rows
  unfolding store_progress update_match_listener_progress
  store_again m g p p' f f' rows u c t = elim (Bool-cases f'.update_fails) [
    | inl q ↦ rw (u, q) refl
    | inr q ↦ rw (u, q, c, t) (update-update (at_key m g) _ _ rows (λ l h. refl) (λ l. refl))
  ]

poll_unstopped :
    {Content : Type 0} (cfg : MatchListenConfig) (ch : Channel Content) (f : Writes)
    (l : MatchListener) (es : List (LegacyMatchEvent Content)) (rows : List MatchListener)
    → IsI64 l.match_id
    → (process_one cfg ch (cursor_of l) es).stopped ≡ false
    → poll_listener cfg ch f l (some es) rows
      ≡ store_progress l.match_id l.group_id (process_one cfg ch (cursor_of l) es) f rows
poll_unstopped cfg ch f l es rows m s = rw (read_id l.match_id m, s) refl

abbrev or_row : MatchListener → Option MatchListener → MatchListener
or_row l none = l
or_row l (some l') = l'

-- What a poll that finds nothing new stores.
abbrev quiet : {Content : Type 0} → ListenerCursor → Progress Content
quiet c = record {
  final_cursor = c;
  touch_last_notified_at = false;
  stopped = false;
  undelivered = [];
}

poll_quiet :
    {Content : Type 0} (cfg : MatchListenConfig) (ch : Channel Content) (f : Writes)
    (l : MatchListener) (es : List (LegacyMatchEvent Content)) (c : ListenerCursor) (m g : ℤ)
    (rows : List MatchListener)
    → IsI64 m
    → (l.match_id ≡ m) × (l.group_id ≡ g) × (cursor_of l ≡ c)
    → process_one cfg ch c es ≡ quiet c
    → poll_listener cfg ch f l (some es) rows
      ≡ store_progress m g (quiet {Content = Content} c) f rows
poll_quiet cfg ch f l es c m g rows b (x, y, z) q = rw (x, y, z, read_id m b, q) refl

-- For events with rising ids: once a poll has handled its notifications, has stored its progress and
-- did not stop the listener, polling the listener that is then in the table on the same events, with
-- any settings, deliveries and failures, leaves the whole table as it is.
pub poll_listener_again :
    {Content : Type 0} (cfg cfg' : MatchListenConfig) (ch ch' : Channel Content) (f f' : Writes)
    (l l' : MatchListener) (es : List (LegacyMatchEvent Content)) (rows : List MatchListener)
    → Ascending 0 es
    → f.update_fails ≡ false
    → get_match_listener l.match_id l.group_id rows ≡ some l
    → IsI64 l.match_id
    → IsCursor (process_one cfg ch (cursor_of l) es).final_cursor
    → (process_one cfg ch (cursor_of l) es).undelivered ≡ []
    → (process_one cfg ch (cursor_of l) es).stopped ≡ false
    → get_match_listener l.match_id l.group_id (poll_listener cfg ch f l (some es) rows) ≡ some l'
    → poll_listener cfg' ch' f' l' (some es) (poll_listener cfg ch f l (some es) rows)
      ≡ poll_listener cfg ch f l (some es) rows
poll_listener_again cfg cfg' ch ch' f f' l l' es rows asc u at m fits d s at' =
    let p = process_one cfg ch (cursor_of l) es in
    let k : at_key l.match_id l.group_id l ≡ true =
      rw (eq_i64_refl l.match_id, eq_i64_refl l.group_id) refl in
    let first = poll_unstopped cfg ch f l es rows m s in
    let e = ap (or_row l) (
      sym at'
      ∙ ap (get_match_listener l.match_id l.group_id) first
      ∙ stored_after l.match_id l.group_id p f l rows u at k) in
    let c =
      ap cursor_of e
      ∙ read_cursor p.final_cursor (touch p.touch_last_notified_at f.stored_at) l fits in
    rw (first) (
      poll_quiet cfg' ch' f' l' es p.final_cursor l.match_id l.group_id _ m
        (ap (λ r. r.match_id) e, ap (λ r. r.group_id) e, c)
        (process_one_again cfg cfg' ch ch' (cursor_of l) es asc d s)
      ∙ store_again l.match_id l.group_id p (quiet p.final_cursor) f f' rows u refl refl)
