-- ===== src/Database/Listeners/Keys.antt =====
-- The table of match listeners as a map from its keys (osubot-core/src/storage.rs).
use osubot_rs.Prelude.{
  ℕ, ◌≡◌, refl, ap, ◌∙◌, Bool, true, false, ◌&&◌, List, Option, none, some, lt_i64, Holds, ◌⊎◌,
  if◌then◌else◌, ℤ, pos, negsuc, eq_i64, eq_i64_same, arith, Bool-cases, inl, inr,
}
use osubot_rs.Database.Table.{first_row}
use osubot_rs.Database.Table.First.{
  written, updated_first, first-upsert, select-upsert-elsewhere, first-update, first-meets,
}
use osubot_rs.Database.Listeners.{
  MatchListener, MatchListenerStartParams, at_key, restarted, new_row, deactivated, progressed,
  start_match_listener, stop_match_listener, get_match_listener, update_match_listener_progress,
}

pub eq_i64_refl : (a : ℤ) → eq_i64 a a ≡ true
eq_i64_refl (pos n) = ground arith
eq_i64_refl (negsuc n) = ground arith

abbrev pub same_key : ℤ → ℤ → ℤ → ℤ → Bool
same_key m g m' g' = eq_i64 m m' && eq_i64 g g'

same_row : (m g : ℤ) (l : MatchListener) → at_key m g l ≡ true → (l.match_id ≡ m) × (l.group_id ≡ g)
same_row m g l h =
    (eq_i64_same l.match_id m (ground arith), eq_i64_same l.group_id g (ground arith))

same_keys : (m g m' g' : ℤ) → same_key m g m' g' ≡ true → (m ≡ m') × (g ≡ g')
same_keys m g m' g' h = (eq_i64_same m m' (ground arith), eq_i64_same g g' (ground arith))

elsewhere :
    (m g m' g' : ℤ) (l : MatchListener)
    → same_key m g m' g' ≡ false
    → at_key m g l ≡ true
    → at_key m' g' l ≡ false
elsewhere m g m' g' l q h = let (a, b) = same_row m g l h in rw (a, b) q

at_own_key : (m g : ℤ) → same_key m g m g ≡ true
at_own_key m g = rw (eq_i64_refl m, eq_i64_refl g) refl

-- What an upsert of the start makes of the row with its key.
pub get-start :
    (p : MatchListenerStartParams) (created : ℕ) (now m g : ℤ) (rows : List MatchListener)
    → get_match_listener m g (start_match_listener p created now rows) ≡ (
        if same_key p.match_id p.group_id m g
        then some
            (written (new_row p created) (restarted p created now) (get_match_listener m g rows))
        else get_match_listener m g rows)
unfolding get_match_listener start_match_listener
get-start p created now m g rows = elim (Bool-cases (same_key p.match_id p.group_id m g)) [
  | inl q ↦
      rw
        (
          q,
          ← (same_keys p.match_id p.group_id m g q).0,
          ← (same_keys p.match_id p.group_id m g q).1,
        )
        (first-upsert (at_key p.match_id p.group_id) (restarted p created now) (new_row p created)
          rows (at_own_key p.match_id p.group_id) (λ l h. h))
  | inr q ↦ rw (q) (
      ap first_row (
        select-upsert-elsewhere (at_key m g) (at_key p.match_id p.group_id)
          (restarted p created now) (new_row p created) rows q
          (λ l h. let e = elsewhere p.match_id p.group_id m g l q h in (e, e))))
]

-- The fields that a start takes from its parameters.
abbrev pub Requested : MatchListenerStartParams → MatchListener → Type 0
Requested p l =
    (l.match_id ≡ p.match_id)
    × (l.group_id ≡ p.group_id)
    × (l.user_id ≡ p.user_id)
    × (l.notification_type ≡ p.notification_type)
    × (l.creator_qq ≡ p.creator_qq)
    × (l.match_name ≡ p.match_name)
    × (l.expires_at ≡ p.expires_at)
    × (l.active ≡ true)

-- A listener with the cursor of the parameters.
abbrev pub Anew : MatchListenerStartParams → ℕ → MatchListener → Type 0
Anew p created l =
    (l.last_event_id ≡ p.initial_last_event_id)
    × (l.last_notified_event_id ≡ p.initial_last_notified_event_id)
    × (l.pending_game_event_id ≡ none)
    × (l.created_at ≡ created)
    × (l.last_notified_at ≡ none)

-- A listener with the cursor and the times of another one.
abbrev pub Continues : MatchListener → MatchListener → Type 0
Continues old l =
    (l.last_event_id ≡ old.last_event_id)
    × (l.last_notified_event_id ≡ old.last_notified_event_id)
    × (l.pending_game_event_id ≡ old.pending_game_event_id)
    × (l.created_at ≡ old.created_at)
    × (l.last_notified_at ≡ old.last_notified_at)

-- The listener after a start, by the one that was there.
abbrev pub StartedFrom :
    MatchListenerStartParams → ℕ → ℤ → Option MatchListener → MatchListener → Type 0
StartedFrom p created now none l = Requested p l × Anew p created l
StartedFrom p created now (some old) l =
    Requested p l
    × (((old.active ≡ true) × (lt_i64 old.expires_at now ≡ false) × Continues old l)
        ⊎ (((old.active ≡ false) ⊎ (lt_i64 old.expires_at now ≡ true)) × Anew p created l))

written-StartedFrom :
    (p : MatchListenerStartParams) (created : ℕ) (now : ℤ) (before : Option MatchListener)
    → Holds (λ old. at_key p.match_id p.group_id old ≡ true) before
    → StartedFrom p created now before
        (written (new_row p created) (restarted p created now) before)
written-StartedFrom p created now none k =
    ((refl, refl, refl, refl, refl, refl, refl, refl), (refl, refl, refl, refl, refl))
written-StartedFrom p created now (some old) k =
    let (m, g) = same_row p.match_id p.group_id old k in
    (
      (m, g, refl, refl, refl, refl, refl, refl),
      elim (Bool-cases old.active) [
        | inl a ↦ elim (Bool-cases (lt_i64 old.expires_at now)) [
          | inl l ↦ inr (inr l, rw (a, l) (refl, refl, refl, refl, refl))
          | inr l ↦ inl (a, l, rw (a, l) (refl, refl, refl, refl, refl))
        ]
        | inr a ↦ inr (inl a, rw (a) (refl, refl, refl, refl, refl))
      ],
    )

found_at_key :
    (m g : ℤ) (rows : List MatchListener) (before : Option MatchListener)
    → get_match_listener m g rows ≡ before
    → Holds (λ old. at_key m g old ≡ true) before
unfolding get_match_listener
found_at_key m g rows none h = tt
found_at_key m g rows (some old) h = first-meets (at_key m g) old rows h

-- After a start the listener at its key has the data of the start and runs. If an active listener that has
-- not expired was there, it keeps its cursor, its pending game and its times; if none was there, or it was
-- stopped or has expired, it begins at the cursor of the start, with no pending game. What is at another
-- key stays.
pub get-start_match_listener :
    (p : MatchListenerStartParams) (created : ℕ) (now : ℤ) (rows : List MatchListener)
    → ((l : MatchListener) × (get_match_listener p.match_id p.group_id
            (start_match_listener p created now rows)
          ≡ some l)
        × StartedFrom p created now (get_match_listener p.match_id p.group_id rows) l)
      × ((m g : ℤ)
          → (same_key p.match_id p.group_id m g ≡ true)
            ⊎ (get_match_listener m g (start_match_listener p created now rows)
                ≡ get_match_listener m g rows))
get-start_match_listener p created now rows =
    let before = get_match_listener p.match_id p.group_id rows in
    (
      (
        written (new_row p created) (restarted p created now) before,
        get-start p created now p.match_id p.group_id rows
            ∙ rw (at_own_key p.match_id p.group_id) refl,
        written-StartedFrom p created now before
            (found_at_key p.match_id p.group_id rows before refl),
      ),
      (λ m g. elim (Bool-cases (same_key p.match_id p.group_id m g)) [
        | inl q ↦ inl q
        | inr q ↦ inr (get-start p created now m g rows ∙ rw (q) refl)
      ]),
    )

-- A stop is an update of the map, too: it makes what is at its key inactive.
pub get-stop :
    (m g m' g' : ℤ) (rows : List MatchListener)
    → get_match_listener m' g' (stop_match_listener m g rows).0
      ≡ updated_first (λ l. at_key m g l && l.active) deactivated (get_match_listener m' g' rows)
unfolding get_match_listener stop_match_listener
get-stop m g m' g' rows =
    first-update (at_key m' g') (λ l. at_key m g l && l.active) deactivated rows (λ l h. refl)

pub get-update_progress :
    (m g : ℤ) (a b c : Option ℤ) (d : Option ℕ) (m' g' : ℤ) (rows : List MatchListener)
    → get_match_listener m' g' (update_match_listener_progress m g a b c d rows)
      ≡ updated_first (at_key m g) (progressed a b c d) (get_match_listener m' g' rows)
unfolding get_match_listener update_match_listener_progress
get-update_progress m g a b c d m' g' rows =
    first-update (at_key m' g') (at_key m g) (progressed a b c d) rows (λ l h. refl)
