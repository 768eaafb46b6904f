-- ===== src/Database/Listeners.antt =====
-- The table of match listeners and its statements (osubot-core/src/storage.rs). A time of the clock
-- is a number: `now` is the time at which a statement runs; `created_at` and `last_notified_at` are
-- texts in the database, which are only compared. Its key, a match and a group, is unique.
pub mod Keys
use osubot_rs.Prelude.{
  ℕ, suc, Bool, true, false, not, ◌&&◌, ◌||◌, List, [], ◌∷◌, Option, none, some, ltb, leb, ◌==◌,
  if◌then◌else◌, ℤ, eq_i64, lt_i64, unwrap_or,
}
use osubot_rs.Text.{Text, codes, text_eq}
use osubot_rs.Database.Table.{
  update_where, count_where, select_where, first_row, upsert, order_by, insert_by,
}

pub data NotificationChannel : Type 0 where
  group_channel private_channel : NotificationChannel

pub record MatchListener : Type 0 where
  pub match_id : ℤ
  pub group_id : ℤ
  pub user_id : Option ℤ
  pub notification_type : Text
  pub creator_qq : ℤ
  pub match_name : Text
  pub last_event_id : Option ℤ
  pub last_notified_event_id : Option ℤ
  pub pending_game_event_id : Option ℤ
  pub created_at : ℕ
  pub expires_at : ℤ
  pub active : Bool
  pub last_notified_at : Option ℕ

unfoldable pub is_private : MatchListener → Bool
unfolding text_eq
is_private l = text_eq l.notification_type (codes "private")

abbrev pub notification_channel : MatchListener → NotificationChannel
notification_channel l = if is_private l then private_channel else group_channel

pub record MatchListenerStartParams : Type 0 where
  pub match_id : ℤ
  pub group_id : ℤ
  pub user_id : Option ℤ
  pub notification_type : Text
  pub creator_qq : ℤ
  pub match_name : Text
  pub expires_at : ℤ
  pub initial_last_event_id : Option ℤ
  pub initial_last_notified_event_id : Option ℤ

-- `match_id = ?1 AND group_id = ?2`.
abbrev pub at_key : ℤ → ℤ → MatchListener → Bool
at_key match_id group_id l = eq_i64 l.match_id match_id && eq_i64 l.group_id group_id

-- `active = 1 AND expires_at >= ?`.
abbrev pub is_running : ℤ → MatchListener → Bool
is_running now l = l.active && not (lt_i64 l.expires_at now)

-- The row that is inserted.
abbrev pub new_row : MatchListenerStartParams → ℕ → MatchListener
new_row p created_at = record {
  match_id = p.match_id;
  group_id = p.group_id;
  user_id = p.user_id;
  notification_type = p.notification_type;
  creator_qq = p.creator_qq;
  match_name = p.match_name;
  last_event_id = p.initial_last_event_id;
  last_notified_event_id = p.initial_last_notified_event_id;
  pending_game_event_id = none;
  created_at = created_at;
  expires_at = p.expires_at;
  active = true;
  last_notified_at = none;
}

-- A row with the key is there: what runs keeps its cursor, and anything else begins anew.
abbrev pub restarted : MatchListenerStartParams → ℕ → ℤ → MatchListener → MatchListener
restarted p created_at now l =
    let runs = is_running now l in
    record l {
      creator_qq = p.creator_qq;
      match_name = p.match_name;
      created_at = if runs then l.created_at else created_at;
      expires_at = p.expires_at;
      active = true;
      last_event_id = if runs then l.last_event_id else p.initial_last_event_id;
      last_notified_event_id =
          if runs then l.last_notified_event_id else p.initial_last_notified_event_id;
      pending_game_event_id = if runs then l.pending_game_event_id else none;
      last_notified_at = if runs then l.last_notified_at else none;
      user_id = p.user_id;
      notification_type = p.notification_type;
    }

unfoldable pub start_match_listener :
    MatchListenerStartParams → ℕ → ℤ → List MatchListener → List MatchListener
unfolding upsert
start_match_listener p created_at now rows =
    upsert (at_key p.match_id p.group_id) (restarted p created_at now) (new_row p created_at) rows

abbrev pub deactivated : MatchListener → MatchListener
deactivated l = record l { active = false }

-- The table, and whether a row was changed.
unfoldable pub stop_match_listener : ℤ → ℤ → List MatchListener → List MatchListener × Bool
unfolding update_where count_where
stop_match_listener match_id group_id rows =
    let p = λ (l : MatchListener). at_key match_id group_id l && l.active in
    (update_where p deactivated rows, ltb 0 (count_where p rows))

-- The table, and the number of rows that were changed.
unfoldable pub stop_all_match_listeners_in_group : ℤ → List MatchListener → List MatchListener × ℕ
unfolding update_where count_where
stop_all_match_listeners_in_group group_id rows =
    let p = λ (l : MatchListener). eq_i64 l.group_id group_id && l.active in
    (update_where p deactivated rows, count_where p rows)

unfoldable pub get_match_listener : ℤ → ℤ → List MatchListener → Option MatchListener
unfolding select_where
get_match_listener match_id group_id rows = first_row (select_where (at_key match_id group_id) rows)

-- `ORDER BY created_at ASC, match_id ASC`.
abbrev pub by_creation : MatchListener → MatchListener → Bool
by_creation a b =
    ltb a.created_at b.created_at
    || (a.created_at == b.created_at && not (lt_i64 b.match_id a.match_id))

unfoldable pub list_active_match_listeners_by_group :
    ℤ → ℤ → List MatchListener → List MatchListener
unfolding order_by select_where
list_active_match_listeners_by_group group_id now rows =
    order_by by_creation (select_where (λ l. eq_i64 l.group_id group_id && is_running now l) rows)

-- `ORDER BY COALESCE(last_notified_at, created_at) ASC, group_id ASC, match_id ASC`.
abbrev pub last_served : MatchListener → ℕ
last_served l = unwrap_or l.last_notified_at l.created_at

abbrev pub by_turn : MatchListener → MatchListener → Bool
by_turn a b =
    ltb (last_served a) (last_served b)
    || (last_served a == last_served b
        && (lt_i64 a.group_id b.group_id
            || (eq_i64 a.group_id b.group_id && not (lt_i64 b.match_id a.match_id))))

unfoldable pub list_active_match_listeners_due_for_polling :
    ℤ → List MatchListener → List MatchListener
unfolding order_by select_where
list_active_match_listeners_due_for_polling now rows =
    order_by by_turn (select_where (is_running now) rows)

-- What a poll stores: `touched` is the time that is set as `last_notified_at`, if any.
abbrev pub progressed : Option ℤ → Option ℤ → Option ℤ → Option ℕ → MatchListener → MatchListener
progressed last notified pending touched l = record l {
  last_event_id = last;
  last_notified_event_id = notified;
  pending_game_event_id = pending;
  last_notified_at = elim touched [ none ↦ l.last_notified_at | some t ↦ some t ];
}

unfoldable pub update_match_listener_progress :
    ℤ → ℤ → Option ℤ → Option ℤ → Option ℤ → Option ℕ → List MatchListener → List MatchListener
unfolding update_where
update_match_listener_progress match_id group_id last notified pending touched rows =
    update_where (at_key match_id group_id) (progressed last notified pending touched) rows

-- The rows that the two counts count.
abbrev pub runs_in_group : ℤ → ℤ → MatchListener → Bool
runs_in_group group_id now l = eq_i64 l.group_id group_id && is_running now l

abbrev pub is_user : Option ℤ → ℤ → Bool
is_user none user_id = false
is_user (some u) user_id = eq_i64 u user_id

abbrev pub runs_for_user : ℤ → ℤ → MatchListener → Bool
runs_for_user user_id now l = is_user l.user_id user_id && is_private l && is_running now l

unfoldable pub count_active_match_listeners_in_group : ℤ → ℤ → List MatchListener → ℕ
unfolding count_where
count_active_match_listeners_in_group group_id now rows =
    count_where (runs_in_group group_id now) rows

abbrev pub is_match_listener_group_limit_reached : ℤ → ℤ → ℕ → List MatchListener → Bool
is_match_listener_group_limit_reached group_id now limit rows =
    leb limit (count_active_match_listeners_in_group group_id now rows)

unfoldable pub count_active_match_listeners_for_user : ℤ → ℤ → List MatchListener → ℕ
unfolding count_where
count_active_match_listeners_for_user user_id now rows =
    count_where (runs_for_user user_id now) rows

unfoldable pub expire_old_match_listeners : ℤ → List MatchListener → List MatchListener
unfolding update_where
expire_old_match_listeners now rows =
    update_where (λ l. l.active && lt_i64 l.expires_at now) deactivated rows
