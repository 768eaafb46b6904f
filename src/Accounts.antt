-- ===== src/Accounts.antt =====
-- The commands that bind a user of QQ to a user of osu! (osubot/src/command/settings.rs).
-- What the outside gives to a call is a record: the times of its statements, the statements that fail,
-- and the answers of the API. The text of a reply is left out.
pub mod Irc
pub mod Events
pub mod Supported
pub mod Evidence
pub mod Unbinding
pub mod SameCodes
pub mod Codes
use osubot_rs.Prelude.{
  ℕ, Bool, true, false, not, List, [], ◌∷◌, Option, none, some, if◌then◌else◌, ℤ, pos, Result, ok,
  err, Run, done, panicked, is_some, unwrap_or,
}
use osubot_rs.Text.{Text, codes, trim, replace, text_eq}
use osubot_rs.GameMode.{GameMode, osu}
use osubot_rs.Types.{Command}
use osubot_rs.Database.Bindings.{
  Binding, UserId, NextUpdate, DbError, db_error, UnbindFails, bind, unbind, get_binding,
  get_default_mode, set_default_mode, set_user_id,
}
use osubot_rs.Database.Pending.{
  PendingUnbind, PendingBind, set_pending_unbind, get_pending_unbind, remove_pending_unbind,
  add_pending_bind, get_pending_bind, remove_pending_bind, has_pending_bind,
}

pub record Accounts : Type 0 where
  pub user_bindings : List Binding
  pub user_next_update : List NextUpdate
  pub pending_unbind : List PendingUnbind
  pub pending_binds : List PendingBind
  pub osu_user_ids : List UserId

-- The answer of `get_user_info`.
pub data UserInfo : Type 0 where
  user_found : ℤ → Text → UserInfo
  no_user api_failed : UserInfo

pub data Reply : Type 0 where
  set_success : GameMode → Reply
  mode_not_bound : Reply
  get_success : GameMode → Reply
  db_failed not_bound : Reply
  already_bound : Text → Reply
  pending_exists failed_retry : Reply
  code_sent : Text → Text → Reply
  bind_success : Text → Reply
  already_bound_other user_not_found api_error : Reply
  unbind_success unbind_failed : Reply
  confirm_unbind : Text → Reply
  not_bound_any wrong_person : Reply

pub record Outside : Type 0 where
  pub asked_at : ℕ
  pub written_at : ℕ
  pub get_binding_fails : Bool
  pub get_mode_fails : Bool
  pub set_mode_fails : Bool
  pub has_pending_fails : Bool
  pub add_pending_fails : Bool
  pub set_user_id_fails : Bool
  pub bind_fails : Bool
  pub get_unbind_fails : Bool
  pub set_unbind_fails : Bool
  pub remove_unbind_fails : Bool
  pub unbind_fails : UnbindFails
  pub irc_nickname : Option Text
  pub code : Text
  pub user_info : Text → UserInfo

-- `Command::SetDefaultMode`.
abbrev pub set_mode_reply : GameMode → ℤ → Accounts → Reply × Accounts
set_mode_reply mode user_id acc =
    let result = set_default_mode user_id mode acc.user_bindings in
    (if result.1 then set_success mode else mode_not_bound, record acc { user_bindings = result.0 })

abbrev pub mode_reply : Result (Option GameMode) DbError → Reply
mode_reply (ok (some mode)) = get_success mode
mode_reply (ok none) = get_success osu
mode_reply (err e) = db_failed

unfoldable pub on_default_mode : Outside → Option GameMode → ℤ → Accounts → Reply × Accounts
on_default_mode o (some mode) user_id acc =
    if o.set_mode_fails then (db_failed, acc) else set_mode_reply mode user_id acc
on_default_mode o none user_id acc =
    if o.get_binding_fails
    then (db_failed, acc)
    else if not (is_some (get_binding user_id acc.user_bindings))
    then (not_bound, acc)
    else if o.get_mode_fails
    then (db_failed, acc)
    else (mode_reply (get_default_mode user_id acc.user_bindings), acc)

abbrev pub bind_reply : Text → Result (Result (Unit {0}) ℤ) DbError → Reply
bind_reply name (ok (ok u)) = bind_success name
bind_reply name (ok (err bound_qq)) = already_bound_other
bind_reply name (err e) = failed_retry

module _ (lower : Text → Text) where
  abbrev pub cache_id : Bool → Text → ℤ → Accounts → Accounts
  cache_id fails username id acc =
      if fails
      then acc
      else record acc { osu_user_ids = set_user_id lower username id acc.osu_user_ids }

  abbrev pub bind_found : Bool → Bool → ℤ → Text → ℤ → Text → Accounts → Reply × Accounts
  bind_found id_fails bind_fails qq username id name acc =
      let acc' = cache_id id_fails username id acc in
      let result = bind bind_fails qq id name acc'.user_bindings in
      (bind_reply name result.0, record acc' { user_bindings = result.1 })

  abbrev pub bind_directly : Outside → UserInfo → ℤ → Text → Accounts → Reply × Accounts
  bind_directly o no_user user_id username acc = (user_not_found, acc)
  bind_directly o api_failed user_id username acc = (api_error, acc)
  bind_directly o (user_found id name) user_id username acc =
      bind_found o.set_user_id_fails o.bind_fails user_id username id name acc

  -- A code is given out, with which the user is to write on IRC.
  abbrev pub bind_by_code : Outside → Text → ℤ → Option ℤ → Text → Accounts → Reply × Accounts
  bind_by_code o nickname user_id group_id username acc =
      if o.has_pending_fails
      then (failed_retry, acc)
      else if has_pending_bind user_id o.asked_at acc.pending_binds
      then (pending_exists, acc)
      else if o.add_pending_fails
      then (failed_retry, acc)
      else (
        code_sent o.code nickname,
        record acc {
          pending_binds =
              add_pending_bind o.code user_id (unwrap_or group_id (pos 0)) username o.written_at
                acc.pending_binds;
        },
      )

  abbrev pub bind_unbound :
      Outside → Option Text → ℤ → Option ℤ → Text → Accounts → Reply × Accounts
  bind_unbound o (some nickname) user_id group_id username acc =
      bind_by_code o nickname user_id group_id username acc
  bind_unbound o none user_id group_id username acc =
      bind_directly o (o.user_info username) user_id username acc

  abbrev pub bind_if_unbound :
      Outside → Option (ℤ × Text) → Option Text → ℤ → Option ℤ → Text → Accounts → Reply × Accounts
  bind_if_unbound o (some (id, name)) nickname user_id group_id username acc =
      (already_bound name, acc)
  bind_if_unbound o none nickname user_id group_id username acc =
      bind_unbound o nickname user_id group_id username acc

  unfoldable pub on_bind : Outside → Text → ℤ → Option ℤ → Accounts → Reply × Accounts
  on_bind o username user_id group_id acc =
      if o.get_binding_fails
      then (db_failed, acc)
      else bind_if_unbound o (get_binding user_id acc.user_bindings) o.irc_nickname user_id group_id
          username acc

abbrev pub unbind_reply : Outside → Result (Unit {0}) DbError → ℤ → Accounts → Reply × Accounts
unbind_reply o (ok u) user_id acc = (
  unbind_success,
  if o.remove_unbind_fails
      then acc
      else record acc { pending_unbind = remove_pending_unbind user_id acc.pending_unbind },
)
unbind_reply o (err e) user_id acc = (unbind_failed, acc)

abbrev pub unbind_confirmed : Outside → ℤ → Accounts → Reply × Accounts
unbind_confirmed o user_id acc =
    let result = unbind o.unbind_fails user_id acc.user_bindings acc.user_next_update in
    unbind_reply o result.0 user_id
      (record acc { user_bindings = result.1; user_next_update = result.2 })

abbrev pub ask_to_confirm : Outside → Option (ℤ × Text) → ℤ → Accounts → Reply × Accounts
ask_to_confirm o none user_id acc = (not_bound_any, acc)
ask_to_confirm o (some (id, name)) user_id acc = (
  confirm_unbind name,
  if o.set_unbind_fails then acc else record acc {
    pending_unbind = set_pending_unbind user_id o.written_at acc.pending_unbind;
  },
)

unfoldable pub on_unbind : Outside → ℤ → Accounts → Reply × Accounts
on_unbind o user_id acc =
    if o.get_unbind_fails
    then (db_failed, acc)
    else if is_some (get_pending_unbind user_id o.asked_at acc.pending_unbind)
    then unbind_confirmed o user_id acc
    else if o.get_binding_fails
    then (db_failed, acc)
    else ask_to_confirm o (get_binding user_id acc.user_bindings) user_id acc

-- A command of another kind is `unreachable!`.
unfoldable pub handle_settings_commands :
    (Text → Text) → Outside → Command → ℤ → Option ℤ → Accounts → Run (Reply × Accounts)
unfolding on_default_mode on_bind on_unbind
handle_settings_commands lower o (Command.set_default_mode mode) user_id group_id acc =
    done (on_default_mode o mode user_id acc)
handle_settings_commands lower o (Command.bind username) user_id group_id acc =
    done (on_bind lower o username user_id group_id acc)
handle_settings_commands lower o Command.unbind user_id group_id acc =
    done (on_unbind o user_id acc)
handle_settings_commands lower o _ user_id group_id acc = panicked
