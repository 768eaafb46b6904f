-- ===== src/Database/Bindings.antt =====
-- The tables of bindings and of users, and their statements (osubot-core/src/storage.rs). LOWER of the
-- database is a parameter.
pub mod Rows
pub mod Sound
pub mod Unique
pub mod Modes
use osubot_rs.Prelude.{
  ℕ, ◌+◌, ◌-◌, ◌*◌, ◌/◌, Bool, true, false, not, ◌&&◌, ◌||◌, List, [], ◌∷◌, Option, none, some, ltb,
  leb, ◌==◌, if◌then◌else◌, ℤ, pos, eq_i64, Result, ok, err, is_some, map,
}
use osubot_rs.Text.{Text, text_eq}
use osubot_rs.GameMode.{GameMode, InvalidGameMode, try_from_i32, to_i32}
use osubot_rs.Database.Table.{
  update_where, count_where, select_where, delete_where, first_row, upsert,
}

pub data DbError : Type 0 where
  db_error : DbError

pub record Binding : Type 0 where
  pub qq : ℤ
  pub user_id : ℤ
  pub current_username : Text
  pub default_mode : ℤ

pub record UserId : Type 0 where
  pub username : Text
  pub user_id : ℤ

pub record NextUpdate : Type 0 where
  pub user_id : ℤ
  pub mode : ℤ
  pub next_update : ℤ

abbrev pub has_qq : ℤ → Binding → Bool
has_qq qq b = eq_i64 b.qq qq

abbrev pub has_user_id : ℤ → Binding → Bool
has_user_id user_id b = eq_i64 b.user_id user_id

abbrev pub qq_of : Option Binding → Option ℤ
qq_of none = none
qq_of (some b) = some b.qq

abbrev pub user_id_of : Option Binding → Option ℤ
user_id_of none = none
user_id_of (some b) = some b.user_id

-- INSERT OR REPLACE: the column that is not named has its default again.
abbrev pub new_binding : ℤ → ℤ → Text → Binding
new_binding qq user_id name = record {
  qq = qq;
  user_id = user_id;
  current_username = name;
  default_mode = pos 0;
}

unfoldable pub insert_binding : ℤ → ℤ → Text → List Binding → List Binding
unfolding upsert
insert_binding qq user_id name rows =
    upsert (has_qq qq) (λ _. new_binding qq user_id name) (new_binding qq user_id name) rows

-- What the transaction does, as the first row with the user decides.
abbrev pub bind_at :
    Option ℤ → ℤ → ℤ → Text → List Binding → Result (Result (Unit {0}) ℤ) DbError × List Binding
bind_at none qq user_id name rows = (ok (ok tt), insert_binding qq user_id name rows)
bind_at (some existing_qq) qq user_id name rows =
    if not (eq_i64 existing_qq qq)
    then (ok (err existing_qq), rows)
    else (ok (ok tt), insert_binding qq user_id name rows)

-- A transaction: where a statement fails, it is rolled back.
unfoldable pub bind :
    Bool → ℤ → ℤ → Text → List Binding → Result (Result (Unit {0}) ℤ) DbError × List Binding
unfolding select_where
bind fails qq user_id name rows =
    if fails
    then (err db_error, rows)
    else bind_at (qq_of (first_row (select_where (has_user_id user_id) rows))) qq user_id name rows

-- The statements of an unbinding, each of which may fail.
pub record UnbindFails : Type 0 where
  pub select_fails : Bool
  pub delete_fails : Bool
  pub count_fails : Bool
  pub next_fails : Bool

abbrev pub of_user : ℤ → NextUpdate → Bool
of_user user_id n = eq_i64 n.user_id user_id

abbrev pub forget_updates :
    UnbindFails
    → Option ℤ
    → List Binding
    → List NextUpdate
    → Result (Unit {0}) DbError × List Binding × List NextUpdate
forget_updates f none rows updates = (ok tt, rows, updates)
forget_updates f (some uid) rows updates =
    if f.count_fails
    then (err db_error, rows, updates)
    else if not (count_where (has_user_id uid) rows == 0)
    then (ok tt, rows, updates)
    else if f.next_fails
    then (err db_error, rows, updates)
    else (ok tt, rows, delete_where (of_user uid) updates)

-- With no transaction: what was done before a failure stays.
unfoldable pub unbind :
    UnbindFails
    → ℤ
    → List Binding
    → List NextUpdate
    → Result (Unit {0}) DbError × List Binding × List NextUpdate
unfolding select_where delete_where
unbind f qq rows updates =
    let user_id = user_id_of (first_row (select_where (has_qq qq) rows)) in
    if f.select_fails || f.delete_fails
    then (err db_error, rows, updates)
    else forget_updates f user_id (delete_where (has_qq qq) rows) updates

abbrev pub binding_of : Option Binding → Option (ℤ × Text)
binding_of none = none
binding_of (some b) = some (b.user_id, b.current_username)

unfoldable pub get_binding : ℤ → List Binding → Option (ℤ × Text)
unfolding select_where
get_binding qq rows = binding_of (first_row (select_where (has_qq qq) rows))

abbrev pub stored_mode : Result GameMode InvalidGameMode → Result (Option GameMode) DbError
stored_mode (ok m) = ok (some m)
stored_mode (err e) = err db_error

abbrev pub mode_of : Option Binding → Result (Option GameMode) DbError
mode_of none = ok none
mode_of (some b) = stored_mode (try_from_i32 b.default_mode)

unfoldable pub get_default_mode : ℤ → List Binding → Result (Option GameMode) DbError
unfolding select_where
get_default_mode qq rows = mode_of (first_row (select_where (has_qq qq) rows))

abbrev pub with_mode : GameMode → Binding → Binding
with_mode m b = record b { default_mode = to_i32 m }

-- The table, and whether a row was changed.
unfoldable pub set_default_mode : ℤ → GameMode → List Binding → List Binding × Bool
unfolding update_where count_where
set_default_mode qq m rows =
    (update_where (has_qq qq) (with_mode m) rows, ltb 0 (count_where (has_qq qq) rows))

abbrev pub with_username : Text → Binding → Binding
with_username name b = record b { current_username = name }

unfoldable pub update_binding_username : ℤ → Text → List Binding → List Binding
unfolding update_where
update_binding_username qq name rows = update_where (has_qq qq) (with_username name) rows

abbrev pub is_named : Text → Option Binding → Bool
is_named name none = false
is_named name (some b) = text_eq b.current_username name

unfoldable pub update_binding_username_by_user_id : ℤ → Text → List Binding → List Binding × ℕ
unfolding update_where count_where select_where text_eq
update_binding_username_by_user_id user_id name rows =
    if is_named name (first_row (select_where (has_user_id user_id) rows)) then (rows, 0) else (
      update_where (has_user_id user_id) (with_username name) rows,
      count_where (has_user_id user_id) rows,
    )

module _ (lower : Text → Text) where
  unfoldable pub find_qq_by_username : Text → List Binding → Option ℤ
  unfolding select_where
  find_qq_by_username username rows =
      qq_of
        (first_row (select_where (λ b. text_eq (lower b.current_username) (lower username)) rows))

  unfoldable pub set_user_id : Text → ℤ → List UserId → List UserId
  unfolding upsert
  set_user_id username user_id rows =
      let row : UserId = record { username = lower username; user_id = user_id } in
      upsert (λ u. text_eq u.username row.username) (λ _. row) row rows

  abbrev pub cached_id : Option UserId → Option ℤ
  cached_id none = none
  cached_id (some u) = some u.user_id

  unfoldable pub get_user_id : Text → List UserId → Option ℤ
  unfolding select_where
  get_user_id username rows =
      cached_id (first_row (select_where (λ u. text_eq (lower u.username) (lower username)) rows))

  unfoldable pub get_users_without_ids : List Binding → List UserId → List Text
  unfolding select_where count_where
  get_users_without_ids rows ids =
      map (λ b. b.current_username)
        (select_where
          (λ b. count_where (λ u. text_eq (lower u.username) (lower b.current_username)) ids == 0)
          rows)
