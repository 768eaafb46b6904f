-- ===== src/Database/Pending.antt =====
-- The tables of unbindings and bindings that wait for a confirmation, and their statements
-- (osubot-core/src/storage.rs). A time of the clock is a number of nanoseconds since 1970, and stands
-- for the text that the database holds for it.
use osubot_rs.Prelude.{
  ℕ, ◌+◌, ◌-◌, ◌*◌, ◌/◌, Bool, ◌&&◌, List, Option, none, some, ltb, leb, if◌then◌else◌, ℤ, eq_i64,
}
use osubot_rs.Text.{Text, text_eq}
use osubot_rs.Database.Table.{count_where, select_where, delete_where, first_row, upsert}

pub record PendingUnbind : Type 0 where
  pub qq : ℤ
  pub created_at : ℕ

pub record PendingBind : Type 0 where
  pub code : Text
  pub qq_user_id : ℤ
  pub group_id : ℤ
  pub target_username : Text
  pub created_at : ℕ
  pub expires_at : ℕ

abbrev pub second : ℕ
second = 1000000000

abbrev pub timestamp : ℕ → ℕ
timestamp now = now / second

abbrev pub unbind_lifetime : ℕ
unbind_lifetime = 300

abbrev pub bind_lifetime : ℕ
bind_lifetime = 120

abbrev pub unbinds : ℤ → PendingUnbind → Bool
unbinds qq p = eq_i64 p.qq qq

unfoldable pub set_pending_unbind : ℤ → ℕ → List PendingUnbind → List PendingUnbind
unfolding upsert
set_pending_unbind qq now rows =
    let row : PendingUnbind = record { qq = qq; created_at = now } in
    upsert (unbinds qq) (λ _. row) row rows

-- `(now - created_at).num_seconds() < 300`.
abbrev pub fresh_unbind : ℕ → Option PendingUnbind → Option ℕ
fresh_unbind now none = none
fresh_unbind now (some p) =
    if ltb (timestamp (now - p.created_at)) unbind_lifetime then some p.created_at else none

unfoldable pub get_pending_unbind : ℤ → ℕ → List PendingUnbind → Option ℕ
unfolding select_where
get_pending_unbind qq now rows = fresh_unbind now (first_row (select_where (unbinds qq) rows))

unfoldable pub remove_pending_unbind : ℤ → List PendingUnbind → List PendingUnbind
unfolding delete_where
remove_pending_unbind qq rows = delete_where (unbinds qq) rows

unfoldable pub prune_expired_pending_unbinds : ℕ → List PendingUnbind → List PendingUnbind
unfolding delete_where
prune_expired_pending_unbinds now rows =
    delete_where (λ p. ltb p.created_at (now - unbind_lifetime * second)) rows

abbrev pub has_code : Text → PendingBind → Bool
has_code code p = text_eq p.code code

-- The code is what the random numbers give.
unfoldable pub add_pending_bind : Text → ℤ → ℤ → Text → ℕ → List PendingBind → List PendingBind
unfolding upsert
add_pending_bind code qq_user_id group_id target_username now rows =
    let row : PendingBind = record {
      code = code;
      qq_user_id = qq_user_id;
      group_id = group_id;
      target_username = target_username;
      created_at = now;
      expires_at = timestamp now + bind_lifetime;
    } in
    upsert (has_code code) (λ _. row) row rows

abbrev pub unexpired : ℕ → Option PendingBind → Option PendingBind
unexpired now none = none
unexpired now (some p) = if ltb p.expires_at (timestamp now) then none else some p

unfoldable pub get_pending_bind : Text → ℕ → List PendingBind → Option PendingBind
unfolding select_where
get_pending_bind code now rows = unexpired now (first_row (select_where (has_code code) rows))

unfoldable pub remove_pending_bind : Text → List PendingBind → List PendingBind
unfolding delete_where
remove_pending_bind code rows = delete_where (has_code code) rows

unfoldable pub prune_expired_pending_binds : ℕ → List PendingBind → List PendingBind
unfolding delete_where
prune_expired_pending_binds now rows = delete_where (λ p. ltb p.expires_at (timestamp now)) rows

abbrev pub is_pending : ℤ → ℕ → PendingBind → Bool
is_pending qq_user_id now p = eq_i64 p.qq_user_id qq_user_id && leb (timestamp now) p.expires_at

unfoldable pub has_pending_bind : ℤ → ℕ → List PendingBind → Bool
unfolding count_where
has_pending_bind qq_user_id now rows = ltb 0 (count_where (is_pending qq_user_id now) rows)
