-- ===== src/Accounts/Irc.antt =====
-- Messages on IRC that confirm a binding, and bindings from the upstreams (handle_irc_message and
-- resolve_binding of osubot/src/main.rs).
use osubot_rs.Prelude.{ℕ, Bool, not, Option, none, some, if◌then◌else◌, ℤ}
use osubot_rs.Text.{Text, trim, replace, text_eq}
use osubot_rs.Database.Bindings.{get_binding}
use osubot_rs.Database.Pending.{PendingBind, get_pending_bind, remove_pending_bind}
use osubot_rs.Accounts.{
  Accounts, UserInfo, user_found, Reply, bind_found, no_user, api_failed, failed_retry,
  user_not_found, wrong_person,
}

-- What the outside gives when a message comes in on IRC.
pub record IrcOutside : Type 0 where
  pub received_at : ℕ
  pub get_pending_fails : Bool
  pub set_user_id_fails : Bool
  pub bind_fails : Bool
  pub remove_fails : Bool
  pub reply_sent : Bool
  pub user_info : Text → UserInfo

-- After a reply that was sent, the code is removed.
abbrev pub replied : IrcOutside → Text → Accounts → Accounts
replied o code acc =
    if not o.reply_sent
    then acc
    else if o.remove_fails
    then acc
    else record acc { pending_binds = remove_pending_bind code acc.pending_binds }

-- `to_lowercase` of Rust is a parameter, as LOWER is; 32 is a space, 95 is `_`.
abbrev pub same_sender : (Text → Text) → Text → Text → Bool
same_sender to_lowercase sender target =
    text_eq (to_lowercase sender) (to_lowercase (replace 32 95 target))

module _ (lower to_lowercase : Text → Text) where
  abbrev pub irc_bind :
      IrcOutside → UserInfo → PendingBind → Text → Accounts → Option Reply × Accounts
  irc_bind o no_user p code acc = (some user_not_found, replied o code acc)
  irc_bind o api_failed p code acc = (some failed_retry, replied o code acc)
  irc_bind o (user_found id name) p code acc =
      let result =
        bind_found lower o.set_user_id_fails o.bind_fails p.qq_user_id p.target_username id name
          acc in
      (some result.0, replied o code result.1)

  abbrev pub irc_pending :
      IrcOutside → Option PendingBind → Text → Text → Accounts → Option Reply × Accounts
  irc_pending o none sender code acc = (none, acc)
  irc_pending o (some p) sender code acc =
      if not (same_sender to_lowercase sender p.target_username)
      then (some wrong_person, replied o code acc)
      else irc_bind o (o.user_info p.target_username) p code acc

  unfoldable pub handle_irc_message : IrcOutside → Text → Text → Accounts → Option Reply × Accounts
  unfolding trim
  handle_irc_message o sender message acc =
      let code = trim message in
      if o.get_pending_fails
      then (none, acc)
      else irc_pending o (get_pending_bind code o.received_at acc.pending_binds) sender code acc

-- The binding of a user: the stored one, or what the upstreams answer, which is stored.
pub record ResolveOutside : Type 0 where
  pub get_fails : Bool
  pub upstream : Option (ℤ × Text)
  pub id_fails : Bool
  pub store_fails : Bool

module _ (lower : Text → Text) where
  abbrev pub from_upstream :
      ResolveOutside → Option (ℤ × Text) → ℤ → Accounts → Option (ℤ × Text) × Accounts
  from_upstream o none qq acc = (none, acc)
  from_upstream o (some (id, name)) qq acc =
      (some (id, name), (bind_found lower o.id_fails o.store_fails qq name id name acc).1)

  abbrev pub or_upstream :
      ResolveOutside → Option (ℤ × Text) → ℤ → Accounts → Option (ℤ × Text) × Accounts
  or_upstream o (some b) qq acc = (some b, acc)
  or_upstream o none qq acc = from_upstream o o.upstream qq acc

  unfoldable pub resolve_binding : ResolveOutside → ℤ → Accounts → Option (ℤ × Text) × Accounts
  resolve_binding o qq acc =
      if o.get_fails then (none, acc) else or_upstream o (get_binding qq acc.user_bindings) qq acc
