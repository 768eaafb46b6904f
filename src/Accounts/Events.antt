-- ===== src/Accounts/Events.antt =====
-- The events that change the accounts, and what a list of them shows (osubot/src/command/settings.rs and
-- osubot/src/main.rs).
use osubot_rs.Prelude.{
  ◌≡◌, true, List, [], ◌∷◌, Option, none, some, ℤ, Run, done, panicked, is_some,
}
use osubot_rs.Text.{Text, trim}
use osubot_rs.Types.{Command}
use osubot_rs.Database.Bindings.{get_binding}
use osubot_rs.Accounts.{Accounts, user_found, Reply, code_sent, Outside, handle_settings_commands}
use osubot_rs.Accounts.Irc.{
  IrcOutside, same_sender, handle_irc_message, ResolveOutside, resolve_binding,
}

-- A command of a user, in a group or not; a message on IRC, from a sender; and the look for the binding of
-- a user, for a command about scores or players.
pub data Event : Type 0 where
  commanded : Outside → Command → ℤ → Option ℤ → Event
  messaged : IrcOutside → Text → Text → Event
  resolved : ResolveOutside → ℤ → Event

abbrev pub accounts_of : Accounts → Run (Reply × Accounts) → Accounts
accounts_of acc (done (r, acc')) = acc'
accounts_of acc panicked = acc

abbrev pub answer_of : Run (Reply × Accounts) → Option Reply
answer_of (done (r, acc)) = some r
answer_of panicked = none

abbrev pub no_accounts : Accounts
no_accounts = record {
  user_bindings = [];
  user_next_update = [];
  pending_unbind = [];
  pending_binds = [];
  osu_user_ids = [];
}

module _ (lower to_lowercase : Text → Text) where
  abbrev pub after_event : Event → Accounts → Accounts
  after_event (commanded o c qq g) acc =
      accounts_of acc (handle_settings_commands lower o c qq g acc)
  after_event (messaged o sender message) acc =
      (handle_irc_message lower to_lowercase o sender message acc).1
  after_event (resolved o qq) acc = (resolve_binding lower o qq acc).1

  -- The tables after some events, of which the last one stands first.
  abbrev pub accounts_after : List Event → Accounts
  accounts_after [] = no_accounts
  accounts_after (e ∷ es) = after_event e (accounts_after es)

-- The verification by IRC was on at every command.
abbrev pub ByIrc : List Event → Type 0
ByIrc [] = Unit
ByIrc (commanded o c qq g ∷ es) = (is_some o.irc_nickname ≡ true) × ByIrc es
ByIrc (messaged o sender message ∷ es) = ByIrc es
ByIrc (resolved o qq ∷ es) = ByIrc es

module _ (lower to_lowercase : Text → Text) where
  -- The user of QQ has asked to be bound to a name, and the answer was the code.
  pub data Asked (qq : ℤ) (code target : Text) : List Event → Type 0 where
    asks :
        (o : Outside) (g : Option ℤ) (nickname : Text) (es : List Event)
        → answer_of (
            handle_settings_commands lower o
              (Command.bind target)
              qq
              g
              (accounts_after lower to_lowercase es))
          ≡ some (code_sent code nickname)
        → Asked qq code target (commanded o (Command.bind target) qq g ∷ es)
    asked_before :
        (e : Event) (es : List Event) → Asked qq code target es → Asked qq code target (e ∷ es)

  -- Either the code that the user of QQ was given came in on IRC, from the user whose name was asked for,
  -- and the API gave this number for the name; or the user of QQ had no binding, and an upstream gave this
  -- number.
  pub data Proven (qq id : ℤ) : List Event → Type 0 where
    proves :
        (o : IrcOutside) (sender message target name : Text) (es : List Event)
        → Asked qq (trim message) target es
        → same_sender to_lowercase sender target ≡ true
        → o.user_info target ≡ user_found id name
        → Proven qq id (messaged o sender message ∷ es)
    resolves :
        (o : ResolveOutside) (name : Text) (es : List Event)
        → get_binding qq (accounts_after lower to_lowercase es).user_bindings ≡ none
        → o.upstream ≡ some (id, name)
        → Proven qq id (resolved o qq ∷ es)
    proven_before : (e : Event) (es : List Event) → Proven qq id es → Proven qq id (e ∷ es)
