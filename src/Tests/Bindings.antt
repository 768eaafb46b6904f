-- ===== src/Tests/Bindings.antt =====
-- A user who binds an account by IRC and gives it up again.
use osubot_rs.Prelude.{
  ℕ, ◌≡◌, ◌≤◌, ◌-◌, refl, true, false, [], ◌∷◌, List, none, some, arith, pos, if◌then◌else◌, ltb,
  All,
}
use osubot_rs.Text.{Text, codes, text_eq, trim, replace}
use osubot_rs.GameMode.{taiko}
use osubot_rs.Types.{Command}
use osubot_rs.Database.Table.{count_where, select_where, upsert, delete_where}
use osubot_rs.Database.Bindings.{
  Binding, UnbindFails, new_binding, insert_binding, bind, get_binding,
}
use osubot_rs.Database.Bindings.Sound.{Sound}
use osubot_rs.Database.Bindings.Unique.{binds, sets_mode, run_all, run_all-Sound}
use osubot_rs.Database.Pending.{
  timestamp, is_pending, get_pending_unbind, add_pending_bind, get_pending_bind, has_pending_bind,
  remove_pending_bind,
}
use osubot_rs.Accounts.{
  Accounts, Outside, user_found, no_user, on_bind, on_unbind, handle_settings_commands,
}
use osubot_rs.Accounts.Irc.{IrcOutside, handle_irc_message}
use osubot_rs.Accounts.Events.{Event, commanded, messaged, no_accounts, accounts_after, Proven}
use osubot_rs.Accounts.Evidence.{accounts_after-Proven}
use osubot_rs.Accounts.Codes.{accounts_after-pending}
use osubot_rs.Accounts.Unbinding.{on_unbind_twice}

abbrev nothing_fails : UnbindFails
nothing_fails = record {
  select_fails = false;
  delete_fails = false;
  count_fails = false;
  next_fails = false;
}

-- At 1000 seconds, with the verification by IRC.
abbrev outside : Outside
outside = record {
  asked_at = 1000000000000;
  written_at = 1000000000000;
  get_binding_fails = false;
  get_mode_fails = false;
  set_mode_fails = false;
  has_pending_fails = false;
  add_pending_fails = false;
  set_user_id_fails = false;
  bind_fails = false;
  get_unbind_fails = false;
  set_unbind_fails = false;
  remove_unbind_fails = false;
  unbind_fails = nothing_fails;
  irc_nickname = some (codes "bot");
  code = codes "123456";
  user_info = λ name. no_user;
}

-- 100 seconds later.
abbrev irc : IrcOutside
irc = record {
  received_at = 1100000000000;
  get_pending_fails = false;
  set_user_id_fails = false;
  bind_fails = false;
  remove_fails = false;
  reply_sent = true;
  user_info = λ name. user_found (pos 124493) (codes "Cookiezi");
}

abbrev as_it_is : Text → Text
as_it_is t = t

abbrev events : List Event
events =
    messaged irc (codes "Cookiezi") (codes " 123456 ")
    ∷ commanded outside (Command.bind (codes "Cookiezi")) (pos 10001) (some (pos 777))
    ∷ []

-- All that the events call.
calls : ℕ
unfolding handle_settings_commands on_bind handle_irc_message get_binding bind insert_binding
    add_pending_bind get_pending_bind has_pending_bind remove_pending_bind trim replace text_eq
    count_where select_where upsert delete_where
calls = 0

bound_by_irc :
    (accounts_after as_it_is as_it_is events).user_bindings
    ≡ new_binding (pos 10001) (pos 124493) (codes "Cookiezi") ∷ []
unfolding calls
bound_by_irc = refl

code_removed : (accounts_after as_it_is as_it_is events).pending_binds ≡ []
unfolding calls
code_removed = refl

accounts_after-Proven_example :
    All
      (λ b. Proven as_it_is as_it_is b.qq b.user_id events)
      (accounts_after as_it_is as_it_is events).user_bindings
accounts_after-Proven_example = accounts_after-Proven as_it_is as_it_is events (refl, tt)

accounts_after-pending_example :
    count_where
      (is_pending (pos 10001) 1200000000000)
      (accounts_after as_it_is as_it_is events).pending_binds
    ≤ 1
accounts_after-pending_example =
    accounts_after-pending as_it_is as_it_is events 1200000000000 (pos 10001)
      (omega arith, omega arith, tt)

-- Two users of QQ and one of osu!: the second is refused.
run_all-Sound_example : Sound (
    run_all (
      sets_mode (pos 1) taiko
      ∷ binds false (pos 2) (pos 124493) (codes "Cookiezi")
      ∷ binds false (pos 1) (pos 124493) (codes "Cookiezi")
      ∷ []))
run_all-Sound_example = run_all-Sound (
    sets_mode (pos 1) taiko
    ∷ binds false (pos 2) (pos 124493) (codes "Cookiezi")
    ∷ binds false (pos 1) (pos 124493) (codes "Cookiezi")
    ∷ [])

abbrev one_bound : List Binding
one_bound = new_binding (pos 1) (pos 124493) (codes "Cookiezi") ∷ []

abbrev one_account : Accounts
one_account = record no_accounts { user_bindings = one_bound }

-- 200 seconds after the first command.
abbrev soon : Outside
soon = record outside { asked_at = 1200000000000; written_at = 1200000000000 }

on_unbind_twice_example :
    get_binding
      (pos 1)
      (on_unbind soon (pos 1) (on_unbind outside (pos 1) one_account).1).1.user_bindings
    ≡ (if ltb (timestamp (1200000000000 - 1000000000000)) 300
        then none
        else some (pos 124493, codes "Cookiezi"))
unfolding get_binding get_pending_unbind select_where
on_unbind_twice_example =
    on_unbind_twice outside soon (pos 1) (pos 124493, codes "Cookiezi") one_account
      (record {
        gets = refl;
        gets_unbind = refl;
        sets_unbind = refl;
        selects = refl;
        deletes = refl;
      })
      (record {
        gets = refl;
        gets_unbind = refl;
        sets_unbind = refl;
        selects = refl;
        deletes = refl;
      })
      refl refl
