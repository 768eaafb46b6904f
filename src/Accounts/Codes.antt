-- ===== src/Accounts/Codes.antt =====
-- How many codes a user has at once (osubot/src/command/settings.rs and osubot/src/main.rs).
use osubot_rs.Prelude.{
  ℕ, ◌≤◌, ◌≡◌, refl, Bool, true, false, not, List, [], ◌∷◌, Option, none, some, if◌then◌else◌,
  arith, Bool-cases, ℤ, pos, inl, inr, if_both, unwrap_or,
}
use osubot_rs.Text.{Text, trim}
use osubot_rs.Types.{Command}
use osubot_rs.Database.Table.{count_where}
use osubot_rs.Database.Table.Counts.{count-delete-le}
use osubot_rs.Database.Bindings.{get_binding}
use osubot_rs.Database.Pending.{
  PendingBind, has_code, is_pending, has_pending_bind, get_pending_bind, remove_pending_bind,
}
use osubot_rs.Accounts.{
  Accounts, UserInfo, user_found, no_user, api_failed, Reply, Outside, bind_directly, bind_by_code,
  bind_if_unbound, on_bind, handle_settings_commands,
}
use osubot_rs.Accounts.Irc.{
  IrcOutside, same_sender, replied, irc_bind, irc_pending, handle_irc_message, ResolveOutside,
  or_upstream, resolve_binding,
}
use osubot_rs.Accounts.Events.{Event, commanded, messaged, resolved, accounts_of, accounts_after}
use osubot_rs.Accounts.SameCodes.{
  InOrder, One, One-later, One-add, SamePending, same_mode, same_unbind, same_found,
}

module _ (lower to_lowercase : Text → Text) where
  same_directly :
      (o : Outside) (i : UserInfo) (qq : ℤ) (target : Text) (acc : Accounts)
      → SamePending acc (bind_directly lower o i qq target acc)
  unfolding SamePending
  same_directly o no_user qq target acc = refl
  same_directly o api_failed qq target acc = refl
  same_directly o (user_found id name) qq target acc =
      same_found lower o.set_user_id_fails o.bind_fails qq id target name acc

  -- The codes that a command leaves at the time at which it writes.
  abbrev OneAfter : ℕ → Reply × Accounts → Type 0
  OneAfter t r = One t r.1

  OneAfter-same :
      (t : ℕ) (acc : Accounts) (r : Reply × Accounts) → SamePending acc r → One t acc → OneAfter t r
  unfolding SamePending
  OneAfter-same t acc r h k qq = rw (h) (k qq)

  One-by_code :
      (o : Outside) (nickname : Text) (qq : ℤ) (g : Option ℤ) (target : Text) (acc : Accounts)
      → o.asked_at ≤ o.written_at
      → One o.asked_at acc
      → OneAfter o.written_at (bind_by_code lower o nickname qq g target acc)
  One-by_code o nickname qq g target acc h k =
      let later = One-later o.asked_at o.written_at acc h k in
      if_both (OneAfter o.written_at) o.has_pending_fails later
        (elim (Bool-cases (has_pending_bind qq o.asked_at acc.pending_binds)) [
          | inl q ↦ if_one _ _ _ q later
          | inr q ↦ if_other _ _ _ q (
              if_both (OneAfter o.written_at) o.add_pending_fails later
                (One-add o qq (unwrap_or g (pos 0)) target acc h q k))
        ])
    where
      if_one :
          (b : Bool) (x y : Reply × Accounts)
          → b ≡ true
          → OneAfter o.written_at x
          → OneAfter o.written_at (if b then x else y)
      if_one b x y q k = rw (q) k

      if_other :
          (b : Bool) (x y : Reply × Accounts)
          → b ≡ false
          → OneAfter o.written_at y
          → OneAfter o.written_at (if b then x else y)
      if_other b x y q k = rw (q) k

  One-unbound :
      (o : Outside) (b : Option (ℤ × Text)) (n : Option Text) (qq : ℤ) (g : Option ℤ)
      (target : Text) (acc : Accounts)
      → o.asked_at ≤ o.written_at
      → One o.asked_at acc
      → OneAfter o.written_at (bind_if_unbound lower o b n qq g target acc)
  One-unbound o (some (id, name)) n qq g target acc h k = One-later o.asked_at o.written_at acc h k
  One-unbound o none (some n) qq g target acc h k = One-by_code o n qq g target acc h k
  One-unbound o none none qq g target acc h k =
      OneAfter-same o.written_at acc _ (same_directly o (o.user_info target) qq target acc)
        (One-later o.asked_at o.written_at acc h k)

  One-command :
      (o : Outside) (c : Command) (qq : ℤ) (g : Option ℤ) (acc : Accounts)
      → o.asked_at ≤ o.written_at
      → One o.asked_at acc
      → One o.written_at (accounts_of acc (handle_settings_commands lower o c qq g acc))
  unfolding handle_settings_commands on_bind
  One-command o (Command.set_default_mode m) qq g acc h k =
      OneAfter-same o.written_at acc _ (same_mode o m qq acc)
        (One-later o.asked_at o.written_at acc h k)
  One-command o (Command.bind target) qq g acc h k =
      if_both (OneAfter o.written_at) o.get_binding_fails
        (One-later o.asked_at o.written_at acc h k)
        (One-unbound o (get_binding qq acc.user_bindings) o.irc_nickname qq g target acc h k)
  One-command o Command.unbind qq g acc h k =
      OneAfter-same o.written_at acc _ (same_unbind o qq acc)
        (One-later o.asked_at o.written_at acc h k)
  One-command o c qq g acc h k = One-later o.asked_at o.written_at acc h k

  One-replied :
      (o : IrcOutside) (code : Text) (t : ℕ) (acc : Accounts)
      → One t acc
      → One t (replied o code acc)
  unfolding remove_pending_bind
  One-replied o code t acc k = if_both (One t) (not o.reply_sent) k (
      if_both (One t) o.remove_fails k (λ qq.
        ground (arith, k qq, count-delete-le (is_pending qq t) (has_code code) acc.pending_binds)))

  One-irc_bind :
      (o : IrcOutside) (i : UserInfo) (p : PendingBind) (code : Text) (t : ℕ) (acc : Accounts)
      → One t acc
      → One t (irc_bind lower to_lowercase o i p code acc).1
  One-irc_bind o no_user p code t acc k = One-replied o code t acc k
  One-irc_bind o api_failed p code t acc k = One-replied o code t acc k
  One-irc_bind o (user_found id name) p code t acc k = One-replied o code t _ (
      OneAfter-same t acc _
        (same_found lower o.set_user_id_fails o.bind_fails p.qq_user_id id p.target_username name
          acc)
        k)

  One-pending :
      (o : IrcOutside) (f : Option PendingBind) (sender code : Text) (t : ℕ) (acc : Accounts)
      → One t acc
      → One t (irc_pending lower to_lowercase o f sender code acc).1
  One-pending o none sender code t acc k = k
  One-pending o (some p) sender code t acc k =
      if_both (λ (r : Option Reply × Accounts). One t r.1)
        (not (same_sender to_lowercase sender p.target_username)) (One-replied o code t acc k)
        (One-irc_bind o (o.user_info p.target_username) p code t acc k)

  One-upstream :
      (o : ResolveOutside) (b u : Option (ℤ × Text)) (qq : ℤ) (t : ℕ) (acc : Accounts)
      → o.upstream ≡ u
      → One t acc
      → One t (or_upstream lower o b qq acc).1
  One-upstream o (some b) u qq t acc e k = k
  One-upstream o none none qq t acc e k = rw (e) k
  One-upstream o none (some (id, name)) qq t acc e k =
      rw (e)
        (OneAfter-same t acc _ (same_found lower o.id_fails o.store_fails qq id name name acc) k)

  One-resolved :
      (o : ResolveOutside) (qq : ℤ) (t : ℕ) (acc : Accounts)
      → One t acc
      → One t (resolve_binding lower o qq acc).1
  unfolding resolve_binding
  One-resolved o qq t acc k =
      if_both (λ (r : Option (ℤ × Text) × Accounts). One t r.1) o.get_fails k
        (One-upstream o (get_binding qq acc.user_bindings) o.upstream qq t acc refl k)

  -- When the statements run in order, no user has two codes that have not expired.
  pub accounts_after-pending :
      (es : List Event) (now : ℕ) (qq : ℤ)
      → InOrder now es
      → count_where (is_pending qq now) (accounts_after lower to_lowercase es).pending_binds ≤ 1
  unfolding handle_irc_message count_where
  accounts_after-pending es now qq h = after es now h qq
    where
      after :
          (es : List Event) (now : ℕ)
          → InOrder now es
          → One now (accounts_after lower to_lowercase es)
      after [] now h = λ qq. omega arith
      after (commanded o c qq g ∷ es) now (w, a, h) =
          One-later o.written_at now
            (accounts_of (accounts_after lower to_lowercase es)
              (handle_settings_commands lower o c qq g (accounts_after lower to_lowercase es)))
            w
            (One-command o c qq g (accounts_after lower to_lowercase es) a (after es o.asked_at h))
      after (messaged o sender message ∷ es) now h =
          if_both (λ (r : Option Reply × Accounts). One now r.1) o.get_pending_fails
            (after es now h)
            (One-pending o
              (get_pending_bind (trim message) o.received_at
                (accounts_after lower to_lowercase es).pending_binds)
              sender (trim message) now (accounts_after lower to_lowercase es) (after es now h))
      after (resolved o qq ∷ es) now h = One-resolved o qq now _ (after es now h)
