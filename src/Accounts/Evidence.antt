-- ===== src/Accounts/Evidence.antt =====
-- What a binding that is made by IRC rests on (osubot/src/command/settings.rs and osubot/src/main.rs).
use osubot_rs.Prelude.{
  ℕ, ◌≡◌, refl, Bool, true, false, not, List, [], ◌∷◌, Option, none, some, ℤ, is_some, All, arith,
  subst, ap, if_both, Bool-cases, inl, inr,
}
use osubot_rs.Text.{Text, trim}
use osubot_rs.Text.Laws.{text_eq_iff}
use osubot_rs.Types.{Command}
use osubot_rs.Database.Table.{select_where, first_row}
use osubot_rs.Database.Table.Counts.{All-delete}
use osubot_rs.Database.Table.First.{All-first, first-meets}
use osubot_rs.Database.Bindings.{get_binding}
use osubot_rs.Database.Bindings.Rows.{All-bind}
use osubot_rs.Database.Pending.{
  PendingBind, has_code, get_pending_bind, unexpired, remove_pending_bind,
}
use osubot_rs.Accounts.{
  Accounts, UserInfo, user_found, no_user, api_failed, Reply, Outside, bind_found,
  handle_settings_commands,
}
use osubot_rs.Accounts.Irc.{
  IrcOutside, same_sender, replied, irc_bind, irc_pending, handle_irc_message, ResolveOutside,
  from_upstream, or_upstream, resolve_binding,
}
use osubot_rs.Accounts.Events.{
  Event, commanded, messaged, resolved, accounts_after, ByIrc, Asked, asks, Proven, proves,
  resolves,
}
use osubot_rs.Accounts.Supported.{
  Supported, Supported-later, Supported-mode, Supported-bind, Supported-unbind,
}

module _ (lower to_lowercase : Text → Text) where
  Supported-replied :
      (o : IrcOutside) (code : Text) (es : List Event) (acc : Accounts)
      → Supported lower to_lowercase es acc
      → Supported lower to_lowercase es (replied o code acc)
  unfolding remove_pending_bind
  Supported-replied o code es acc s =
      if_both (Supported lower to_lowercase es) (not o.reply_sent) s (
        if_both (Supported lower to_lowercase es) o.remove_fails s (record {
          asked = All-delete _ (has_code code) acc.pending_binds s.asked;
          proven = s.proven;
        }))

  Supported-user_found :
      (id_fails fails : Bool) (qq id : ℤ) (username name : Text) (es : List Event) (acc : Accounts)
      → Proven lower to_lowercase qq id es
      → Supported lower to_lowercase es acc
      → Supported lower to_lowercase es (bind_found lower id_fails fails qq username id name acc).1
  Supported-user_found true fails qq id username name es acc p s = record {
    asked = s.asked;
    proven =
        All-bind (λ b. Proven lower to_lowercase b.qq b.user_id es) fails qq id name
          acc.user_bindings p s.proven;
  }
  Supported-user_found false fails qq id username name es acc p s = record {
    asked = s.asked;
    proven =
        All-bind (λ b. Proven lower to_lowercase b.qq b.user_id es) fails qq id name
          acc.user_bindings p s.proven;
  }

  Supported-irc_bind :
      (o : IrcOutside) (i : UserInfo) (p : PendingBind) (code : Text) (es : List Event)
      (acc : Accounts)
      → ((id : ℤ) (name : Text)
          → i ≡ user_found id name
          → Proven lower to_lowercase p.qq_user_id id es)
      → Supported lower to_lowercase es acc
      → Supported lower to_lowercase es (irc_bind lower to_lowercase o i p code acc).1
  Supported-irc_bind o no_user p code es acc k s = Supported-replied o code es acc s
  Supported-irc_bind o api_failed p code es acc k s = Supported-replied o code es acc s
  Supported-irc_bind o (user_found id name) p code es acc k s = Supported-replied o code es _ (
      Supported-user_found o.set_user_id_fails o.bind_fails p.qq_user_id id p.target_username name
        es acc (k id name refl) s)

  Supported-pending :
      (o : IrcOutside) (f : Option PendingBind) (sender message : Text) (es : List Event)
      (acc : Accounts)
      → ((p : PendingBind)
          → f ≡ some p
          → Asked lower to_lowercase p.qq_user_id (trim message) p.target_username es)
      → Supported lower to_lowercase es acc
      → Supported lower to_lowercase
          (messaged o sender message ∷ es)
          (irc_pending lower to_lowercase o f sender (trim message) acc).1
  Supported-pending o none sender message es acc k s =
      Supported-later lower to_lowercase (messaged o sender message) es acc s
  Supported-pending o (some p) sender message es acc k s =
      let e = messaged o sender message in
      let later = Supported-later lower to_lowercase e es acc s in
      elim (Bool-cases (same_sender to_lowercase sender p.target_username)) [
        | inl q ↦ rw (q) (
            Supported-irc_bind o (o.user_info p.target_username) p (trim message) (e ∷ es) acc
              (λ id name f. proves o sender message p.target_username name es (k p refl) q f) later)
        | inr q ↦ rw (q) (Supported-replied o (trim message) (e ∷ es) acc later)
      ]

  asked_for :
      (code : Text) (now : ℕ) (f : Option PendingBind) (p : PendingBind) (es : List Event)
      (rows : List PendingBind)
      → first_row (select_where (has_code code) rows) ≡ f
      → All (λ p. Asked lower to_lowercase p.qq_user_id p.code p.target_username es) rows
      → unexpired now f ≡ some p
      → Asked lower to_lowercase p.qq_user_id code p.target_username es
  asked_for code now none p es rows at h u = absurd (ground arith)
  asked_for code now (some q) p es rows at h u =
      let same : q ≡ p = ground arith in
      let code_of : q.code ≡ code =
        (text_eq_iff q.code code).0 (first-meets (has_code code) q rows at) in
      subst (λ p. Asked lower to_lowercase p.qq_user_id code p.target_username es) same
        (subst (λ c. Asked lower to_lowercase q.qq_user_id c q.target_username es) code_of
          (All-first (λ p. Asked lower to_lowercase p.qq_user_id p.code p.target_username es)
            (has_code code) q rows h at))

  Supported-message :
      (o : IrcOutside) (sender message : Text) (es : List Event) (acc : Accounts)
      → Supported lower to_lowercase es acc
      → Supported lower to_lowercase
          (messaged o sender message ∷ es)
          (handle_irc_message lower to_lowercase o sender message acc).1
  unfolding handle_irc_message get_pending_bind
  Supported-message o sender message es acc s =
      if_both
        (λ (r : Option Reply × Accounts).
          Supported lower to_lowercase (messaged o sender message ∷ es) r.1)
        o.get_pending_fails
        (Supported-later lower to_lowercase (messaged o sender message) es acc s)
        (Supported-pending o (get_pending_bind (trim message) o.received_at acc.pending_binds)
          sender message es acc
          (λ p u. asked_for (trim message) o.received_at _ p es acc.pending_binds refl s.asked u) s)

  Supported-command :
      (o : Outside) (c : Command) (qq : ℤ) (g : Option ℤ) (es : List Event)
      → is_some o.irc_nickname ≡ true
      → Supported lower to_lowercase es (accounts_after lower to_lowercase es)
      → Supported lower to_lowercase
          (commanded o c qq g ∷ es)
          (accounts_after lower to_lowercase (commanded o c qq g ∷ es))
  unfolding handle_settings_commands
  Supported-command o (Command.set_default_mode m) qq g es i s =
      Supported-later lower to_lowercase (commanded o (Command.set_default_mode m) qq g) es _
        (Supported-mode lower to_lowercase o m qq es _ s)
  Supported-command o (Command.bind target) qq g es i s =
      let e = commanded o (Command.bind target) qq g in
      Supported-bind lower to_lowercase o qq g target (e ∷ es)
        (accounts_after lower to_lowercase es) i (Supported-later lower to_lowercase e es _ s)
        (λ nickname q. asks o g nickname es (ap some q))
  Supported-command o Command.unbind qq g es i s =
      Supported-later lower to_lowercase (commanded o Command.unbind qq g) es _
        (Supported-unbind lower to_lowercase o qq es _ s)
  Supported-command o c qq g es i s = Supported-later lower to_lowercase (commanded o c qq g) es _ s

  Supported-upstream :
      (o : ResolveOutside) (u : Option (ℤ × Text)) (qq : ℤ) (es : List Event) (acc : Accounts)
      → ((id : ℤ) (name : Text) → u ≡ some (id, name) → Proven lower to_lowercase qq id es)
      → Supported lower to_lowercase es acc
      → Supported lower to_lowercase es (from_upstream lower o u qq acc).1
  Supported-upstream o none qq es acc k s = s
  Supported-upstream o (some (id, name)) qq es acc k s =
      Supported-user_found o.id_fails o.store_fails qq id name name es acc (k id name refl) s

  Supported-or_upstream :
      (o : ResolveOutside) (b : Option (ℤ × Text)) (qq : ℤ) (es : List Event) (acc : Accounts)
      → ((id : ℤ) (name : Text)
          → b ≡ none
          → o.upstream ≡ some (id, name)
          → Proven lower to_lowercase qq id es)
      → Supported lower to_lowercase es acc
      → Supported lower to_lowercase es (or_upstream lower o b qq acc).1
  Supported-or_upstream o (some b) qq es acc k s = s
  Supported-or_upstream o none qq es acc k s =
      Supported-upstream o o.upstream qq es acc (λ id name. k id name refl) s

  Supported-resolved :
      (o : ResolveOutside) (qq : ℤ) (es : List Event)
      → Supported lower to_lowercase es (accounts_after lower to_lowercase es)
      → Supported lower to_lowercase
          (resolved o qq ∷ es)
          (accounts_after lower to_lowercase (resolved o qq ∷ es))
  unfolding resolve_binding
  Supported-resolved o qq es s =
      let acc = accounts_after lower to_lowercase es in
      let later = Supported-later lower to_lowercase (resolved o qq) es acc s in
      if_both
        (λ (r : Option (ℤ × Text) × Accounts).
          Supported lower to_lowercase (resolved o qq ∷ es) r.1)
        o.get_fails later
        (Supported-or_upstream o (get_binding qq acc.user_bindings) qq (resolved o qq ∷ es) acc
          (λ id name b u. resolves o name es b u) later)

  Supported-after :
      (es : List Event)
      → ByIrc es
      → Supported lower to_lowercase es (accounts_after lower to_lowercase es)
  Supported-after [] h = record { asked = tt; proven = tt }
  Supported-after (commanded o c qq g ∷ es) (h, hs) =
      Supported-command o c qq g es h (Supported-after es hs)
  Supported-after (messaged o sender message ∷ es) hs =
      Supported-message o sender message es _ (Supported-after es hs)
  Supported-after (resolved o qq ∷ es) hs = Supported-resolved o qq es (Supported-after es hs)

-- Where bindings are verified by IRC, every binding that the commands, the messages and the look for
-- bindings have made is proven. Either the user of QQ asked to be bound to a name, the answer was a code,
-- that code came in later on IRC from a sender with that name, and the API gave the number that is bound; or
-- the user of QQ had no binding when a command looked for it, and an upstream gave the number.
pub accounts_after-Proven :
    (lower to_lowercase : Text → Text) (es : List Event)
    → ByIrc es
    → All
        (λ b. Proven lower to_lowercase b.qq b.user_id es)
        (accounts_after lower to_lowercase es).user_bindings
accounts_after-Proven lower to_lowercase es h = (Supported-after lower to_lowercase es h).proven
