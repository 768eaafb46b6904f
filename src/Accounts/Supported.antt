-- ===== src/Accounts/Supported.antt =====
-- What the commands leave of the support of bindings and codes (osubot/src/command/settings.rs).
use osubot_rs.Prelude.{
  ◌≡◌, refl, true, not, List, [], ◌∷◌, Option, none, some, ℤ, Result, ok, err, is_some, All, arith,
  if_both,
}
use osubot_rs.Text.{Text}
use osubot_rs.GameMode.{GameMode}
use osubot_rs.Database.Table.Counts.{All-update, All-upsert}
use osubot_rs.Database.Bindings.{DbError, has_qq, with_mode, unbind, set_default_mode, get_binding}
use osubot_rs.Database.Bindings.Rows.{All-unbind}
use osubot_rs.Database.Pending.{has_code, add_pending_bind, get_pending_unbind, has_pending_bind}
use osubot_rs.Accounts.{
  Accounts, Reply, code_sent, Outside, on_default_mode, bind_by_code, bind_if_unbound, on_bind,
  unbind_reply, on_unbind, ask_to_confirm,
}
use osubot_rs.Accounts.Events.{Event, Asked, asked_before, Proven, proven_before}

pub record Supported (lower to_lowercase : Text → Text) (es : List Event) (acc : Accounts)
    : Type 0 where
  pub asked :
      All (λ p. Asked lower to_lowercase p.qq_user_id p.code p.target_username es) acc.pending_binds
  pub proven : All (λ b. Proven lower to_lowercase b.qq b.user_id es) acc.user_bindings

pub All-map {ℓ κ} :
    {A : Type 0} (P : A → Type ℓ) (Q : A → Type κ) (xs : List A)
    → ((x : A) → P x → Q x)
    → All P xs
    → All Q xs
All-map P Q [] f h = tt
All-map P Q (x ∷ xs) f (h, hs) = (f x h, All-map P Q xs f hs)

module _ (lower to_lowercase : Text → Text) where
  pub Supported-later :
      (e : Event) (es : List Event) (acc : Accounts)
      → Supported lower to_lowercase es acc
      → Supported lower to_lowercase (e ∷ es) acc
  Supported-later e es acc s = record {
    asked = All-map _ _ acc.pending_binds (λ p h. asked_before e es h) s.asked;
    proven = All-map _ _ acc.user_bindings (λ b h. proven_before e es h) s.proven;
  }

  pub Supported-mode :
      (o : Outside) (m : Option GameMode) (qq : ℤ) (es : List Event) (acc : Accounts)
      → Supported lower to_lowercase es acc
      → Supported lower to_lowercase es (on_default_mode o m qq acc).1
  unfolding on_default_mode set_default_mode
  Supported-mode o (some m) qq es acc s =
      if_both (λ (r : Reply × Accounts). Supported lower to_lowercase es r.1) o.set_mode_fails s
        (record {
          asked = s.asked;
          proven =
              All-update (λ b. Proven lower to_lowercase b.qq b.user_id es) (has_qq qq)
                (with_mode m) acc.user_bindings (λ b h. h) s.proven;
        })
  Supported-mode o none qq es acc s =
      let P = λ (r : Reply × Accounts). Supported lower to_lowercase es r.1 in
      if_both P o.get_binding_fails s (
        if_both P (not (is_some (get_binding qq acc.user_bindings))) s
          (if_both P o.get_mode_fails s s))

  -- What a bind command leaves, where the answer with a code means that the user has asked for it.
  abbrev pub Leaves : Outside → ℤ → Text → List Event → Reply × Accounts → Type 0
  Leaves o qq target es r =
      ((nickname : Text)
        → r.0 ≡ code_sent o.code nickname
        → Asked lower to_lowercase qq o.code target es)
      → Supported lower to_lowercase es r.1

  pub Supported-bind_by_code :
      (o : Outside) (nickname : Text) (qq : ℤ) (g : Option ℤ) (target : Text) (es : List Event)
      (acc : Accounts)
      → Supported lower to_lowercase es acc
      → Leaves o qq target es (bind_by_code lower o nickname qq g target acc)
  unfolding add_pending_bind
  Supported-bind_by_code o nickname qq g target es acc s =
      let P = Leaves o qq target es in
      if_both P o.has_pending_fails (λ k. s)
        (if_both P (has_pending_bind qq o.asked_at acc.pending_binds) (λ k. s)
          (if_both P o.add_pending_fails (λ k. s)
            (λ k. record {
              asked =
                  All-upsert
                    (λ p. Asked lower to_lowercase p.qq_user_id p.code p.target_username es)
                    (has_code o.code) _ _ acc.pending_binds (k nickname refl)
                    (λ p _ _. k nickname refl) s.asked;
              proven = s.proven;
            })))

  pub Supported-bind_unbound :
      (o : Outside) (b : Option (ℤ × Text)) (n : Option Text) (qq : ℤ) (g : Option ℤ)
      (target : Text) (es : List Event) (acc : Accounts)
      → is_some n ≡ true
      → Supported lower to_lowercase es acc
      → Leaves o qq target es (bind_if_unbound lower o b n qq g target acc)
  Supported-bind_unbound o (some (id, name)) n qq g target es acc i s = λ k. s
  Supported-bind_unbound o none (some n) qq g target es acc i s =
      Supported-bind_by_code o n qq g target es acc s
  Supported-bind_unbound o none none qq g target es acc i s = absurd (ground arith)

  pub Supported-bind :
      (o : Outside) (qq : ℤ) (g : Option ℤ) (target : Text) (es : List Event) (acc : Accounts)
      → is_some o.irc_nickname ≡ true
      → Supported lower to_lowercase es acc
      → Leaves o qq target es (on_bind lower o target qq g acc)
  unfolding on_bind
  Supported-bind o qq g target es acc i s =
      if_both (Leaves o qq target es) o.get_binding_fails (λ k. s)
        (Supported-bind_unbound o (get_binding qq acc.user_bindings) o.irc_nickname qq g target es
          acc i s)

  pub Supported-confirmed :
      (o : Outside) (qq : ℤ) (es : List Event) (acc acc' : Accounts) (r : Result (Unit {0}) DbError)
      → Supported lower to_lowercase es acc'
      → Supported lower to_lowercase es (unbind_reply o r qq acc').1
  Supported-confirmed o qq es acc acc' (ok u) s =
      if_both (Supported lower to_lowercase es) o.remove_unbind_fails s
        (record { asked = s.asked; proven = s.proven })
  Supported-confirmed o qq es acc acc' (err e) s = s

  pub Supported-asked :
      (o : Outside) (b : Option (ℤ × Text)) (qq : ℤ) (es : List Event) (acc : Accounts)
      → Supported lower to_lowercase es acc
      → Supported lower to_lowercase es (ask_to_confirm o b qq acc).1
  Supported-asked o none qq es acc s = s
  Supported-asked o (some (id, name)) qq es acc s =
      if_both (Supported lower to_lowercase es) o.set_unbind_fails s
        (record { asked = s.asked; proven = s.proven })

  pub Supported-unbind :
      (o : Outside) (qq : ℤ) (es : List Event) (acc : Accounts)
      → Supported lower to_lowercase es acc
      → Supported lower to_lowercase es (on_unbind o qq acc).1
  unfolding on_unbind
  Supported-unbind o qq es acc s =
      let P = λ (r : Reply × Accounts). Supported lower to_lowercase es r.1 in
      let rows =
        All-unbind (λ b. Proven lower to_lowercase b.qq b.user_id es) o.unbind_fails qq
          acc.user_bindings acc.user_next_update s.proven in
      if_both P o.get_unbind_fails s (
        if_both P (is_some (get_pending_unbind qq o.asked_at acc.pending_unbind))
          (Supported-confirmed o qq es acc _
            (unbind o.unbind_fails qq acc.user_bindings acc.user_next_update).0
            (record { asked = s.asked; proven = rows }))
          (if_both P o.get_binding_fails s
            (Supported-asked o (get_binding qq acc.user_bindings) qq es acc s)))
