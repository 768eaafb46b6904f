-- ===== src/Accounts/Unbinding.antt =====
-- The two steps of an unbinding (osubot/src/command/settings.rs).
use osubot_rs.Prelude.{
  ℕ, ◌-◌, ◌≡◌, refl, ap, ◌∙◌, Bool, true, false, List, Option, none, some, if◌then◌else◌, ltb,
  Bool-cases, ℤ, inl, inr, is_some, if_both, Result, ok, err,
}
use osubot_rs.Text.{Text}
use osubot_rs.Database.Table.{select_where, delete_where, first_row}
use osubot_rs.Database.Table.First.{first-upsert_row, first-delete}
use osubot_rs.Database.Bindings.{
  Binding, NextUpdate, DbError, UnbindFails, unbind, get_binding, has_qq, user_id_of,
}
use osubot_rs.Database.Bindings.Rows.{forgotten_rows}
use osubot_rs.Database.Listeners.Keys.{eq_i64_refl}
use osubot_rs.Database.Pending.{
  PendingUnbind, unbinds, timestamp, unbind_lifetime, fresh_unbind, get_pending_unbind,
  set_pending_unbind,
}
use osubot_rs.Accounts.{Accounts, Outside, unbind_reply, ask_to_confirm, on_unbind}

-- No statement of the call fails.
pub record Works (o : Outside) : Type 0 where
  pub gets : o.get_binding_fails ≡ false
  pub gets_unbind : o.get_unbind_fails ≡ false
  pub sets_unbind : o.set_unbind_fails ≡ false
  pub selects : o.unbind_fails.select_fails ≡ false
  pub deletes : o.unbind_fails.delete_fails ≡ false

asked_once :
    (o : Outside) (qq : ℤ) (b : ℤ × Text) (acc : Accounts)
    → Works o
    → get_pending_unbind qq o.asked_at acc.pending_unbind ≡ none
    → get_binding qq acc.user_bindings ≡ some b
    → (on_unbind o qq acc).1
      ≡ record acc { pending_unbind = set_pending_unbind qq o.written_at acc.pending_unbind }
unfolding on_unbind
asked_once o qq (id, name) acc w p b = rw (w.gets_unbind, p, w.gets, b, w.sets_unbind) refl

-- What a query finds of the pending unbinding, a while after it was set.
pending_later :
    (qq : ℤ) (written now : ℕ) (rows : List PendingUnbind)
    → get_pending_unbind qq now (set_pending_unbind qq written rows)
      ≡ (if ltb (timestamp (now - written)) unbind_lifetime then some written else none)
unfolding get_pending_unbind set_pending_unbind
pending_later qq written now rows =
    ap (fresh_unbind now) (
      first-upsert_row (unbinds qq) (record { qq = qq; created_at = written }) rows
        (eq_i64_refl qq))

unbound_after :
    (f : UnbindFails) (qq : ℤ) (rows : List Binding) (updates : List NextUpdate)
    → f.select_fails ≡ false
    → f.delete_fails ≡ false
    → get_binding qq (unbind f qq rows updates).1 ≡ none
unfolding get_binding unbind
unbound_after f qq rows updates s d =
    rw
      (
        s,
        d,
        forgotten_rows f (user_id_of (first_row (select_where (has_qq qq) rows)))
            (delete_where (has_qq qq) rows) updates,
        first-delete (has_qq qq) rows,
      )
      refl

confirmed_rows :
    (o : Outside) (qq : ℤ) (acc acc' : Accounts) (r : Result (Unit {0}) DbError)
    → (unbind_reply o r qq acc').1.user_bindings ≡ acc'.user_bindings
confirmed_rows o qq acc acc' (ok u) =
    if_both (λ (x : Accounts). x.user_bindings ≡ acc'.user_bindings) o.remove_unbind_fails refl refl
confirmed_rows o qq acc acc' (err e) = refl

asked_rows :
    (o : Outside) (b : Option (ℤ × Text)) (qq : ℤ) (acc : Accounts)
    → (ask_to_confirm o b qq acc).1.user_bindings ≡ acc.user_bindings
asked_rows o none qq acc = refl
asked_rows o (some (id, name)) qq acc =
    if_both (λ (x : Accounts). x.user_bindings ≡ acc.user_bindings) o.set_unbind_fails refl refl

-- The second command, as the pending unbinding that it finds decides.
asked_twice :
    (o : Outside) (qq : ℤ) (b : ℤ × Text) (acc : Accounts)
    → Works o
    → get_binding qq acc.user_bindings ≡ some b
    → get_binding qq (on_unbind o qq acc).1.user_bindings
      ≡ (if is_some (get_pending_unbind qq o.asked_at acc.pending_unbind) then none else some b)
unfolding on_unbind
asked_twice o qq b acc w g =
    elim (Bool-cases (is_some (get_pending_unbind qq o.asked_at acc.pending_unbind))) [
      | inl p ↦
          rw
            (
              w.gets_unbind,
              p,
              confirmed_rows o qq acc _
                  (unbind o.unbind_fails qq acc.user_bindings acc.user_next_update).0,
            )
            (unbound_after o.unbind_fails qq acc.user_bindings acc.user_next_update w.selects
              w.deletes)
      | inr p ↦
          rw (w.gets_unbind, p, w.gets, asked_rows o (get_binding qq acc.user_bindings) qq acc) g
    ]

-- A user who is bound and for whom no unbinding is pending gives the command twice, and the statements
-- that read and that delete the binding do not fail: the second command removes the binding when it
-- comes less than 300 seconds after the first one was noted, and otherwise leaves it.
pub on_unbind_twice :
    (o o' : Outside) (qq : ℤ) (b : ℤ × Text) (acc : Accounts)
    → Works o
    → Works o'
    → get_pending_unbind qq o.asked_at acc.pending_unbind ≡ none
    → get_binding qq acc.user_bindings ≡ some b
    → get_binding qq (on_unbind o' qq (on_unbind o qq acc).1).1.user_bindings
      ≡ (if ltb (timestamp (o'.asked_at - o.written_at)) 300 then none else some b)
on_unbind_twice o o' qq b acc w w' p g = rw (asked_once o qq b acc w p) (
    asked_twice o' qq b
      (record acc { pending_unbind = set_pending_unbind qq o.written_at acc.pending_unbind }) w' g
    ∙ ap (λ x. if is_some x then none else some b)
        (pending_later qq o.written_at o'.asked_at acc.pending_unbind)
    ∙ still (ltb (timestamp (o'.asked_at - o.written_at)) unbind_lifetime))
  where
    still :
        (t : Bool)
        → (if is_some (if t then some o.written_at else none) then none else some b)
          ≡ (if t then none else some b)
    still true = refl
    still false = refl
