-- ===== src/Accounts/SameCodes.antt =====
-- The commands and bindings that leave the codes (osubot/src/command/settings.rs).
use osubot_rs.Prelude.{
  ℕ, ◌+◌, ◌≤◌, ◌≡◌, refl, Bool, true, false, not, List, [], ◌∷◌, Option, none, some, arith,
  Bool-cases, ℤ, inl, inr, eq_i64, eq_i64_same, is_some, if_both, Result, ok, err,
}
use osubot_rs.Text.{Text}
use osubot_rs.GameMode.{GameMode}
use osubot_rs.Database.Table.{count_where}
use osubot_rs.Database.Table.Counts.{count-upsert-le, count-upsert-elsewhere, count-where-le}
use osubot_rs.Database.Bindings.{unbind, get_binding, DbError}
use osubot_rs.Database.Pending.{
  PendingBind, timestamp, bind_lifetime, has_code, is_pending, add_pending_bind, has_pending_bind,
  get_pending_unbind,
}
use osubot_rs.Accounts.{
  Accounts, Reply, Outside, on_default_mode, bind_found, unbind_reply, ask_to_confirm, on_unbind,
}
use osubot_rs.Accounts.Events.{Event, commanded, messaged, resolved}

-- The statements run in order, the last one by the time `t`.
abbrev pub InOrder : ℕ → List Event → Type 0
InOrder t [] = Unit
InOrder t (commanded o c qq g ∷ es) =
    o.written_at ≤ t × o.asked_at ≤ o.written_at × InOrder o.asked_at es
InOrder t (messaged o sender message ∷ es) = InOrder t es
InOrder t (resolved o qq ∷ es) = InOrder t es

pub timestamp_mono : (a b : ℕ) → a ≤ b → timestamp a ≤ timestamp b
timestamp_mono a b h = omega arith

-- What is pending at a time was pending before.
pub pending_before :
    (qq : ℤ) (a b : ℕ) (rows : List PendingBind)
    → a ≤ b
    → count_where (is_pending qq b) rows ≤ count_where (is_pending qq a) rows
pending_before qq a b rows h =
    count-where-le (is_pending qq b) (is_pending qq a) rows
      (λ p r. ground (arith, timestamp_mono a b h))

abbrev pub One : ℕ → Accounts → Type 0
One t acc = (qq : ℤ) → count_where (is_pending qq t) acc.pending_binds ≤ 1

pub One-later : (a b : ℕ) (acc : Accounts) → a ≤ b → One a acc → One b acc
One-later a b acc h k qq = ground (arith, pending_before qq a b acc.pending_binds h, k qq)

pub One-add :
    (o : Outside) (qq : ℤ) (g : ℤ) (target : Text) (acc : Accounts)
    → o.asked_at ≤ o.written_at
    → has_pending_bind qq o.asked_at acc.pending_binds ≡ false
    → One o.asked_at acc
    → One o.written_at (record acc {
      pending_binds = add_pending_bind o.code qq g target o.written_at acc.pending_binds;
    })
unfolding add_pending_bind has_pending_bind
One-add o qq g target acc h n k qq' = elim (Bool-cases (eq_i64 qq qq')) [
  | inl e ↦ rw (← eq_i64_same qq qq' e) (
      ground (
        arith,
        n,
        pending_before qq o.asked_at o.written_at acc.pending_binds h,
        count-upsert-le (is_pending qq o.written_at) (has_code o.code) (λ _. row) row
            acc.pending_binds,
      ))
  | inr e ↦ ground (
    arith,
    k qq',
    pending_before qq' o.asked_at o.written_at acc.pending_binds h,
    count-upsert-elsewhere (is_pending qq' o.written_at) (has_code o.code) (λ _. row) row
        acc.pending_binds (rw (e) refl) (λ _ _. rw (e) refl),
  )
]
  where
    row : PendingBind
    row = record {
      code = o.code;
      qq_user_id = qq;
      group_id = g;
      target_username = target;
      created_at = o.written_at;
      expires_at = timestamp o.written_at + bind_lifetime;
    }

-- The codes are those of before.
unfoldable pub SamePending : Accounts → Reply × Accounts → Type 0
SamePending acc r = r.1.pending_binds ≡ acc.pending_binds

pub same_mode :
    (o : Outside) (m : Option GameMode) (qq : ℤ) (acc : Accounts)
    → SamePending acc (on_default_mode o m qq acc)
unfolding on_default_mode SamePending
same_mode o (some m) qq acc = if_both (SamePending acc) o.set_mode_fails refl refl
same_mode o none qq acc = if_both (SamePending acc) o.get_binding_fails refl (
    if_both (SamePending acc) (not (is_some (get_binding qq acc.user_bindings))) refl
      (if_both (SamePending acc) o.get_mode_fails refl refl))

pub same_confirmed :
    (o : Outside) (qq : ℤ) (acc acc' : Accounts) (r : Result (Unit {0}) DbError)
    → acc'.pending_binds ≡ acc.pending_binds
    → SamePending acc (unbind_reply o r qq acc')
unfolding SamePending
same_confirmed o qq acc acc' (ok u) h =
    if_both (λ (x : Accounts). x.pending_binds ≡ acc.pending_binds) o.remove_unbind_fails h h
same_confirmed o qq acc acc' (err e) h = h

pub same_asked :
    (o : Outside) (b : Option (ℤ × Text)) (qq : ℤ) (acc : Accounts)
    → SamePending acc (ask_to_confirm o b qq acc)
unfolding SamePending
same_asked o none qq acc = refl
same_asked o (some (id, name)) qq acc =
    if_both (λ (x : Accounts). x.pending_binds ≡ acc.pending_binds) o.set_unbind_fails refl refl

pub same_unbind : (o : Outside) (qq : ℤ) (acc : Accounts) → SamePending acc (on_unbind o qq acc)
unfolding on_unbind SamePending
same_unbind o qq acc = if_both (SamePending acc) o.get_unbind_fails refl (
    if_both (SamePending acc) (is_some (get_pending_unbind qq o.asked_at acc.pending_unbind))
      (same_confirmed o qq acc _ (unbind o.unbind_fails qq acc.user_bindings acc.user_next_update).0
        refl)
      (if_both (SamePending acc) o.get_binding_fails refl
        (same_asked o (get_binding qq acc.user_bindings) qq acc)))

pub same_found :
    (lower : Text → Text) (id_fails fails : Bool) (qq id : ℤ) (username name : Text)
    (acc : Accounts)
    → SamePending acc (bind_found lower id_fails fails qq username id name acc)
unfolding SamePending
same_found lower true fails qq id username name acc = refl
same_found lower false fails qq id username name acc = refl
