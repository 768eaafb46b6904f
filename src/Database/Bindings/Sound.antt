-- ===== src/Database/Bindings/Sound.antt =====
-- What the statements keep of a table of bindings (osubot-core/src/storage.rs).
use osubot_rs.Prelude.{
  ◌≤◌, ◌≡◌, refl, Bool, true, false, ◌||◌, List, Option, none, some, arith, All, Bool-cases, ℤ, pos,
  negsuc, inl, inr, eq_i64, eq_i64_same,
}
use osubot_rs.Text.{Text}
use osubot_rs.GameMode.{GameMode, osu, taiko, catch, mania, to_i32, to_u8}
use osubot_rs.Database.Table.{update_where, count_where, select_where, first_row, delete_where}
use osubot_rs.Database.Table.Counts.{
  count-update-eq, count-upsert-elsewhere, count-delete-le, count-upsert-key, but_not,
  count-upsert_unique, count-where-le, All-update, All-upsert, All-delete,
}
use osubot_rs.Database.Table.First.{first-none, first-only}
use osubot_rs.Database.Bindings.Rows.{forgotten_rows}
use osubot_rs.Database.Bindings.{
  Binding, NextUpdate, has_qq, has_user_id, qq_of, new_binding, insert_binding, bind, bind_at,
  UnbindFails, unbind, user_id_of,
}

abbrev pub IsMode : ℤ → Type 0
IsMode (pos n) = n ≤ 3
IsMode (negsuc n) = ⊥

-- A user of QQ has one binding at most, a user of osu! is bound to one at most, and every mode can be
-- read.
pub record Sound (rows : List Binding) : Type 0 where
  pub one_of_qq : (qq : ℤ) → count_where (has_qq qq) rows ≤ 1
  pub one_of_user : (user_id : ℤ) → count_where (has_user_id user_id) rows ≤ 1
  pub modes : All (λ b. IsMode b.default_mode) rows

-- A binding of a user who is not bound, or who is bound to the same QQ.
pub Sound-insert :
    (qq user_id : ℤ) (name : Text) (rows : List Binding)
    → count_where (but_not (has_user_id user_id) (has_qq qq)) rows ≡ 0
    → Sound rows
    → Sound (insert_binding qq user_id name rows)
unfolding insert_binding
Sound-insert qq user_id name rows free s =
    let new = new_binding qq user_id name in
    record {
      one_of_qq = λ qq'. elim (Bool-cases (eq_i64 qq qq')) [
        | inl e ↦
            rw (← eq_i64_same qq qq' e)
              (count-upsert-key (has_qq qq) (λ _. new) new rows (s.one_of_qq qq))
        | inr e ↦ ground (
          arith,
          s.one_of_qq qq',
          count-upsert-elsewhere (has_qq qq') (has_qq qq) (λ _. new) new rows e (λ _ _. e),
        )
      ];
      one_of_user = λ user'. elim (Bool-cases (eq_i64 user_id user')) [
        | inl e ↦ rw (← eq_i64_same user_id user' e) (
            ground (
              arith,
              free,
              count-upsert_unique (has_user_id user_id) (has_qq qq) (λ _. new) new rows
                  (s.one_of_qq qq),
            ))
        | inr e ↦ ground (
          arith,
          s.one_of_user user',
          count-upsert-elsewhere (has_user_id user') (has_qq qq) (λ _. new) new rows e (λ _ _. e),
        )
      ];
      modes =
          All-upsert (λ b. IsMode b.default_mode) (has_qq qq) (λ _. new) new rows (omega arith)
            (λ _ _ _. omega arith) s.modes;
    }

pub Sound-bind_at :
    (first : Option Binding) (qq user_id : ℤ) (name : Text) (rows : List Binding)
    → first_row (select_where (has_user_id user_id) rows) ≡ first
    → Sound rows
    → Sound (bind_at (qq_of first) qq user_id name rows).1
Sound-bind_at none qq user_id name rows f s =
    Sound-insert qq user_id name rows
      (ground (
        arith,
        first-none (has_user_id user_id) rows f,
        count-where-le (but_not (has_user_id user_id) (has_qq qq)) (has_user_id user_id) rows
            (λ x y. ground arith),
      ))
      s
Sound-bind_at (some b) qq user_id name rows f s = elim (Bool-cases (eq_i64 b.qq qq)) [
  | inl e ↦ rw (e) (
      Sound-insert qq user_id name rows
        (first-only (has_user_id user_id) (has_qq qq) b rows (s.one_of_user user_id) f e) s)
  | inr e ↦ rw (e) s
]

pub Sound-bind :
    (fails : Bool) (qq user_id : ℤ) (name : Text) (rows : List Binding)
    → Sound rows
    → Sound (bind fails qq user_id name rows).1
unfolding bind
Sound-bind true qq user_id name rows s = s
Sound-bind false qq user_id name rows s =
    Sound-bind_at (first_row (select_where (has_user_id user_id) rows)) qq user_id name rows refl s

pub Sound-delete :
    (p : Binding → Bool) (rows : List Binding) → Sound rows → Sound (delete_where p rows)
Sound-delete p rows s = record {
  one_of_qq = λ qq. ground (arith, s.one_of_qq qq, count-delete-le (has_qq qq) p rows);
  one_of_user = λ u. ground (arith, s.one_of_user u, count-delete-le (has_user_id u) p rows);
  modes = All-delete (λ b. IsMode b.default_mode) p rows s.modes;
}

-- An update that leaves the numbers.
pub Sound-update :
    (p : Binding → Bool) (set : Binding → Binding) (rows : List Binding)
    → ((b : Binding) → ((set b).qq ≡ b.qq) × ((set b).user_id ≡ b.user_id))
    → ((b : Binding) → IsMode b.default_mode → IsMode (set b).default_mode)
    → Sound rows
    → Sound (update_where p set rows)
Sound-update p set rows same k s = record {
  one_of_qq = λ qq.
      rw (count-update-eq (has_qq qq) p set rows (λ b. rw ((same b).0) refl)) (s.one_of_qq qq);
  one_of_user = λ u.
      rw (count-update-eq (has_user_id u) p set rows (λ b. rw ((same b).1) refl)) (s.one_of_user u);
  modes = All-update (λ b. IsMode b.default_mode) p set rows k s.modes;
}

pub Sound-unbind :
    (f : UnbindFails) (qq : ℤ) (rows : List Binding) (updates : List NextUpdate)
    → Sound rows
    → Sound (unbind f qq rows updates).1
unfolding unbind
Sound-unbind f qq rows updates s = elim (Bool-cases (f.select_fails || f.delete_fails)) [
  | inl a ↦ rw (a) s
  | inr a ↦
      rw
        (
          a,
          forgotten_rows f (user_id_of (first_row (select_where (has_qq qq) rows)))
              (delete_where (has_qq qq) rows) updates,
        )
        (Sound-delete (has_qq qq) rows s)
]

pub IsMode-to_i32 : (m : GameMode) → IsMode (to_i32 m)
unfolding to_i32 to_u8
IsMode-to_i32 osu = omega arith
IsMode-to_i32 taiko = omega arith
IsMode-to_i32 catch = omega arith
IsMode-to_i32 mania = omega arith
