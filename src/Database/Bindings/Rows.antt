-- ===== src/Database/Bindings/Rows.antt =====
-- The rows that a binding and an unbinding leave (osubot-core/src/storage.rs).
use osubot_rs.Prelude.{
  ◌≡◌, refl, Bool, true, false, not, ◌||◌, List, Option, none, some, All, Bool-cases, ℤ, inl, inr,
  eq_i64, Result, ◌==◌, if_both,
}
use osubot_rs.Text.{Text}
use osubot_rs.Database.Table.{count_where, select_where, first_row, delete_where}
use osubot_rs.Database.Table.Counts.{All-upsert, All-delete}
use osubot_rs.Database.Bindings.{
  Binding, NextUpdate, DbError, has_qq, has_user_id, qq_of, user_id_of, new_binding, insert_binding,
  bind, bind_at, UnbindFails, unbind, forget_updates,
}

pub forgotten_rows :
    (f : UnbindFails) (u : Option ℤ) (rows : List Binding) (updates : List NextUpdate)
    → (forget_updates f u rows updates).1 ≡ rows
forgotten_rows f none rows updates = refl
forgotten_rows f (some u) rows updates = elim (Bool-cases f.count_fails) [
  | inl a ↦ rw (a) refl
  | inr a ↦ elim (Bool-cases (count_where (has_user_id u) rows == 0)) [
    | inl b ↦ elim (Bool-cases f.next_fails) [
      | inl c ↦ rw (a, b, c) refl
      | inr c ↦ rw (a, b, c) refl
    ]
    | inr b ↦ rw (a, b) refl
  ]
]

module _ {ℓ} (P : Binding → Type ℓ) where
  All-bind_at :
      (found : Option ℤ) (qq id : ℤ) (name : Text) (rows : List Binding)
      → P (new_binding qq id name)
      → All P rows
      → All P (bind_at found qq id name rows).1
  unfolding insert_binding
  All-bind_at none qq id name rows n h = All-upsert P (has_qq qq) _ _ rows n (λ _ _ _. n) h
  All-bind_at (some q) qq id name rows n h =
      if_both (λ (r : Result (Result (Unit {0}) ℤ) DbError × List Binding). All P r.1)
        (not (eq_i64 q qq)) h (All-upsert P (has_qq qq) _ _ rows n (λ _ _ _. n) h)

  -- What holds of the rows and of the new one holds after a binding.
  pub All-bind :
      (fails : Bool) (qq id : ℤ) (name : Text) (rows : List Binding)
      → P (new_binding qq id name)
      → All P rows
      → All P (bind fails qq id name rows).1
  unfolding bind
  All-bind true qq id name rows n h = h
  All-bind false qq id name rows n h =
      All-bind_at (qq_of (first_row (select_where (has_user_id id) rows))) qq id name rows n h

  pub All-unbind :
      (f : UnbindFails) (qq : ℤ) (rows : List Binding) (updates : List NextUpdate)
      → All P rows
      → All P (unbind f qq rows updates).1
  unfolding unbind
  All-unbind f qq rows updates h =
      if_both (λ (r : Result (Unit {0}) DbError × List Binding × List NextUpdate). All P r.1)
        (f.select_fails || f.delete_fails) h
        (rw
          (forgotten_rows f (user_id_of (first_row (select_where (has_qq qq) rows)))
            (delete_where (has_qq qq) rows) updates)
          (All-delete P (has_qq qq) rows h))
