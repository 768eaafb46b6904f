-- ===== src/Database/Bindings/Modes.antt =====
-- The default mode of a user (osubot-core/src/storage.rs).
use osubot_rs.Prelude.{
  ◌≡◌, refl, ap, subst, ◌∙◌, Bool, true, false, ◌&&◌, List, Option, none, some, if◌then◌else◌, ltb,
  Bool-cases, ℤ, inl, inr, eq_i64, eq_i64_same, ok,
}
use osubot_rs.GameMode.{GameMode, try_from_i32, to_i32}
use osubot_rs.GameMode.Laws.{try_from_i32_iff}
use osubot_rs.Database.Table.{count_where, select_where, first_row}
use osubot_rs.Database.Table.First.{
  updated_first, first-update, first-meets, first-none, first-some,
}
use osubot_rs.Database.Listeners.Keys.{eq_i64_refl}
use osubot_rs.Database.Bindings.{
  Binding, has_qq, with_mode, mode_of, stored_mode, set_default_mode, get_default_mode,
}

mode_stored : (m : GameMode) → stored_mode (try_from_i32 (to_i32 m)) ≡ ok (some m)
mode_stored m = ap stored_mode ((try_from_i32_iff (to_i32 m) m).1 refl)

-- The row of the user, and the row of another one.
abbrev chosen : GameMode → Binding → Bool → Binding
chosen m b set = if set then with_mode m b else b

set_row :
    (m : GameMode) (b : Binding) (set : Bool)
    → set ≡ true
    → mode_of (some (chosen m b set)) ≡ ok (some m)
set_row m b set e = ap (λ t. mode_of (some (chosen m b t))) e ∙ mode_stored m

kept_row :
    (m : GameMode) (b : Binding) (set : Bool)
    → set ≡ false
    → mode_of (some (chosen m b set)) ≡ mode_of (some b)
kept_row m b set e = ap (λ t. mode_of (some (chosen m b t))) e

-- The mode that is read back for a user is the one that was set, where the setting answers that the
-- user is bound, and the modes of the others are as before.
get_default_mode-set :
    (qq qq' : ℤ) (m : GameMode) (rows : List Binding)
    → get_default_mode qq' (set_default_mode qq m rows).0 ≡ (
        if eq_i64 qq' qq && (set_default_mode qq m rows).1
        then ok (some m)
        else get_default_mode qq' rows)
unfolding get_default_mode set_default_mode
get_default_mode-set qq qq' m rows =
    ap mode_of (first-update (has_qq qq') (has_qq qq) (with_mode m) rows (λ b h. refl))
    ∙ at_first (first_row (select_where (has_qq qq') rows)) refl
  where
    at_first :
        (o : Option Binding)
        → first_row (select_where (has_qq qq') rows) ≡ o
        → mode_of (updated_first (has_qq qq) (with_mode m) o) ≡ (
            if eq_i64 qq' qq && ltb 0 (count_where (has_qq qq) rows)
            then ok (some m)
            else mode_of o)
    at_first none f = elim (Bool-cases (eq_i64 qq' qq)) [
      | inl q ↦
          let e = eq_i64_same qq' qq q in
          let z = subst (λ x. count_where (has_qq x) rows ≡ 0) e (first-none (has_qq qq') rows f) in
          rw (q, z) refl
      | inr q ↦ rw (q) refl
    ]
    at_first (some b) f =
        let own = eq_i64_same b.qq qq' (first-meets (has_qq qq') b rows f) in
        elim (Bool-cases (eq_i64 qq' qq)) [
          | inl q ↦
              let e = eq_i64_same qq' qq q in
              let z =
                subst (λ x. ltb 0 (count_where (has_qq x) rows) ≡ true) e
                  (first-some (has_qq qq') b rows f) in
              set_row m b (eq_i64 b.qq qq) (ap (λ x. eq_i64 x qq) (own ∙ e) ∙ eq_i64_refl qq)
              ∙ rw (q, z) refl
          | inr q ↦ kept_row m b (eq_i64 b.qq qq) (ap (λ x. eq_i64 x qq) own ∙ q) ∙ rw (q) refl
        ]
