-- ===== src/Database/Bindings/Unique.antt =====
-- What every table of bindings keeps (osubot-core/src/storage.rs).
use osubot_rs.Prelude.{
  zero, suc, ◌≡◌, refl, Bool, List, [], ◌∷◌, Option, none, some, arith, Bool-cases, ℤ, pos, negsuc,
  inl, inr, Result, ok, err,
}
use osubot_rs.Text.{Text}
use osubot_rs.GameMode.{GameMode, try_from_i32, try_from_u8}
use osubot_rs.Database.Table.{count_where, select_where, first_row}
use osubot_rs.Database.Table.First.{All-first}
use osubot_rs.Database.Bindings.{
  Binding, DbError, has_qq, has_user_id, bind, UnbindFails, unbind, set_default_mode, with_mode,
  with_username, update_binding_username, update_binding_username_by_user_id, is_named,
  get_default_mode, mode_of, stored_mode,
}
use osubot_rs.Database.Bindings.Sound.{
  IsMode, Sound, Sound-bind, Sound-update, Sound-unbind, IsMode-to_i32,
}

-- The statements that write the table of bindings, with what they are given and whether they fail.
pub data Statement : Type 0 where
  binds : Bool → ℤ → ℤ → Text → Statement
  unbinds : UnbindFails → ℤ → Statement
  sets_mode : ℤ → GameMode → Statement
  renames : ℤ → Text → Statement
  renames_user : ℤ → Text → Statement

abbrev pub run : Statement → List Binding → List Binding
run (binds fails qq user_id name) rows = (bind fails qq user_id name rows).1
run (unbinds f qq) rows = (unbind f qq rows []).1
run (sets_mode qq m) rows = (set_default_mode qq m rows).0
run (renames qq name) rows = update_binding_username qq name rows
run (renames_user user_id name) rows = (update_binding_username_by_user_id user_id name rows).0

-- The table after some statements, of which the last one stands first.
abbrev pub run_all : List Statement → List Binding
run_all [] = []
run_all (s ∷ ss) = run s (run_all ss)

Sound-rename_user :
    (user_id : ℤ) (name : Text) (rows : List Binding)
    → Sound rows
    → Sound (update_binding_username_by_user_id user_id name rows).0
unfolding update_binding_username_by_user_id
Sound-rename_user user_id name rows s =
    elim (Bool-cases (is_named name (first_row (select_where (has_user_id user_id) rows)))) [
      | inl a ↦ rw (a) s
      | inr a ↦ rw (a) (
          Sound-update (has_user_id user_id) (with_username name) rows (λ b. (refl, refl))
            (λ b h. h) s)
    ]

Sound-run : (s : Statement) (rows : List Binding) → Sound rows → Sound (run s rows)
unfolding set_default_mode update_binding_username
Sound-run (binds fails qq user_id name) rows s = Sound-bind fails qq user_id name rows s
Sound-run (unbinds f qq) rows s = Sound-unbind f qq rows [] s
Sound-run (sets_mode qq m) rows s =
    Sound-update (has_qq qq) (with_mode m) rows (λ b. (refl, refl)) (λ b _. IsMode-to_i32 m) s
Sound-run (renames qq name) rows s =
    Sound-update (has_qq qq) (with_username name) rows (λ b. (refl, refl)) (λ b h. h) s
Sound-run (renames_user user_id name) rows s = Sound-rename_user user_id name rows s

-- After any statements, with any failures: a user of QQ has one binding at most, a user of osu! is bound
-- to one user of QQ at most, and every stored mode is a mode.
pub run_all-Sound : (ss : List Statement) → Sound (run_all ss)
unfolding count_where
run_all-Sound [] = record {
  one_of_qq = λ qq. omega arith;
  one_of_user = λ u. omega arith;
  modes = tt;
}
run_all-Sound (s ∷ ss) = Sound-run s (run_all ss) (run_all-Sound ss)

-- The error of a stored number that is no mode.
abbrev pub Readable : Result (Option GameMode) DbError → Type 0
Readable (ok m) = Unit
Readable (err e) = ⊥

mode_read : (v : ℤ) → IsMode v → Readable (stored_mode (try_from_i32 v))
unfolding try_from_i32 try_from_u8
mode_read (pos zero) h = tt
mode_read (pos (suc zero)) h = tt
mode_read (pos (suc (suc zero))) h = tt
mode_read (pos (suc (suc (suc zero)))) h = tt
mode_read (pos (suc (suc (suc (suc v))))) h = absurd (omega arith)
mode_read (negsuc v) h = elim h [ ]

-- The error `invalid default_mode value in database` does not occur.
get_default_mode-Readable :
    (ss : List Statement) (qq : ℤ) → Readable (get_default_mode qq (run_all ss))
unfolding get_default_mode
get_default_mode-Readable ss qq = mode_at (first_row (select_where (has_qq qq) (run_all ss))) refl
  where
    mode_at :
        (o : Option Binding)
        → first_row (select_where (has_qq qq) (run_all ss)) ≡ o
        → Readable (mode_of o)
    mode_at none f = tt
    mode_at (some b) f = mode_read b.default_mode (
        All-first (λ b. IsMode b.default_mode) (has_qq qq) b (run_all ss) (run_all-Sound ss).modes
          f)
