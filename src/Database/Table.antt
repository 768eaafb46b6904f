-- ===== src/Database/Table.antt =====
-- What the SQL statements do with the rows of a table.
pub mod Counts
pub mod First
use osubot_rs.Prelude.{
  ℕ, suc, ◌+◌, ◌≤◌, ◌≡◌, refl, Bool, true, false, List, [], ◌∷◌, if◌then◌else◌, arith, All,
  Bool-cases, inl, inr, Option, none, some,
}

module _ {R : Type 0} where
  -- `UPDATE … SET … WHERE …`, and the number of rows that it changes.
  unfoldable pub update_where : (R → Bool) → (R → R) → List R → List R
  update_where p set [] = []
  update_where p set (r ∷ rs) = (if p r then set r else r) ∷ update_where p set rs

  unfoldable pub count_where : (R → Bool) → List R → ℕ
  count_where p [] = 0
  count_where p (r ∷ rs) = let n = count_where p rs in if p r then suc n else n

  -- `SELECT … WHERE …`, and its first row.
  unfoldable pub select_where : (R → Bool) → List R → List R
  select_where p [] = []
  select_where p (r ∷ rs) = let rest = select_where p rs in if p r then r ∷ rest else rest

  abbrev pub first_row : List R → Option R
  first_row [] = none
  first_row (r ∷ rs) = some r

  unfoldable pub delete_where : (R → Bool) → List R → List R
  delete_where p [] = []
  delete_where p (r ∷ rs) = let rest = delete_where p rs in if p r then rest else r ∷ rest

  -- `INSERT … ON CONFLICT … DO UPDATE SET …` on the rows with the key that `p` tells.
  unfoldable pub upsert : (R → Bool) → (R → R) → R → List R → List R
  upsert p set new [] = new ∷ []
  upsert p set new (r ∷ rs) = let rest = upsert p set new rs in if p r then set r ∷ rs else r ∷ rest

  -- `ORDER BY`: a sort by insertion, where `before` tells whether a row may stand before another.
  unfoldable pub insert_by : (R → R → Bool) → R → List R → List R
  insert_by before r [] = r ∷ []
  insert_by before r (x ∷ xs) =
      let rest = insert_by before r xs in if before r x then r ∷ x ∷ xs else x ∷ rest

  unfoldable pub order_by : (R → R → Bool) → List R → List R
  unfolding insert_by
  order_by before [] = []
  order_by before (r ∷ rs) = insert_by before r (order_by before rs)
