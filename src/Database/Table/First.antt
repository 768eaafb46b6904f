-- ===== src/Database/Table/First.antt =====
-- Which rows a query finds after a statement.
use osubot_rs.Prelude.{
  ◌≤◌, ◌≡◌, refl, ltb, subst, ap, ◌∙◌, Bool, true, false, List, [], ◌∷◌, if◌then◌else◌, arith, All,
  Bool-cases, inl, inr, Option, none, some,
}
use osubot_rs.Database.Table.{
  update_where, count_where, select_where, first_row, delete_where, upsert,
}
use osubot_rs.Database.Table.Counts.{but_not, count-where-le}

module _ {R : Type 0} where
  -- What an upsert makes of the first row with its key.
  abbrev pub written : R → (R → R) → Option R → R
  written new set none = new
  written new set (some r) = set r

  -- What an update makes of a row, and of a first row.
  abbrev pub updated : (R → Bool) → (R → R) → R → R
  updated p set r = if p r then set r else r

  abbrev pub updated_first : (R → Bool) → (R → R) → Option R → Option R
  updated_first p set none = none
  updated_first p set (some r) = some (updated p set r)

  -- The first row with the key, after an upsert at the key.
  pub first-upsert :
      (p : R → Bool) (set : R → R) (new : R) (rs : List R)
      → p new ≡ true
      → ((r : R) → p r ≡ true → p (set r) ≡ true)
      → first_row (select_where p (upsert p set new rs))
        ≡ some (written new set (first_row (select_where p rs)))
  unfolding select_where upsert
  first-upsert p set new [] n k = rw (n) refl
  first-upsert p set new (r ∷ rs) n k = elim (Bool-cases (p r)) [
    | inl q ↦ rw (q, k r q) refl
    | inr q ↦ rw (q, q, first-upsert p set new rs n k) refl
  ]

  pub select-upsert-elsewhere :
      (q p : R → Bool) (set : R → R) (new : R) (rs : List R)
      → q new ≡ false
      → ((r : R) → p r ≡ true → (q r ≡ false) × (q (set r) ≡ false))
      → select_where q (upsert p set new rs) ≡ select_where q rs
  unfolding select_where upsert
  select-upsert-elsewhere q p set new [] n k = rw (n) refl
  select-upsert-elsewhere q p set new (r ∷ rs) n k = elim (Bool-cases (p r)) [
    | inl x ↦ rw (x, (k r x).0, (k r x).1) refl
    | inr x ↦ rw (x, select-upsert-elsewhere q p set new rs n k) refl
  ]

  -- The first row that meets `q`, after an update that leaves what meets `q`.
  pub first-update :
      (q p : R → Bool) (set : R → R) (rs : List R)
      → ((r : R) → p r ≡ true → q (set r) ≡ q r)
      → first_row (select_where q (update_where p set rs))
        ≡ updated_first p set (first_row (select_where q rs))
  unfolding select_where update_where
  first-update q p set [] k = refl
  first-update q p set (r ∷ rs) k = elim (Bool-cases (p r)) [
    | inl x ↦ elim (Bool-cases (q r)) [
      | inl y ↦ rw (x, k r x, y, x) refl
      | inr y ↦ rw (x, k r x, y, first-update q p set rs k) refl
    ]
    | inr x ↦ elim (Bool-cases (q r)) [
      | inl y ↦ rw (x, y, x) refl
      | inr y ↦ rw (x, y, first-update q p set rs k) refl
    ]
  ]

  -- A second update of the same rows that changes nothing.
  pub update-update :
      (p : R → Bool) (set set' : R → R) (rs : List R)
      → ((r : R) → p r ≡ true → set' (set r) ≡ set r)
      → ((r : R) → p (set r) ≡ p r)
      → update_where p set' (update_where p set rs) ≡ update_where p set rs
  unfolding update_where
  update-update p set set' [] h k = refl
  update-update p set set' (r ∷ rs) h k = elim (Bool-cases (p r)) [
    | inl x ↦ rw (x, k r, x, h r x, update-update p set set' rs h k) refl
    | inr x ↦ rw (x, x, update-update p set set' rs h k) refl
  ]

  pub first-none :
      (q : R → Bool) (rs : List R) → first_row (select_where q rs) ≡ none → count_where q rs ≡ 0
  unfolding count_where select_where
  first-none q [] h = refl
  first-none q (r ∷ rs) h = ground (arith, first-none q rs)

  -- The only row that meets `q` meets `p`.
  pub first-only :
      (q p : R → Bool) (b : R) (rs : List R)
      → count_where q rs ≤ 1
      → first_row (select_where q rs) ≡ some b
      → p b ≡ true
      → count_where (but_not q p) rs ≡ 0
  unfolding count_where select_where
  first-only q p b [] h f k = refl
  first-only q p b (r ∷ rs) h f k =
      ground (arith, first-only q p b rs, count-where-le (but_not q p) q rs (λ x y. ground arith))

  -- What holds of all rows holds of the one that a query finds.
  pub All-first {ℓ} :
      (P : R → Type ℓ) (q : R → Bool) (b : R) (rs : List R)
      → All P rs
      → first_row (select_where q rs) ≡ some b
      → P b
  unfolding select_where
  All-first P q b [] h f = absurd (ground arith)
  All-first P q b (r ∷ rs) (h, hs) f = elim (Bool-cases (q r)) [
    | inl x ↦ subst P (ground arith) h
    | inr x ↦ All-first P q b rs hs (ground arith)
  ]

  pub first-meets :
      (q : R → Bool) (b : R) (rs : List R) → first_row (select_where q rs) ≡ some b → q b ≡ true
  unfolding select_where
  first-meets q b [] f = absurd (ground arith)
  first-meets q b (r ∷ rs) f = ground (arith, first-meets q b rs)

  -- An upsert of a whole row: it is what a query then finds.
  pub first-upsert_row :
      (p : R → Bool) (new : R) (rs : List R)
      → p new ≡ true
      → first_row (select_where p (upsert p (λ _. new) new rs)) ≡ some new
  first-upsert_row p new rs n =
      first-upsert p (λ _. new) new rs n (λ r h. n)
      ∙ ap some (whole (first_row (select_where p rs)))
    where
      whole : (o : Option R) → written new (λ _. new) o ≡ new
      whole none = refl
      whole (some r) = refl

  pub first-delete :
      (p : R → Bool) (rs : List R) → first_row (select_where p (delete_where p rs)) ≡ none
  unfolding select_where delete_where
  first-delete p [] = refl
  first-delete p (r ∷ rs) = elim (Bool-cases (p r)) [
    | inl q ↦ rw (q) (first-delete p rs)
    | inr q ↦ rw (q, q) (first-delete p rs)
  ]

  pub first-some :
      (q : R → Bool) (b : R) (rs : List R)
      → first_row (select_where q rs) ≡ some b
      → ltb 0 (count_where q rs) ≡ true
  unfolding select_where count_where
  first-some q b [] f = absurd (ground arith)
  first-some q b (r ∷ rs) f = ground (arith, first-some q b rs)
