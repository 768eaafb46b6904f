-- ===== src/Database/Table/Counts.antt =====
-- How many rows meet a test after a statement.
use osubot_rs.Prelude.{
  suc, ◌+◌, ◌≤◌, ◌≡◌, refl, Bool, true, false, not, ◌&&◌, List, [], ◌∷◌, arith, All, Bool-cases,
  inl, inr,
}
use osubot_rs.Database.Table.{update_where, count_where, delete_where, upsert}

module _ {R : Type 0} where
  -- An update after which no more rows meet `q` than before.
  pub count-update-le :
      (q p : R → Bool) (set : R → R) (rs : List R)
      → ((r : R) → p r ≡ true → q (set r) ≡ true → q r ≡ true)
      → count_where q (update_where p set rs) ≤ count_where q rs
  unfolding count_where update_where
  count-update-le q p set [] h = omega arith
  count-update-le q p set (r ∷ rs) h = ground (arith, h r, count-update-le q p set rs h)

  pub count-update-eq :
      (q p : R → Bool) (set : R → R) (rs : List R)
      → ((r : R) → q (set r) ≡ q r)
      → count_where q (update_where p set rs) ≡ count_where q rs
  unfolding count_where update_where
  count-update-eq q p set [] h = refl
  count-update-eq q p set (r ∷ rs) h = ground (arith, h r, count-update-eq q p set rs h)

  pub count-upsert-le :
      (q p : R → Bool) (set : R → R) (new : R) (rs : List R)
      → count_where q (upsert p set new rs) ≤ suc (count_where q rs)
  unfolding count_where upsert
  count-upsert-le q p set new [] = ground arith
  count-upsert-le q p set new (r ∷ rs) = ground (arith, count-upsert-le q p set new rs)

  -- No row that is written meets `q`.
  pub count-upsert-elsewhere :
      (q p : R → Bool) (set : R → R) (new : R) (rs : List R)
      → q new ≡ false
      → ((r : R) → p r ≡ true → q (set r) ≡ false)
      → count_where q (upsert p set new rs) ≤ count_where q rs
  unfolding count_where upsert
  count-upsert-elsewhere q p set new [] n h = ground arith
  count-upsert-elsewhere q p set new (r ∷ rs) n h =
      ground (arith, h r, count-upsert-elsewhere q p set new rs n h)

  pub count-where-le :
      (q p : R → Bool) (rs : List R)
      → ((r : R) → q r ≡ true → p r ≡ true)
      → count_where q rs ≤ count_where p rs
  unfolding count_where
  count-where-le q p [] h = omega arith
  count-where-le q p (r ∷ rs) h = ground (arith, h r, count-where-le q p rs h)

  pub All-update {ℓ} :
      (P : R → Type ℓ) (p : R → Bool) (set : R → R) (rs : List R)
      → ((r : R) → P r → P (set r))
      → All P rs
      → All P (update_where p set rs)
  unfolding update_where
  All-update P p set [] k h = tt
  All-update P p set (r ∷ rs) k (h, hs) = elim (Bool-cases (p r)) [
    | inl q ↦ rw (q) (k r h, All-update P p set rs k hs)
    | inr q ↦ rw (q) (h, All-update P p set rs k hs)
  ]

  pub All-upsert {ℓ} :
      (P : R → Type ℓ) (p : R → Bool) (set : R → R) (new : R) (rs : List R)
      → P new
      → ((r : R) → p r ≡ true → P r → P (set r))
      → All P rs
      → All P (upsert p set new rs)
  unfolding upsert
  All-upsert P p set new [] n k h = (n, tt)
  All-upsert P p set new (r ∷ rs) n k (h, hs) = elim (Bool-cases (p r)) [
    | inl q ↦ rw (q) (k r q h, hs)
    | inr q ↦ rw (q) (h, All-upsert P p set new rs n k hs)
  ]

  pub count-delete-le :
      (q p : R → Bool) (rs : List R) → count_where q (delete_where p rs) ≤ count_where q rs
  unfolding count_where delete_where
  count-delete-le q p [] = omega arith
  count-delete-le q p (r ∷ rs) = ground (arith, count-delete-le q p rs)

  -- No row is left that a delete is about.
  pub count-delete : (p : R → Bool) (rs : List R) → count_where p (delete_where p rs) ≡ 0
  unfolding count_where delete_where
  count-delete p [] = refl
  count-delete p (r ∷ rs) = ground (arith, count-delete p rs)

  pub count-upsert-key :
      (p : R → Bool) (set : R → R) (new : R) (rs : List R)
      → count_where p rs ≤ 1
      → count_where p (upsert p set new rs) ≤ 1
  unfolding count_where upsert
  count-upsert-key p set new [] h = ground arith
  count-upsert-key p set new (r ∷ rs) h = ground (arith, count-upsert-key p set new rs)

  -- The rows that an upsert at a unique key does not write.
  abbrev pub but_not : (R → Bool) → (R → Bool) → R → Bool
  but_not q p r = q r && not (p r)

  count-but-not :
      (q p : R → Bool) (rs : List R)
      → count_where q rs ≤ count_where (but_not q p) rs + count_where p rs
  unfolding count_where
  count-but-not q p [] = omega arith
  count-but-not q p (r ∷ rs) = ground (arith, count-but-not q p rs)

  pub count-upsert_unique :
      (q p : R → Bool) (set : R → R) (new : R) (rs : List R)
      → count_where p rs ≤ 1
      → count_where q (upsert p set new rs) ≤ suc (count_where (but_not q p) rs)
  unfolding count_where upsert
  count-upsert_unique q p set new [] h = ground arith
  count-upsert_unique q p set new (r ∷ rs) h =
      ground (arith, count-upsert_unique q p set new rs, count-but-not q p rs)

  pub All-delete {ℓ} :
      (P : R → Type ℓ) (p : R → Bool) (rs : List R) → All P rs → All P (delete_where p rs)
  unfolding delete_where
  All-delete P p [] h = tt
  All-delete P p (r ∷ rs) (h, hs) = elim (Bool-cases (p r)) [
    | inl q ↦ rw (q) (All-delete P p rs hs)
    | inr q ↦ rw (q) (h, All-delete P p rs hs)
  ]
