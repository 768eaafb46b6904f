-- ===== src/Dedup/Places.antt =====
-- Where the calls on an entry stand.
use osubot_rs.Prelude.{ℕ, ◌==◌, ◌≡◌, Bool, true, false, arith, inl, inr, Bool-cases}
use osubot_rs.Dedup.{Task, Stage, Caller, put}

module _ {V E : Type 0} where
  abbrev pub awaits_task : Stage V E → Bool
  awaits_task Stage.creating = true
  awaits_task _ = false

  -- The guard is held and the semaphore not closed yet.
  abbrev pub will_close : Stage V E → Bool
  will_close Stage.creating = true
  will_close (Stage.stored r) = true
  will_close _ = false

  abbrev pub was_abandoned : Stage V E → Bool
  was_abandoned Stage.dropping = true
  was_abandoned Stage.abandoned = true
  was_abandoned _ = false

  abbrev pub is_spawned : Task V E → Bool
  is_spawned Task.unspawned = false
  is_spawned _ = true

  -- Some call on the entry `i` stands where `f` says.
  abbrev pub At : (ℕ → Caller V E) → (Stage V E → Bool) → ℕ → Type 0
  At callers f i = (d : ℕ) × ((f (callers d).stage ≡ true) × ((callers d).entry ≡ i))

  -- A call that was not there moves.
  pub At-other :
      (callers : ℕ → Caller V E) (c : ℕ) (x : Caller V E) (f : Stage V E → Bool) (i : ℕ)
      → f (callers c).stage ≡ false
      → At callers f i
      → At (put c x callers) f i
  At-other callers c x f i n (d, (o, e)) = elim (Bool-cases (c == d)) [
    | inl q ↦ absurd (ground arith)
    | inr q ↦ (d, ground arith)
  ]

  -- A call on another entry moves.
  pub At-elsewhere :
      (callers : ℕ → Caller V E) (c : ℕ) (x : Caller V E) (f : Stage V E → Bool) (i : ℕ)
      → ((callers c).entry == i) ≡ false
      → At callers f i
      → At (put c x callers) f i
  At-elsewhere callers c x f i n (d, (o, e)) = elim (Bool-cases (c == d)) [
    | inl q ↦ absurd (ground arith)
    | inr q ↦ (d, ground arith)
  ]

  -- A call moves, and stands there still.
  pub At-still :
      (callers : ℕ → Caller V E) (c : ℕ) (x : Caller V E) (f : Stage V E → Bool) (i : ℕ)
      → f x.stage ≡ true
      → (callers c).entry ≡ x.entry
      → At callers f i
      → At (put c x callers) f i
  At-still callers c x f i n m (d, (o, e)) = elim (Bool-cases (c == d)) [
    | inl q ↦ (d, ground arith)
    | inr q ↦ (d, ground arith)
  ]

  -- The call itself.
  pub At-self :
      (callers : ℕ → Caller V E) (c : ℕ) (x : Caller V E) (f : Stage V E → Bool) (i : ℕ)
      → f x.stage ≡ true
      → x.entry ≡ i
      → At (put c x callers) f i
  At-self callers c x f i n m = (c, ground arith)
