-- ===== src/Prelude/Outcome.antt =====
-- What a call gives besides a plain value: `Result`, and a panic.

-- `Result<A, E>`.
pub data Result {ℓ κ} (A : Type ℓ) (E : Type κ) : Type (ℓ ⊔ κ) where
  ok : A → Result A E
  err : E → Result A E

-- A call that returns a value, or panics.
pub data Run {ℓ} (A : Type ℓ) : Type ℓ where
  done : A → Run A
  panicked : Run A

abbrev pub and_then {ℓ κ} : {A : Type ℓ} {B : Type κ} → Run A → (A → Run B) → Run B
and_then (done a) f = f a
and_then panicked f = panicked

-- A statement about the value that a call returns, if it returns one.
abbrev pub Returns {ℓ κ} : {A : Type ℓ} → (A → Type κ) → Run A → Type κ
Returns P (done a) = P a
Returns P panicked = Unit

pub Returns-and_then {ℓ κ ι η} :
    {A : Type ℓ} {B : Type κ} (P : A → Type ι) (Q : B → Type η) (m : Run A) (f : A → Run B)
    → Returns P m
    → ((a : A) → P a → Returns Q (f a))
    → Returns Q (and_then m f)
Returns-and_then P Q (done a) f h k = k a h
Returns-and_then P Q panicked f h k = tt

-- Every call meets the true statement.
pub Returns-any {ℓ} : {A : Type ℓ} (m : Run A) → Returns (λ _. Unit {0}) m
Returns-any (done a) = tt
Returns-any panicked = tt

-- The call returns, and the statement holds of its value.
abbrev pub Total {ℓ} : {A : Type ℓ} → (A → Type 0) → Run A → Type 0
Total P (done a) = P a
Total P panicked = ⊥

pub Total-and_then {ℓ κ} :
    {A : Type ℓ} {B : Type κ} (P : A → Type 0) (Q : B → Type 0) (m : Run A) (f : A → Run B)
    → Total P m
    → ((a : A) → P a → Total Q (f a))
    → Total Q (and_then m f)
Total-and_then P Q (done a) f h k = k a h
Total-and_then P Q panicked f h k = absurd h
