-- ===== src/Dedup/Excuses.antt =====
-- Why an entry may be closed with no result, and a call be without an answer.
use osubot_rs.Prelude.{
  ℕ, ◌==◌, ◌≡◌, Bool, true, false, Option, none, some, arith, inl, inr, ◌⊎◌, is_some, Bool-cases,
  Result,
}
use osubot_rs.Text.{Text}
use osubot_rs.Dedup.{Entry, Task, Stage, Caller, RequestDedup, put, enter_at, claim}
use osubot_rs.Dedup.Single.{Inv}
use osubot_rs.Dedup.Places.{At, At-other, was_abandoned}
use osubot_rs.Dedup.Replies.{Delivers}

module _ {V E : Type 0} where
  -- Why the semaphore of an entry may be closed.
  abbrev pub Why : (ℕ → Caller V E) → Entry V E → ℕ → Type 0
  Why callers e i = (is_some e.result ≡ true) ⊎ At callers was_abandoned i

  pub Why-other :
      (s : RequestDedup V E) (c : ℕ) (x : Caller V E) (i : ℕ)
      → was_abandoned (s.callers c).stage ≡ false
      → Why s.callers (s.arena i) i
      → Why (put c x s.callers) (s.arena i) i
  Why-other s c x i n (inl q) = inl q
  Why-other s c x i n (inr a) = inr (At-other s.callers c x was_abandoned i n a)

  module _ (from : Text → E) where
    abbrev pub Answer : (ℕ → Caller V E) → Task V E → ℕ → Result V E → Type 0
    Answer callers t i r = Delivers from t r ⊎ At callers was_abandoned i

    pub record Excused (s : RequestDedup V E) : Type 0 where
      pub closed_why : (i : ℕ) → (s.arena i).closed ≡ true → Why s.callers (s.arena i) i
      pub returned_why :
          (c : ℕ) (r : Result V E)
          → (s.callers c).stage ≡ Stage.returned r
          → Answer s.callers (s.tasks (s.callers c).entry) (s.callers c).entry r

    -- One call moves, and no task of a call that returned is touched.
    pub returned-keep :
        (s : RequestDedup V E) (tasks : ℕ → Task V E) (c : ℕ) (x : Caller V E)
        → was_abandoned (s.callers c).stage ≡ false
        → ((d : ℕ) (r : Result V E)
            → (s.callers d).stage ≡ Stage.returned r
            → Delivers from (s.tasks (s.callers d).entry) r
            → Delivers from (tasks (s.callers d).entry) r)
        → ((r : Result V E)
            → x.stage ≡ Stage.returned r
            → Answer (put c x s.callers) (tasks x.entry) x.entry r)
        → Excused s
        → (d : ℕ) (r : Result V E) → (put c x s.callers d).stage ≡ Stage.returned r
        → Answer
            (put c x s.callers)
            (tasks (put c x s.callers d).entry)
            (put c x s.callers d).entry
            r
    returned-keep s tasks c x n same own h d r at = elim (Bool-cases (c == d)) [
      | inl q ↦ rw (q) (own r (ground arith))
      | inr q ↦ elim (h.returned_why d r (ground arith)) [
        | inl p ↦ rw (q) (inl (same d r (ground arith) p))
        | inr a ↦ rw (q) (inr (At-other s.callers c x was_abandoned (s.callers d).entry n a))
      ]
    ]

    pub enter_at-Excused :
        (c key : ℕ) (found : Option ℕ) (s : RequestDedup V E)
        → (s.callers c).stage ≡ Stage.idle
        → Inv s
        → Excused s
        → Excused (enter_at c key found s)
    unfolding enter_at
    enter_at-Excused c key (some i) s at v h = record {
      closed_why = λ k o. Why-other s c _ k (ground arith) (h.closed_why k o);
      returned_why =
          returned-keep s s.tasks c _ (ground arith) (λ d r e p. p) (λ r e. absurd (ground arith))
            h;
    }
    enter_at-Excused c key none s at v h = record {
      closed_why = λ k o. elim (Bool-cases (s.next == k)) [
        | inl q ↦ absurd (ground arith)
        | inr q ↦ rw (q) (Why-other s c _ k (ground arith) (h.closed_why k (ground arith)))
      ];
      returned_why =
          returned-keep s (put s.next Task.unspawned s.tasks) c _ (ground arith)
            (λ d r e p. ground (arith, v.bound d)) (λ r e. absurd (ground arith)) h;
    }

    pub claim-Excused :
        (c : ℕ) (s : RequestDedup V E) (b : Bool)
        → (s.arena (s.callers c).entry).claimed ≡ b
        → (s.callers c).stage ≡ Stage.entered
        → Inv s
        → Excused s
        → Excused (claim c s)
    unfolding claim
    claim-Excused c s true b at v h = rw (b) (record {
      closed_why = λ k o. Why-other s c _ k (ground arith) (h.closed_why k o);
      returned_why =
          returned-keep s s.tasks c _ (ground arith) (λ d r e p. p) (λ r e. absurd (ground arith))
            h;
    })
    claim-Excused c s false b at v h = rw (b) (record {
      closed_why = λ k o. elim (Why-other s c _ k (ground arith) (h.closed_why k (ground arith))) [
        | inl q ↦ inl (ground arith)
        | inr a ↦ inr a
      ];
      returned_why =
          returned-keep s (put (s.callers c).entry Task.running s.tasks) c _ (ground arith)
            (λ d r e p. ground (arith, v.marked d)) (λ r e. absurd (ground arith)) h;
    })
