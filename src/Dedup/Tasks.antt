-- ===== src/Dedup/Tasks.antt =====
-- The deduplicator's tasks and waiters: who awaits the task of an entry, and who wakes its waiters.
use osubot_rs.Prelude.{
  ℕ, ◌==◌, ◌≡◌, refl, Bool, true, false, Option, none, some, arith, inl, inr, ◌⊎◌, Bool-cases,
  Result,
}
use osubot_rs.Text.{Text}
use osubot_rs.Dedup.{
  Joined, Task, Stage, Caller, RequestDedup, put, new, go, enter_at, claim, close_dropped,
  remove_key, close, store_result, Step, Reachable,
}
use osubot_rs.Dedup.Keys.{Keyed-Reachable}
use osubot_rs.Dedup.Single.{Inv, Inv-Reachable, holds_entry}
use osubot_rs.Dedup.Places.{
  At, At-other, At-elsewhere, At-still, At-self, awaits_task, will_close, was_abandoned, is_spawned,
}

module _ {V E : Type 0} where
  -- Who closes the semaphore of `i`, and who awaits its task.
  abbrev Closing : RequestDedup V E → ℕ → Type 0
  Closing s i = ((s.arena i).closed ≡ true) ⊎ At s.callers will_close i

  abbrev Awaited : RequestDedup V E → ℕ → Type 0
  Awaited s i = At s.callers awaits_task i ⊎ At s.callers was_abandoned i

  pub record Tasked (s : RequestDedup V E) : Type 0 where
    pub owed : (i : ℕ) → (s.arena i).claimed ≡ true → Closing s i
    pub awaited : (i : ℕ) → s.tasks i ≡ Task.running → Awaited s i
    pub spawned :
        (c : ℕ)
        → awaits_task (s.callers c).stage ≡ true
        → is_spawned (s.tasks (s.callers c).entry) ≡ true

  -- A call that neither held a guard nor was dropped while it did moves.
  Closing-other :
      (s : RequestDedup V E) (c : ℕ) (x : Caller V E) (i : ℕ)
      → will_close (s.callers c).stage ≡ false
      → Closing s i
      → ((s.arena i).closed ≡ true) ⊎ At (put c x s.callers) will_close i
  Closing-other s c x i n (inl e) = inl e
  Closing-other s c x i n (inr a) = inr (At-other s.callers c x will_close i n a)

  Awaited-other :
      (s : RequestDedup V E) (c : ℕ) (x : Caller V E) (i : ℕ)
      → awaits_task (s.callers c).stage ≡ false
      → was_abandoned (s.callers c).stage ≡ false
      → Awaited s i
      → At (put c x s.callers) awaits_task i ⊎ At (put c x s.callers) was_abandoned i
  Awaited-other s c x i n m (inl a) = inl (At-other s.callers c x awaits_task i n a)
  Awaited-other s c x i n m (inr a) = inr (At-other s.callers c x was_abandoned i m a)

  enter_at-Tasked :
      (c key : ℕ) (found : Option ℕ) (s : RequestDedup V E)
      → (s.callers c).stage ≡ Stage.idle
      → Inv s
      → Tasked s
      → Tasked (enter_at c key found s)
  unfolding enter_at
  enter_at-Tasked c key (some i) s at v h = record {
    owed = λ k o. Closing-other s c _ k (ground arith) (h.owed k o);
    awaited = λ k o. Awaited-other s c _ k (ground arith) (ground arith) (h.awaited k o);
    spawned = λ d o. ground (arith, h.spawned d);
  }
  enter_at-Tasked c key none s at v h = record {
    owed = λ k o. elim (Bool-cases (s.next == k)) [
      | inl q ↦ absurd (ground arith)
      | inr q ↦ rw (q) (Closing-other s c _ k (ground arith) (h.owed k (ground arith)))
    ];
    awaited = λ k o. elim (Bool-cases (s.next == k)) [
      | inl q ↦ absurd (ground arith)
      | inr q ↦ Awaited-other s c _ k (ground arith) (ground arith) (h.awaited k (ground arith))
    ];
    spawned = λ d o. ground (arith, h.spawned d, v.bound d);
  }

  go-Tasked :
      (c : ℕ) (stage : Stage V E) (s : RequestDedup V E)
      → (s.callers c).stage ≡ Stage.waiting
      → awaits_task stage ≡ false
      → Tasked s
      → Tasked (go c stage s)
  go-Tasked c stage s at n h = record {
    owed = λ k o. Closing-other s c _ k (ground arith) (h.owed k o);
    awaited = λ k o. Awaited-other s c _ k (ground arith) (ground arith) (h.awaited k o);
    spawned = λ d o. ground (arith, h.spawned d);
  }

  claim-Tasked :
      (c : ℕ) (s : RequestDedup V E) (b : Bool)
      → (s.arena (s.callers c).entry).claimed ≡ b
      → (s.callers c).stage ≡ Stage.entered
      → Tasked s
      → Tasked (claim c s)
  unfolding claim
  claim-Tasked c s true b at h = rw (b) (record {
    owed = λ k o. Closing-other s c _ k (ground arith) (h.owed k o);
    awaited = λ k o. Awaited-other s c _ k (ground arith) (ground arith) (h.awaited k o);
    spawned = λ d o. ground (arith, h.spawned d);
  })
  claim-Tasked c s false b at h = rw (b) (record {
    owed = λ k o. elim (Bool-cases ((s.callers c).entry == k)) [
      | inl q ↦ inr (At-self s.callers c _ will_close k refl (ground arith))
      | inr q ↦ rw (q) (Closing-other s c _ k (ground arith) (h.owed k (ground arith)))
    ];
    awaited = λ k o. elim (Bool-cases ((s.callers c).entry == k)) [
      | inl q ↦ inl (At-self s.callers c _ awaits_task k refl (ground arith))
      | inr q ↦ Awaited-other s c _ k (ground arith) (ground arith) (h.awaited k (ground arith))
    ];
    spawned = λ d o. ground (arith, h.spawned d);
  })

  store_result-Tasked :
      (from : Text → E) (c : ℕ) (j : Joined V E) (s : RequestDedup V E)
      → (s.callers c).stage ≡ Stage.creating
      → s.tasks (s.callers c).entry ≡ Task.ended j
      → Tasked s
      → Tasked (store_result from c j s)
  unfolding store_result
  store_result-Tasked from c j s at e h = record {
    owed = λ k o. elim (h.owed k (ground arith)) [
      | inl q ↦ inl (ground arith)
      | inr a ↦ inr (At-still s.callers c _ will_close k refl refl a)
    ];
    awaited = λ k o. elim (h.awaited k o) [
      | inl a ↦ inl (At-elsewhere s.callers c _ awaits_task k (ground arith) a)
      | inr a ↦ inr (At-other s.callers c _ was_abandoned k (ground arith) a)
    ];
    spawned = λ d o. ground (arith, h.spawned d);
  }

  -- The semaphore of the call's entry is closed, whatever stage it then has.
  Closing-owed :
      (s : RequestDedup V E) (c : ℕ) (x : Caller V E) (k : ℕ)
      → Closing s k
      → (((put (s.callers c).entry (record (s.arena (s.callers c).entry) { closed = true }) s.arena)
            k).closed
          ≡ true)
        ⊎ At (put c x s.callers) will_close k
  Closing-owed s c x k (inl q) = inl (ground arith)
  Closing-owed s c x k (inr a) = elim (Bool-cases ((s.callers c).entry == k)) [
    | inl q ↦ inl (ground arith)
    | inr q ↦ inr (At-elsewhere s.callers c x will_close k q a)
  ]

  close-Tasked :
      (c : ℕ) (r : Result V E) (s : RequestDedup V E)
      → (s.callers c).stage ≡ Stage.stored r
      → Tasked s
      → Tasked (close c r s)
  unfolding close
  close-Tasked c r s at h = record {
    owed = λ k o. Closing-owed s c _ k (h.owed k (ground arith));
    awaited = λ k o. Awaited-other s c _ k (ground arith) (ground arith) (h.awaited k o);
    spawned = λ d o. ground (arith, h.spawned d);
  }

  leaves-Tasked :
      (c : ℕ) (r : Result V E) (s : RequestDedup V E)
      → (s.callers c).stage ≡ Stage.leaving r
      → Tasked s
      → Tasked (remove_key c (Stage.returned r) s)
  unfolding remove_key
  leaves-Tasked c r s at h = record {
    owed = λ k o. Closing-other s c _ k (ground arith) (h.owed k o);
    awaited = λ k o. Awaited-other s c _ k (ground arith) (ground arith) (h.awaited k o);
    spawned = λ d o. ground (arith, h.spawned d);
  }

  creator_dropped-Tasked :
      (c : ℕ) (s : RequestDedup V E)
      → (s.callers c).stage ≡ Stage.creating
      → Tasked s
      → Tasked (close_dropped c s)
  unfolding close_dropped
  creator_dropped-Tasked c s at h = record {
    owed = λ k o. Closing-owed s c _ k (h.owed k (ground arith));
    awaited = λ k o. elim (Bool-cases ((s.callers c).entry == k)) [
      | inl q ↦ inr (At-self s.callers c _ was_abandoned k refl (ground arith))
      | inr q ↦ elim (h.awaited k o) [
        | inl a ↦ inl (At-elsewhere s.callers c _ awaits_task k q a)
        | inr a ↦ inr (At-other s.callers c _ was_abandoned k (ground arith) a)
      ]
    ];
    spawned = λ d o. ground (arith, h.spawned d);
  }

  removes-Tasked :
      (c : ℕ) (s : RequestDedup V E)
      → (s.callers c).stage ≡ Stage.dropping
      → Tasked s
      → Tasked (remove_key c Stage.abandoned s)
  unfolding remove_key
  removes-Tasked c s at h = record {
    owed = λ k o. Closing-other s c _ k (ground arith) (h.owed k o);
    awaited = λ k o. elim (h.awaited k o) [
      | inl a ↦ inl (At-other s.callers c _ awaits_task k (ground arith) a)
      | inr a ↦ inr (At-still s.callers c _ was_abandoned k refl refl a)
    ];
    spawned = λ d o. ground (arith, h.spawned d);
  }

  Tasked-Step :
      (from : Text → E) (s s' : RequestDedup V E) → Inv s → Tasked s → Step from s s' → Tasked s'
  Tasked-Step from s _ v h (Step.enters c key at) = enter_at-Tasked c key (s.entries key) s at v h
  Tasked-Step from s _ v h (Step.claims c at) = claim-Tasked c s _ refl at h
  Tasked-Step from s _ v h (Step.task_ends i j at) = record {
    owed = h.owed;
    awaited = λ k o. h.awaited k (ground arith);
    spawned = λ d o. ground (arith, h.spawned d);
  }
  Tasked-Step from s _ v h (Step.stores c j at e) = store_result-Tasked from c j s at e h
  Tasked-Step from s _ v h (Step.closes c r at) = close-Tasked c r s at h
  Tasked-Step from s _ v h (Step.leaves c r at) = leaves-Tasked c r s at h
  Tasked-Step from s _ v h (Step.wakes c at closed) = go-Tasked c _ s at refl h
  Tasked-Step from s _ v h (Step.creator_dropped c at) = creator_dropped-Tasked c s at h
  Tasked-Step from s _ v h (Step.removes c at) = removes-Tasked c s at h
  Tasked-Step from s _ v h (Step.waiter_dropped c at) = go-Tasked c Stage.cancelled s at refl h

  pub Tasked-Reachable : (from : Text → E) (s : RequestDedup V E) → Reachable from s → Tasked s
  unfolding new
  Tasked-Reachable from _ Reachable.start = record {
    owed = λ i o. absurd (ground arith);
    awaited = λ i o. absurd (ground arith);
    spawned = λ c o. ground arith;
  }
  Tasked-Reachable from s (Reachable.step s0 _ r st) =
      Tasked-Step from s0 s (Inv-Reachable from s0 r) (Tasked-Reachable from s0 r) st

-- In every state that the deduplicator reaches, a call that waits on an entry can wake, since the
-- semaphore is closed, or some call holds the guard of that entry and has yet to close it.
pub waiting_wakes :
    {V E : Type 0} (from : Text → E) (s : RequestDedup V E) (c : ℕ)
    → Reachable from s
    → (s.callers c).stage ≡ Stage.waiting
    → ((s.arena (s.callers c).entry).closed ≡ true) ⊎ At s.callers will_close (s.callers c).entry
waiting_wakes from s c r at =
    let v = Inv-Reachable from s r in
    (Tasked-Reachable from s r).owed (s.callers c).entry (ground (arith, v.marked c))

-- Where no creator was dropped, a task that runs has its creator.
creator_of :
    {V E : Type 0} (from : Text → E) (s : RequestDedup V E) (i : ℕ)
    → Reachable from s
    → ((d : ℕ) → was_abandoned (s.callers d).stage ≡ false)
    → s.tasks i ≡ Task.running
    → At s.callers awaits_task i
creator_of from s i r n t = elim ((Tasked-Reachable from s r).awaited i t) [
  | inl a ↦ a
  | inr (d, a) ↦ absurd (ground (arith, n d))
]

-- As long as no creator was dropped while it awaited its task: two tasks that run for calls with the
-- same key are the same task.
pub one_task :
    {V E : Type 0} (from : Text → E) (s : RequestDedup V E) (c c' : ℕ)
    → Reachable from s
    → ((d : ℕ) → was_abandoned (s.callers d).stage ≡ false)
    → holds_entry (s.callers c).stage ≡ true
    → holds_entry (s.callers c').stage ≡ true
    → (s.callers c).key ≡ (s.callers c').key
    → s.tasks (s.callers c).entry ≡ Task.running
    → s.tasks (s.callers c').entry ≡ Task.running
    → (s.callers c).entry ≡ (s.callers c').entry
one_task from s c c' r n o o' k t t' =
    let v = Inv-Reachable from s r in
    let w = Keyed-Reachable from s r in
    let (d, a) = creator_of from s (s.callers c).entry r n t in
    let (d', a') = creator_of from s (s.callers c').entry r n t' in
    ground (arith, v.mapped d, v.mapped d', v.bound d, v.bound d', w.shared d c, w.shared d' c')
