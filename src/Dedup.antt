-- ===== src/Dedup.antt =====
-- osubot-core/src/dedup.rs: the request deduplicator, its entries, its callers and their steps.
-- A key is a number: the code uses nothing of it but its equality. `entries` is the map behind the
-- mutex, `arena` the entries that the `Arc`s point to, by address, and `tasks` the spawned tasks, by
-- the address of their entry.
pub mod Single
pub mod Keys
pub mod Places
pub mod Tasks
pub mod Replies
pub mod Excuses
pub mod Answers
use osubot_rs.Prelude.{
  ℕ, suc, ◌<◌, ◌==◌, if◌then◌else◌, ◌≡◌, refl, Bool, true, false, Option, none, some, Result,
}
use osubot_rs.Text.{Text, codes}

pub data StoredResult (V E : Type 0) : Type 0 where
  ok : V → StoredResult V E
  err : E → StoredResult V E
  panicked : StoredResult V E

pub record Entry (V E : Type 0) : Type 0 where
  pub result : Option (StoredResult V E)
  pub closed : Bool
  pub claimed : Bool

-- What awaiting the task's handle gives: `Ok(result)`, or `Err(join_err)`.
pub data Joined (V E : Type 0) : Type 0 where
  joined : Result V E → Joined V E
  join_err : Joined V E

pub data Task (V E : Type 0) : Type 0 where
  unspawned : Task V E
  running : Task V E
  ended : Joined V E → Task V E

-- Where a call of `run_or_wait` stands: it has its entry; it is the creator and awaits the task; it
-- has stored the result; it has closed the semaphore; it waits; it has returned; it is being dropped,
-- and it was dropped, while it awaited the task; it was dropped while it waited.
pub data Stage (V E : Type 0) : Type 0 where
  idle : Stage V E
  entered : Stage V E
  creating : Stage V E
  stored : Result V E → Stage V E
  leaving : Result V E → Stage V E
  waiting : Stage V E
  returned : Result V E → Stage V E
  dropping : Stage V E
  abandoned : Stage V E
  cancelled : Stage V E

-- A call and its local variables.
pub record Caller (V E : Type 0) : Type 0 where
  pub key : ℕ
  pub entry : ℕ
  pub stage : Stage V E

pub record RequestDedup (V E : Type 0) : Type 0 where
  pub entries : ℕ → Option ℕ
  pub arena : ℕ → Entry V E
  pub next : ℕ
  pub tasks : ℕ → Task V E
  pub callers : ℕ → Caller V E

abbrev pub put {ℓ} : {A : Type ℓ} → ℕ → A → (ℕ → A) → ℕ → A
put i x f j = if i == j then x else f j

abbrev pub new_entry : {V E : Type 0} → Entry V E
new_entry = record { result = none; closed = false; claimed = false }

module _ {V E : Type 0} where
  unfoldable pub new : RequestDedup V E
  new = record {
    entries = λ k. none;
    arena = λ i. new_entry;
    next = 0;
    tasks = λ i. Task.unspawned;
    callers = λ c. record { key = 0; entry = 0; stage = Stage.idle };
  }

  abbrev pub go : ℕ → Stage V E → RequestDedup V E → RequestDedup V E
  go c stage s = record s { callers = put c (record (s.callers c) { stage = stage }) s.callers }

  -- The block under the lock at the top of `run_or_wait`.
  unfoldable pub enter_at : ℕ → ℕ → Option ℕ → RequestDedup V E → RequestDedup V E
  enter_at c key (some i) s = record s {
    callers = put c (record { key = key; entry = i; stage = Stage.entered }) s.callers;
  }
  enter_at c key none s = record s {
    entries = put key (some s.next) s.entries;
    arena = put s.next new_entry s.arena;
    next = suc s.next;
    tasks = put s.next Task.unspawned s.tasks;
    callers = put c (record { key = key; entry = s.next; stage = Stage.entered }) s.callers;
  }

  abbrev pub enter : ℕ → ℕ → RequestDedup V E → RequestDedup V E
  enter c key s = enter_at c key (s.entries key) s

  -- `claimed.swap(true)`, and the spawn of the task by the caller that finds it false.
  unfoldable pub claim : ℕ → RequestDedup V E → RequestDedup V E
  claim c s =
      let i = (s.callers c).entry in
      if (s.arena i).claimed then go c Stage.waiting s else record (go c Stage.creating s) {
        arena = put i (record (s.arena i) { claimed = true }) s.arena;
        tasks = put i Task.running s.tasks;
      }

  abbrev pub stored_of : Joined V E → StoredResult V E
  stored_of (Joined.joined (Result.ok v)) = StoredResult.ok v
  stored_of (Joined.joined (Result.err e)) = StoredResult.err e
  stored_of Joined.join_err = StoredResult.panicked

  -- `drop` of the guard of a dropped call: the handle was taken out of it before, so nothing is
  -- aborted, and the semaphore is closed first.
  unfoldable pub close_dropped : ℕ → RequestDedup V E → RequestDedup V E
  close_dropped c s =
      let i = (s.callers c).entry in
      record (go c Stage.dropping s) {
        arena = put i (record (s.arena i) { closed = true }) s.arena;
      }

  -- The end of `drop`: the key is removed. Where the call returns, the semaphore is closed already.
  unfoldable pub remove_key : ℕ → Stage V E → RequestDedup V E → RequestDedup V E
  remove_key c stage s = record (go c stage s) { entries = put (s.callers c).key none s.entries }

  unfoldable pub close : ℕ → Result V E → RequestDedup V E → RequestDedup V E
  close c r s =
      let i = (s.callers c).entry in
      record (go c (Stage.leaving r) s) {
        arena = put i (record (s.arena i) { closed = true }) s.arena;
      }

  module _ (from : Text → E) where
    abbrev pub reply_of : Joined V E → Result V E
    reply_of (Joined.joined r) = r
    reply_of Joined.join_err = Result.err (from (codes "creator panicked"))

    unfoldable pub store_result : ℕ → Joined V E → RequestDedup V E → RequestDedup V E
    store_result c j s =
        let i = (s.callers c).entry in
        record (go c (Stage.stored (reply_of j)) s) {
          arena = put i (record (s.arena i) { result = some (stored_of j) }) s.arena;
        }

    -- What a waiter returns once the semaphore is closed.
    abbrev pub waited : Option (StoredResult V E) → Result V E
    waited (some (StoredResult.ok v)) = Result.ok v
    waited (some (StoredResult.err e)) = Result.err e
    waited (some StoredResult.panicked) = Result.err (from (codes "creator panicked"))
    waited none = Result.err (from (codes "creator abandoned"))

    -- One step of one caller, or the end of one task.
    pub data Step (s : RequestDedup V E) : RequestDedup V E → Type 0 where
      enters : (c key : ℕ) → (s.callers c).stage ≡ Stage.idle → Step s (enter c key s)
      claims : (c : ℕ) → (s.callers c).stage ≡ Stage.entered → Step s (claim c s)
      task_ends :
          (i : ℕ) (j : Joined V E)
          → s.tasks i ≡ Task.running
          → Step s (record s { tasks = put i (Task.ended j) s.tasks })
      stores :
          (c : ℕ) (j : Joined V E)
          → (s.callers c).stage ≡ Stage.creating
          → s.tasks (s.callers c).entry ≡ Task.ended j
          → Step s (store_result c j s)
      closes :
          (c : ℕ) (r : Result V E) → (s.callers c).stage ≡ Stage.stored r → Step s (close c r s)
      leaves :
          (c : ℕ) (r : Result V E)
          → (s.callers c).stage ≡ Stage.leaving r
          → Step s (remove_key c (Stage.returned r) s)
      wakes :
          (c : ℕ)
          → (s.callers c).stage ≡ Stage.waiting
          → (s.arena (s.callers c).entry).closed ≡ true
          → Step s (go c (Stage.returned (waited (s.arena (s.callers c).entry).result)) s)
      creator_dropped : (c : ℕ) → (s.callers c).stage ≡ Stage.creating → Step s (close_dropped c s)
      removes :
          (c : ℕ) → (s.callers c).stage ≡ Stage.dropping → Step s (remove_key c Stage.abandoned s)
      waiter_dropped :
          (c : ℕ) → (s.callers c).stage ≡ Stage.waiting → Step s (go c Stage.cancelled s)

    pub data Reachable : RequestDedup V E → Type 0 where
      start : Reachable new
      step : (s s' : RequestDedup V E) → Reachable s → Step s s' → Reachable s'
