-- ===== src/Dedup/Single.antt =====
-- Who creates an entry, in the states that the deduplicator reaches.
use osubot_rs.Prelude.{ℕ, ◌<◌, ◌≡◌, refl, Bool, true, false, Option, none, some, arith, Result}
use osubot_rs.Text.{Text}
use osubot_rs.Dedup.{
  Joined, Stage, RequestDedup, new, go, enter_at, claim, close_dropped, remove_key, close,
  store_result, Step, Reachable,
}

abbrev pub Below : ℕ → Option ℕ → Type 0
Below n none = Unit
Below n (some i) = i < n

module _ {V E : Type 0} where
  -- The caller has cloned an `Arc` of its entry.
  abbrev pub holds_entry : Stage V E → Bool
  holds_entry Stage.idle = false
  holds_entry _ = true

  -- The caller has the guard of its entry.
  abbrev pub owner : Stage V E → Bool
  owner Stage.creating = true
  owner (Stage.stored r) = true
  owner (Stage.leaving r) = true
  owner Stage.dropping = true
  owner _ = false

  -- The caller has swapped `claimed`.
  abbrev pub past_claim : Stage V E → Bool
  past_claim Stage.idle = false
  past_claim Stage.entered = false
  past_claim _ = true

  abbrev pub entered : Stage V E → Bool
  entered Stage.entered = true
  entered _ = false

  pub record Inv (s : RequestDedup V E) : Type 0 where
    pub bound : (c : ℕ) → holds_entry (s.callers c).stage ≡ true → (s.callers c).entry < s.next
    pub mapped_below : (k : ℕ) → Below s.next (s.entries k)
    pub marked :
        (c : ℕ)
        → past_claim (s.callers c).stage ≡ true
        → (s.arena (s.callers c).entry).claimed ≡ true
    pub single :
        (c c' : ℕ)
        → owner (s.callers c).stage ≡ true
        → owner (s.callers c').stage ≡ true
        → (s.callers c).entry ≡ (s.callers c').entry
        → c ≡ c'
    pub mapped :
        (c : ℕ)
        → owner (s.callers c).stage ≡ true
        → s.entries (s.callers c).key ≡ some (s.callers c).entry
    pub unclaimed :
        (c : ℕ)
        → entered (s.callers c).stage ≡ true
        → (s.arena (s.callers c).entry).claimed ≡ false
        → s.entries (s.callers c).key ≡ some (s.callers c).entry

  enter_at-Inv :
      (c key : ℕ) (found : Option ℕ) (s : RequestDedup V E)
      → s.entries key ≡ found
      → Inv s
      → Inv (enter_at c key found s)
  unfolding enter_at
  enter_at-Inv c key (some i) s at h = record {
    bound = λ d o. ground (arith, h.bound d, h.mapped_below key);
    mapped_below = λ k. ground (arith, h.mapped_below k);
    marked = λ d o. ground (arith, h.marked d);
    single = λ d d' o o' e. ground (arith, h.single d d');
    mapped = λ d o. ground (arith, h.mapped d);
    unclaimed = λ d o u. ground (arith, h.unclaimed d, h.bound d);
  }
  enter_at-Inv c key none s at h = record {
    bound = λ d o. ground (arith, h.bound d);
    mapped_below = λ k. ground (arith, h.mapped_below k);
    marked = λ d o. ground (arith, h.marked d, h.bound d);
    single = λ d d' o o' e. ground (arith, h.single d d');
    mapped = λ d o. ground (arith, h.mapped d);
    unclaimed = λ d o u. ground (arith, h.unclaimed d, h.bound d);
  }

  claim-Inv :
      (c : ℕ) (s : RequestDedup V E) (b : Bool)
      → (s.arena (s.callers c).entry).claimed ≡ b
      → (s.callers c).stage ≡ Stage.entered
      → Inv s
      → Inv (claim c s)
  unfolding claim
  claim-Inv c s true b at h = rw (b) (record {
    bound = λ d o. ground (arith, h.bound c, h.bound d);
    mapped_below = h.mapped_below;
    marked = λ d o. ground (arith, h.marked d);
    single = λ d d' o o' e. ground (arith, h.single d d');
    mapped = λ d o. ground (arith, h.mapped d);
    unclaimed = λ d o u. ground (arith, h.unclaimed d);
  })
  claim-Inv c s false b at h = rw (b) (record {
    bound = λ d o. ground (arith, h.bound c, h.bound d);
    mapped_below = h.mapped_below;
    marked = λ d o. ground (arith, h.marked d);
    single = λ d d' o o' e. ground (arith, h.single d d', h.marked d, h.marked d');
    mapped = λ d o. ground (arith, h.mapped d, h.unclaimed c);
    unclaimed = λ d o u. ground (arith, h.unclaimed d);
  })

  remove_key-Inv :
      (c : ℕ) (stage : Stage V E) (s : RequestDedup V E)
      → owner (s.callers c).stage ≡ true
      → owner stage ≡ false
      → entered stage ≡ false
      → Inv s
      → Inv (remove_key c stage s)
  unfolding remove_key
  remove_key-Inv c stage s at n e h = record {
    bound = λ d o. ground (arith, h.bound c, h.bound d);
    mapped_below = λ k. ground (arith, h.mapped_below k);
    marked = λ d o. ground (arith, h.marked d, h.marked c);
    single = λ d d' o o' e. ground (arith, h.single d d', h.single c d, h.single c d');
    mapped = λ d o. ground (arith, h.mapped d, h.mapped c, h.single c d, h.marked d, h.marked c);
    unclaimed = λ d o u. ground (arith, h.unclaimed d, h.mapped c, h.marked c);
  }

  close-Inv :
      (c : ℕ) (r : Result V E) (s : RequestDedup V E)
      → (s.callers c).stage ≡ Stage.stored r
      → Inv s
      → Inv (close c r s)
  unfolding close
  close-Inv c r s at h = record {
    bound = λ d o. ground (arith, h.bound c, h.bound d);
    mapped_below = λ k. ground (arith, h.mapped_below k);
    marked = λ d o. ground (arith, h.marked d, h.marked c);
    single = λ d d' o o' e. ground (arith, h.single d d', h.single c d, h.single c d');
    mapped = λ d o. ground (arith, h.mapped d, h.mapped c, h.single c d, h.marked d, h.marked c);
    unclaimed = λ d o u. ground (arith, h.unclaimed d, h.mapped c, h.marked c);
  }

  close_dropped-Inv :
      (c : ℕ) (s : RequestDedup V E)
      → (s.callers c).stage ≡ Stage.creating
      → Inv s
      → Inv (close_dropped c s)
  unfolding close_dropped
  close_dropped-Inv c s at h = record {
    bound = λ d o. ground (arith, h.bound c, h.bound d);
    mapped_below = λ k. ground (arith, h.mapped_below k);
    marked = λ d o. ground (arith, h.marked d, h.marked c);
    single = λ d d' o o' e. ground (arith, h.single d d', h.single c d, h.single c d');
    mapped = λ d o. ground (arith, h.mapped d, h.mapped c, h.single c d, h.marked d, h.marked c);
    unclaimed = λ d o u. ground (arith, h.unclaimed d, h.mapped c, h.marked c);
  }

  store_result-Inv :
      (from : Text → E) (c : ℕ) (j : Joined V E) (s : RequestDedup V E)
      → (s.callers c).stage ≡ Stage.creating
      → Inv s
      → Inv (store_result from c j s)
  unfolding store_result
  store_result-Inv from c j s at h = record {
    bound = λ d o. ground (arith, h.bound c, h.bound d);
    mapped_below = λ k. ground (arith, h.mapped_below k);
    marked = λ d o. ground (arith, h.marked d, h.marked c);
    single = λ d d' o o' e. ground (arith, h.single d d', h.single c d, h.single c d');
    mapped = λ d o. ground (arith, h.mapped d, h.mapped c, h.single c d, h.marked d, h.marked c);
    unclaimed = λ d o u. ground (arith, h.unclaimed d, h.mapped c, h.marked c);
  }

  go-Inv :
      (c : ℕ) (stage : Stage V E) (s : RequestDedup V E)
      → (s.callers c).stage ≡ Stage.waiting
      → owner stage ≡ false
      → entered stage ≡ false
      → Inv s
      → Inv (go c stage s)
  go-Inv c stage s at n e h = record {
    bound = λ d o. ground (arith, h.bound c, h.bound d);
    mapped_below = λ k. ground (arith, h.mapped_below k);
    marked = λ d o. ground (arith, h.marked d, h.marked c);
    single = λ d d' o o' e. ground (arith, h.single d d', h.single c d, h.single c d');
    mapped = λ d o. ground (arith, h.mapped d, h.mapped c, h.single c d, h.marked d, h.marked c);
    unclaimed = λ d o u. ground (arith, h.unclaimed d, h.mapped c, h.marked c);
  }

  Inv-Step : (from : Text → E) (s s' : RequestDedup V E) → Inv s → Step from s s' → Inv s'
  Inv-Step from s _ h (Step.enters c key at) = enter_at-Inv c key (s.entries key) s refl h
  Inv-Step from s _ h (Step.claims c at) = claim-Inv c s _ refl at h
  Inv-Step from s _ h (Step.task_ends i j at) = record {
    bound = h.bound;
    mapped_below = h.mapped_below;
    marked = h.marked;
    single = h.single;
    mapped = h.mapped;
    unclaimed = h.unclaimed;
  }
  Inv-Step from s _ h (Step.stores c j at e) = store_result-Inv from c j s at h
  Inv-Step from s _ h (Step.closes c r at) = close-Inv c r s at h
  Inv-Step from s _ h (Step.leaves c r at) =
      remove_key-Inv c (Stage.returned r) s (ground arith) refl refl h
  Inv-Step from s _ h (Step.wakes c at closed) = go-Inv c _ s at refl refl h
  Inv-Step from s _ h (Step.creator_dropped c at) = close_dropped-Inv c s at h
  Inv-Step from s _ h (Step.removes c at) =
      remove_key-Inv c Stage.abandoned s (ground arith) refl refl h
  Inv-Step from s _ h (Step.waiter_dropped c at) = go-Inv c Stage.cancelled s at refl refl h

  pub Inv-Reachable : (from : Text → E) (s : RequestDedup V E) → Reachable from s → Inv s
  unfolding new
  Inv-Reachable from _ Reachable.start = record {
    bound = λ c o. ground arith;
    mapped_below = λ k. tt;
    marked = λ c o. ground arith;
    single = λ c c' o o' e. ground arith;
    mapped = λ c o. ground arith;
    unclaimed = λ c o u. ground arith;
  }
  Inv-Reachable from s (Reachable.step s0 _ r st) = Inv-Step from s0 s (Inv-Reachable from s0 r) st

-- In every state that the deduplicator reaches: two calls that hold the guard of an entry for the
-- same key are the same call, and the map still has that entry under that key.
pub one_creator :
    {V E : Type 0} (from : Text → E) (s : RequestDedup V E) (c c' : ℕ)
    → Reachable from s
    → owner (s.callers c).stage ≡ true
    → owner (s.callers c').stage ≡ true
    → (s.callers c).key ≡ (s.callers c').key
    → (c ≡ c') × (s.entries (s.callers c).key ≡ some (s.callers c).entry)
one_creator from s c c' r o o' k =
    let h = Inv-Reachable from s r in ground (arith, h.single c c', h.mapped c, h.mapped c')
