-- ===== src/Dedup/Keys.antt =====
-- The keys of the calls of the deduplicator, and of its map.
use osubot_rs.Prelude.{ℕ, ◌≡◌, Bool, false, refl, true, Option, none, some, arith, Result}
use osubot_rs.Text.{Text}
use osubot_rs.Dedup.{
  Joined, Stage, RequestDedup, new, go, enter_at, claim, close_dropped, remove_key, close,
  store_result, Step, Reachable, reply_of,
}
use osubot_rs.Dedup.Single.{Inv, Inv-Reachable, holds_entry}

module _ {V E : Type 0} where
  pub record Keyed (s : RequestDedup V E) : Type 0 where
    pub shared :
        (c c' : ℕ)
        → holds_entry (s.callers c).stage ≡ true
        → holds_entry (s.callers c').stage ≡ true
        → (s.callers c).entry ≡ (s.callers c').entry
        → (s.callers c).key ≡ (s.callers c').key
    listed :
        (c k : ℕ)
        → holds_entry (s.callers c).stage ≡ true
        → s.entries k ≡ some (s.callers c).entry
        → (s.callers c).key ≡ k
    injective : (k k' i : ℕ) → s.entries k ≡ some i → s.entries k' ≡ some i → k ≡ k'

  enter_at-Keyed :
      (c key : ℕ) (found : Option ℕ) (s : RequestDedup V E)
      → s.entries key ≡ found
      → Inv s
      → Keyed s
      → Keyed (enter_at c key found s)
  unfolding enter_at
  enter_at-Keyed c key (some i) s at v h = record {
    shared = λ d d' o o' e. ground (arith, h.shared d d', h.listed d key, h.listed d' key);
    listed = λ d k o e. ground (arith, h.listed d k, h.injective k key i);
    injective = h.injective;
  }
  enter_at-Keyed c key none s at v h = record {
    shared = λ d d' o o' e. ground (arith, h.shared d d', v.bound d, v.bound d');
    listed = λ d k o e. ground (arith, h.listed d k, v.bound d, v.mapped_below k);
    injective =
        λ k k' i e e'. ground (arith, h.injective k k' i, v.mapped_below k, v.mapped_below k');
  }

  -- The map stays as it is, and one call moves on.
  go-Keyed :
      (c : ℕ) (stage : Stage V E) (s : RequestDedup V E)
      → holds_entry (s.callers c).stage ≡ true
      → Keyed s
      → Keyed (go c stage s)
  go-Keyed c stage s at h = record {
    shared = λ d d' o o' e. ground (arith, h.shared d d');
    listed = λ d k o e. ground (arith, h.listed d k);
    injective = h.injective;
  }

  claim-Keyed :
      (c : ℕ) (s : RequestDedup V E) (b : Bool)
      → (s.arena (s.callers c).entry).claimed ≡ b
      → holds_entry (s.callers c).stage ≡ true
      → Keyed s
      → Keyed (claim c s)
  unfolding claim
  claim-Keyed c s true b at h = rw (b) (go-Keyed c Stage.waiting s at h)
  claim-Keyed c s false b at h =
      let g = go-Keyed c Stage.creating s at h in
      rw (b) (record { shared = g.shared; listed = g.listed; injective = g.injective })

  remove_key-Keyed :
      (c : ℕ) (stage : Stage V E) (s : RequestDedup V E)
      → holds_entry (s.callers c).stage ≡ true
      → Keyed s
      → Keyed (remove_key c stage s)
  unfolding remove_key
  remove_key-Keyed c stage s at h = record {
    shared = λ d d' o o' e. ground (arith, h.shared d d');
    listed = λ d k o e. ground (arith, h.listed d k);
    injective = λ k k' i e e'. ground (arith, h.injective k k' i);
  }

  close-Keyed :
      (c : ℕ) (r : Result V E) (s : RequestDedup V E)
      → holds_entry (s.callers c).stage ≡ true
      → Keyed s
      → Keyed (close c r s)
  unfolding close
  close-Keyed c r s at h =
      let g = go-Keyed c (Stage.leaving r) s at h in
      record { shared = g.shared; listed = g.listed; injective = g.injective }

  close_dropped-Keyed :
      (c : ℕ) (s : RequestDedup V E)
      → holds_entry (s.callers c).stage ≡ true
      → Keyed s
      → Keyed (close_dropped c s)
  unfolding close_dropped
  close_dropped-Keyed c s at h =
      let g = go-Keyed c Stage.dropping s at h in
      record { shared = g.shared; listed = g.listed; injective = g.injective }

  store_result-Keyed :
      (from : Text → E) (c : ℕ) (j : Joined V E) (s : RequestDedup V E)
      → holds_entry (s.callers c).stage ≡ true
      → Keyed s
      → Keyed (store_result from c j s)
  unfolding store_result
  store_result-Keyed from c j s at h =
      let g = go-Keyed c (Stage.stored (reply_of from j)) s at h in
      record { shared = g.shared; listed = g.listed; injective = g.injective }

  Keyed-Step :
      (from : Text → E) (s s' : RequestDedup V E) → Inv s → Keyed s → Step from s s' → Keyed s'
  Keyed-Step from s _ v h (Step.enters c key at) = enter_at-Keyed c key (s.entries key) s refl v h
  Keyed-Step from s _ v h (Step.claims c at) = claim-Keyed c s _ refl (ground arith) h
  Keyed-Step from s _ v h (Step.task_ends i j at) = record {
    shared = h.shared;
    listed = h.listed;
    injective = h.injective;
  }
  Keyed-Step from s _ v h (Step.stores c j at e) = store_result-Keyed from c j s (ground arith) h
  Keyed-Step from s _ v h (Step.closes c r at) = close-Keyed c r s (ground arith) h
  Keyed-Step from s _ v h (Step.leaves c r at) =
      remove_key-Keyed c (Stage.returned r) s (ground arith) h
  Keyed-Step from s _ v h (Step.wakes c at closed) = go-Keyed c _ s (ground arith) h
  Keyed-Step from s _ v h (Step.creator_dropped c at) = close_dropped-Keyed c s (ground arith) h
  Keyed-Step from s _ v h (Step.removes c at) =
      remove_key-Keyed c Stage.abandoned s (ground arith) h
  Keyed-Step from s _ v h (Step.waiter_dropped c at) = go-Keyed c Stage.cancelled s (ground arith) h

  pub Keyed-Reachable : (from : Text → E) (s : RequestDedup V E) → Reachable from s → Keyed s
  unfolding new
  Keyed-Reachable from _ Reachable.start = record {
    shared = λ c c' o o' e. ground arith;
    listed = λ c k o e. ground arith;
    injective = λ k k' i e e'. ground arith;
  }
  Keyed-Reachable from s (Reachable.step s0 _ r st) =
      Keyed-Step from s0 s (Inv-Reachable from s0 r) (Keyed-Reachable from s0 r) st
