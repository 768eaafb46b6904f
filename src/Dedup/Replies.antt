-- ===== src/Dedup/Replies.antt =====
-- What the calls of the deduplicator return.
use osubot_rs.Prelude.{
  ℕ, ◌==◌, ◌≡◌, refl, Bool, true, false, Option, none, some, arith, inl, inr, ◌⊎◌, is_some, ap,
  Bool-cases, Result,
}
use osubot_rs.Text.{Text, codes}
use osubot_rs.Dedup.{
  Joined, Task, Stage, RequestDedup, put, new, go, enter_at, claim, close_dropped, remove_key,
  close, store_result, Step, Reachable, stored_of, StoredResult, waited, reply_of,
}
use osubot_rs.Dedup.Single.{Inv, Inv-Reachable}

module _ {V E : Type 0} where
  -- The stages that hold a reply already.
  abbrev pub holds_result : Stage V E → Bool
  holds_result (Stage.stored r) = true
  holds_result (Stage.leaving r) = true
  holds_result _ = false

  module _ (from : Text → E) where
    -- The reply is what the task gave.
    abbrev pub Delivers : Task V E → Result V E → Type 0
    Delivers (Task.ended j) r = r ≡ reply_of from j
    Delivers _ r = ⊥

    abbrev pub abandoned_reply : Result V E
    abandoned_reply = Result.err (from (codes "creator abandoned"))

    abbrev pub Carried : Task V E → Stage V E → Type 0
    Carried t (Stage.stored r) = Delivers t r
    Carried t (Stage.leaving r) = Delivers t r
    Carried t (Stage.returned r) = Delivers t r ⊎ (r ≡ abandoned_reply)
    Carried t _ = Unit

    abbrev pub Kept : Task V E → Option (StoredResult V E) → Type 0
    Kept t none = Unit
    Kept (Task.ended j) (some x) = x ≡ stored_of j
    Kept _ (some x) = ⊥

    pub record Sound (s : RequestDedup V E) : Type 0 where
      pub carried : (c : ℕ) → Carried (s.tasks (s.callers c).entry) (s.callers c).stage
      pub kept : (i : ℕ) → Kept (s.tasks i) (s.arena i).result
      blank : (i : ℕ) → (s.arena i).claimed ≡ false → (s.arena i).result ≡ none
      pub has :
          (c : ℕ)
          → holds_result (s.callers c).stage ≡ true
          → is_some (s.arena (s.callers c).entry).result ≡ true

    pub waited-Delivers :
        (t : Task V E) (o : Option (StoredResult V E))
        → Kept t o
        → is_some o ≡ true
        → Delivers t (waited from o)
    waited-Delivers t none k e = absurd (ground arith)
    waited-Delivers (Task.ended (Joined.joined (Result.ok x))) (some y) k e =
        ap (λ z. waited from (some z)) k
    waited-Delivers (Task.ended (Joined.joined (Result.err x))) (some y) k e =
        ap (λ z. waited from (some z)) k
    waited-Delivers (Task.ended Joined.join_err) (some y) k e = ap (λ z. waited from (some z)) k
    waited-Delivers Task.unspawned (some y) k e = absurd k
    waited-Delivers Task.running (some y) k e = absurd k

    waited-Carried :
        (t : Task V E) (o : Option (StoredResult V E))
        → Kept t o
        → Carried t (Stage.returned (waited from o))
    waited-Carried t none k = inr refl
    waited-Carried t (some y) k = inl (waited-Delivers t (some y) k refl)

    enter_at-Sound :
        (c key : ℕ) (found : Option ℕ) (s : RequestDedup V E)
        → Inv s
        → Sound s
        → Sound (enter_at c key found s)
    unfolding enter_at
    enter_at-Sound c key (some i) s v h = record {
      carried = λ d. ground (arith, h.carried d);
      kept = h.kept;
      blank = h.blank;
      has = λ d o. ground (arith, h.has d);
    }
    enter_at-Sound c key none s v h = record {
      carried = λ d. ground (arith, h.carried d, v.bound d);
      kept = λ k. ground (arith, h.kept k);
      blank = λ k o. ground (arith, h.blank k);
      has = λ d o. ground (arith, h.has d, v.bound d);
    }

    claim-Sound :
        (c : ℕ) (s : RequestDedup V E) (b : Bool)
        → (s.arena (s.callers c).entry).claimed ≡ b
        → (s.callers c).stage ≡ Stage.entered
        → Inv s
        → Sound s
        → Sound (claim c s)
    unfolding claim
    claim-Sound c s true b at v h = rw (b) (record {
      carried = λ d. ground (arith, h.carried d);
      kept = h.kept;
      blank = h.blank;
      has = λ d o. ground (arith, h.has d);
    })
    claim-Sound c s false b at v h = rw (b) (record {
      carried = λ d. ground (arith, h.carried d, v.marked d);
      kept = λ k. ground (arith, h.kept k, h.blank k);
      blank = λ k o. ground (arith, h.blank k);
      has = λ d o. ground (arith, h.has d);
    })

    store_result-Sound :
        (c : ℕ) (j : Joined V E) (s : RequestDedup V E)
        → (s.callers c).stage ≡ Stage.creating
        → s.tasks (s.callers c).entry ≡ Task.ended j
        → Inv s
        → Sound s
        → Sound (store_result from c j s)
    unfolding store_result
    store_result-Sound c j s at e v h = record {
      carried =
          λ d. ground (arith, h.carried d, h.carried c, v.marked d, h.kept (s.callers d).entry);
      kept = λ k. ground (arith, h.kept k, h.blank k);
      blank = λ k o. ground (arith, h.blank k, v.marked c);
      has = λ d o. ground (arith, h.has d, h.has c);
    }

    close-Sound :
        (c : ℕ) (r : Result V E) (s : RequestDedup V E)
        → (s.callers c).stage ≡ Stage.stored r
        → Inv s
        → Sound s
        → Sound (close c r s)
    unfolding close
    close-Sound c r s at v h = record {
      carried =
          λ d. ground (arith, h.carried d, h.carried c, v.marked d, h.kept (s.callers d).entry);
      kept = λ k. ground (arith, h.kept k, h.blank k);
      blank = λ k o. ground (arith, h.blank k, v.marked c);
      has = λ d o. ground (arith, h.has d, h.has c);
    }

    leaves-Sound :
        (c : ℕ) (r : Result V E) (s : RequestDedup V E)
        → (s.callers c).stage ≡ Stage.leaving r
        → Inv s
        → Sound s
        → Sound (remove_key c (Stage.returned r) s)
    unfolding remove_key
    leaves-Sound c r s at v h = record {
      carried =
          λ d. ground (arith, h.carried d, h.carried c, v.marked d, h.kept (s.callers d).entry);
      kept = λ k. ground (arith, h.kept k, h.blank k);
      blank = λ k o. ground (arith, h.blank k, v.marked c);
      has = λ d o. ground (arith, h.has d, h.has c);
    }

    creator_dropped-Sound :
        (c : ℕ) (s : RequestDedup V E)
        → (s.callers c).stage ≡ Stage.creating
        → Inv s
        → Sound s
        → Sound (close_dropped c s)
    unfolding close_dropped
    creator_dropped-Sound c s at v h = record {
      carried =
          λ d. ground (arith, h.carried d, h.carried c, v.marked d, h.kept (s.callers d).entry);
      kept = λ k. ground (arith, h.kept k, h.blank k);
      blank = λ k o. ground (arith, h.blank k, v.marked c);
      has = λ d o. ground (arith, h.has d, h.has c);
    }

    removes-Sound :
        (c : ℕ) (s : RequestDedup V E)
        → (s.callers c).stage ≡ Stage.dropping
        → Inv s
        → Sound s
        → Sound (remove_key c Stage.abandoned s)
    unfolding remove_key
    removes-Sound c s at v h = record {
      carried =
          λ d. ground (arith, h.carried d, h.carried c, v.marked d, h.kept (s.callers d).entry);
      kept = λ k. ground (arith, h.kept k, h.blank k);
      blank = λ k o. ground (arith, h.blank k, v.marked c);
      has = λ d o. ground (arith, h.has d, h.has c);
    }

    wakes-Sound :
        (c : ℕ) (s : RequestDedup V E)
        → (s.callers c).stage ≡ Stage.waiting
        → Sound s
        → Sound (go c (Stage.returned (waited from (s.arena (s.callers c).entry).result)) s)
    wakes-Sound c s at h =
        let i = (s.callers c).entry in
        let w = waited-Carried (s.tasks i) (s.arena i).result (h.kept i) in
        record {
          carried =
              λ d. elim (Bool-cases (c == d)) [ inl q ↦ rw (q) w | inr q ↦ rw (q) (h.carried d) ];
          kept = h.kept;
          blank = h.blank;
          has = λ d o. ground (arith, h.has d);
        }

    waiter_dropped-Sound : (c : ℕ) (s : RequestDedup V E) → Sound s → Sound (go c Stage.cancelled s)
    waiter_dropped-Sound c s h = record {
      carried = λ d. ground (arith, h.carried d);
      kept = h.kept;
      blank = h.blank;
      has = λ d o. ground (arith, h.has d);
    }

    task_ends-Sound :
        (i : ℕ) (j : Joined V E) (s : RequestDedup V E)
        → s.tasks i ≡ Task.running
        → Sound s
        → Sound (record s { tasks = put i (Task.ended j) s.tasks })
    task_ends-Sound i j s at h = record {
      carried = λ d. ground (arith, h.carried d);
      kept = λ k. ground (arith, h.kept k);
      blank = h.blank;
      has = h.has;
    }

    Sound-Step : (s s' : RequestDedup V E) → Inv s → Sound s → Step from s s' → Sound s'
    Sound-Step s _ v h (Step.enters c key at) = enter_at-Sound c key (s.entries key) s v h
    Sound-Step s _ v h (Step.claims c at) = claim-Sound c s _ refl at v h
    Sound-Step s _ v h (Step.task_ends i j at) = task_ends-Sound i j s at h
    Sound-Step s _ v h (Step.stores c j at e) = store_result-Sound c j s at e v h
    Sound-Step s _ v h (Step.closes c r at) = close-Sound c r s at v h
    Sound-Step s _ v h (Step.leaves c r at) = leaves-Sound c r s at v h
    Sound-Step s _ v h (Step.wakes c at closed) = wakes-Sound c s at h
    Sound-Step s _ v h (Step.creator_dropped c at) = creator_dropped-Sound c s at v h
    Sound-Step s _ v h (Step.removes c at) = removes-Sound c s at v h
    Sound-Step s _ v h (Step.waiter_dropped c at) = waiter_dropped-Sound c s h

    pub Sound-Reachable : (s : RequestDedup V E) → Reachable from s → Sound s
    unfolding new
    Sound-Reachable _ Reachable.start = record {
      carried = λ c. tt;
      kept = λ i. tt;
      blank = λ i o. refl;
      has = λ c o. ground arith;
    }
    Sound-Reachable s (Reachable.step s0 _ r st) =
        Sound-Step s0 s (Inv-Reachable from s0 r) (Sound-Reachable s0 r) st

-- In every state that the deduplicator reaches, what a call returned is what the task of its entry
-- gave (its result, or "creator panicked" where the task failed), or "creator abandoned".
pub returned-Carried :
    {V E : Type 0} (from : Text → E) (s : RequestDedup V E) (c : ℕ) (r : Result V E)
    → Reachable from s
    → (s.callers c).stage ≡ Stage.returned r
    → Delivers from (s.tasks (s.callers c).entry) r ⊎ (r ≡ abandoned_reply from)
returned-Carried from s c r reach at =
    let h = Sound-Reachable from s reach in rw at at (h.carried c)
