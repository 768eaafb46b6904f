-- ===== src/Dedup/Answers.antt =====
-- What calls of the deduplicator return where a creator was dropped.
use osubot_rs.Prelude.{ℕ, subst, ◌==◌, ◌≡◌, refl, true, arith, inl, inr, ◌⊎◌, Bool-cases, Result}
use osubot_rs.Text.{Text}
use osubot_rs.Dedup.{
  Joined, Task, Stage, RequestDedup, put, new, go, close_dropped, remove_key, close, store_result,
  Step, Reachable, waited,
}
use osubot_rs.Dedup.Single.{Inv, Inv-Reachable}
use osubot_rs.Dedup.Places.{At, At-other, At-self, At-still, was_abandoned}
use osubot_rs.Dedup.Replies.{
  Delivers, abandoned_reply, Sound, Sound-Reachable, returned-Carried, waited-Delivers,
}
use osubot_rs.Dedup.Excuses.{Why-other, Excused, returned-keep, enter_at-Excused, claim-Excused}

returned-injective :
    {V E : Type 0} (stage : Stage V E) (r r' : Result V E)
    → stage ≡ Stage.returned r
    → stage ≡ Stage.returned r'
    → r ≡ r'
returned-injective stage r r' e e' = ground arith

module _ {V E : Type 0} where
  module _ (from : Text → E) where
    store_result-Excused :
        (c : ℕ) (j : Joined V E) (s : RequestDedup V E)
        → (s.callers c).stage ≡ Stage.creating
        → Inv s
        → Sound from s
        → Excused from s
        → Excused from (store_result from c j s)
    unfolding store_result
    store_result-Excused c j s at v w h = record {
      closed_why = λ k o. elim (Why-other s c _ k (ground arith) (h.closed_why k (ground arith))) [
        | inl q ↦ inl (ground arith)
        | inr a ↦ inr a
      ];
      returned_why =
          returned-keep from s s.tasks c _ (ground arith) (λ d r e p. p)
            (λ r e. absurd (ground arith)) h;
    }

    close-Excused :
        (c : ℕ) (r : Result V E) (s : RequestDedup V E)
        → (s.callers c).stage ≡ Stage.stored r
        → Inv s
        → Sound from s
        → Excused from s
        → Excused from (close c r s)
    unfolding close
    close-Excused c r s at v w h = record {
      closed_why = λ k o. elim (Bool-cases ((s.callers c).entry == k)) [
        | inl q ↦ inl (ground (arith, w.has c))
        | inr q ↦ rw (q) (Why-other s c _ k (ground arith) (h.closed_why k (ground arith)))
      ];
      returned_why =
          returned-keep from s s.tasks c _ (ground arith) (λ d r e p. p)
            (λ r e. absurd (ground arith)) h;
    }

    leaves-Excused :
        (c : ℕ) (r : Result V E) (s : RequestDedup V E)
        → (s.callers c).stage ≡ Stage.leaving r
        → Inv s
        → Sound from s
        → Excused from s
        → Excused from (remove_key c (Stage.returned r) s)
    unfolding remove_key
    leaves-Excused c r s at v w h = record {
      closed_why = λ k o. Why-other s c _ k (ground arith) (h.closed_why k o);
      returned_why =
          returned-keep from s s.tasks c _ (ground arith) (λ d r e p. p)
            (λ z e. inl (ground (arith, w.carried c))) h;
    }

    creator_dropped-Excused :
        (c : ℕ) (s : RequestDedup V E)
        → (s.callers c).stage ≡ Stage.creating
        → Inv s
        → Sound from s
        → Excused from s
        → Excused from (close_dropped c s)
    unfolding close_dropped
    creator_dropped-Excused c s at v w h = record {
      closed_why = λ k o. elim (Bool-cases ((s.callers c).entry == k)) [
        | inl q ↦ inr (At-self s.callers c _ was_abandoned k refl (ground arith))
        | inr q ↦ rw (q) (Why-other s c _ k (ground arith) (h.closed_why k (ground arith)))
      ];
      returned_why =
          returned-keep from s s.tasks c _ (ground arith) (λ d r e p. p)
            (λ r e. absurd (ground arith)) h;
    }

    removes-Excused :
        (c : ℕ) (s : RequestDedup V E)
        → (s.callers c).stage ≡ Stage.dropping
        → Excused from s
        → Excused from (remove_key c Stage.abandoned s)
    unfolding remove_key
    removes-Excused c s at h = record {
      closed_why = λ k o. elim (h.closed_why k o) [
        | inl e ↦ inl e
        | inr a ↦ inr (At-still s.callers c _ was_abandoned k refl refl a)
      ];
      returned_why = λ d r e. elim (Bool-cases (c == d)) [
        | inl q ↦ absurd (ground arith)
        | inr q ↦ elim (h.returned_why d r (ground arith)) [
          | inl p ↦ rw (q) (inl p)
          | inr a ↦
              rw (q) (inr (At-still s.callers c _ was_abandoned (s.callers d).entry refl refl a))
        ]
      ];
    }

    wakes-Excused :
        (c : ℕ) (s : RequestDedup V E)
        → (s.callers c).stage ≡ Stage.waiting
        → (s.arena (s.callers c).entry).closed ≡ true
        → Sound from s
        → Excused from s
        → Excused from (go c (Stage.returned (waited from (s.arena (s.callers c).entry).result)) s)
    wakes-Excused c s at o w h =
        let i = (s.callers c).entry in
        record {
          closed_why = λ k o. Why-other s c _ k (ground arith) (h.closed_why k o);
          returned_why =
              returned-keep from s s.tasks c _ (ground arith) (λ d r e p. p)
                (λ r e. elim (h.closed_why i o) [
                  | inl q ↦ inl (
                      subst (λ z. Delivers from (s.tasks i) z) (returned-injective _ _ r refl e)
                        (waited-Delivers from (s.tasks i) (s.arena i).result (w.kept i) q))
                  | inr a ↦ inr (At-other s.callers c _ was_abandoned i (ground arith) a)
                ])
                h;
        }

    waiter_dropped-Excused :
        (c : ℕ) (s : RequestDedup V E)
        → (s.callers c).stage ≡ Stage.waiting
        → Excused from s
        → Excused from (go c Stage.cancelled s)
    waiter_dropped-Excused c s at h = record {
      closed_why = λ k o. Why-other s c _ k (ground arith) (h.closed_why k o);
      returned_why =
          returned-keep from s s.tasks c _ (ground arith) (λ d r e p. p)
            (λ r e. absurd (ground arith)) h;
    }

    task_ends-Excused :
        (i : ℕ) (j : Joined V E) (s : RequestDedup V E)
        → s.tasks i ≡ Task.running
        → Excused from s
        → Excused from (record s { tasks = put i (Task.ended j) s.tasks })
    task_ends-Excused i j s at h = record {
      closed_why = h.closed_why;
      returned_why =
          λ d r e. elim (h.returned_why d r e) [ inl p ↦ inl (ground arith) | inr a ↦ inr a ];
    }

    Excused-Step :
        (s s' : RequestDedup V E)
        → Inv s
        → Sound from s
        → Excused from s
        → Step from s s'
        → Excused from s'
    Excused-Step s _ v w h (Step.enters c key at) =
        enter_at-Excused from c key (s.entries key) s at v h
    Excused-Step s _ v w h (Step.claims c at) = claim-Excused from c s _ refl at v h
    Excused-Step s _ v w h (Step.task_ends i j at) = task_ends-Excused i j s at h
    Excused-Step s _ v w h (Step.stores c j at e) = store_result-Excused c j s at v w h
    Excused-Step s _ v w h (Step.closes c r at) = close-Excused c r s at v w h
    Excused-Step s _ v w h (Step.leaves c r at) = leaves-Excused c r s at v w h
    Excused-Step s _ v w h (Step.wakes c at o) = wakes-Excused c s at o w h
    Excused-Step s _ v w h (Step.creator_dropped c at) = creator_dropped-Excused c s at v w h
    Excused-Step s _ v w h (Step.removes c at) = removes-Excused c s at h
    Excused-Step s _ v w h (Step.waiter_dropped c at) = waiter_dropped-Excused c s at h

    Excused-Reachable : (s : RequestDedup V E) → Reachable from s → Excused from s
    unfolding new
    Excused-Reachable _ Reachable.start = record {
      closed_why = λ i o. absurd (ground arith);
      returned_why = λ c r o. absurd (ground arith);
    }
    Excused-Reachable s (Reachable.step s0 _ r st) =
        Excused-Step s0 s (Inv-Reachable from s0 r) (Sound-Reachable from s0 r)
          (Excused-Reachable s0 r) st

-- In every state that the deduplicator reaches: what a call returned is what the task of its entry
-- gave (its result, or "creator panicked" where the task failed), or it is "creator abandoned" and
-- the creator of that entry was dropped while it awaited the task.
pub returned_reply :
    {V E : Type 0} (from : Text → E) (s : RequestDedup V E) (c : ℕ) (r : Result V E)
    → Reachable from s
    → (s.callers c).stage ≡ Stage.returned r
    → Delivers from (s.tasks (s.callers c).entry) r
      ⊎ ((r ≡ abandoned_reply from) × At s.callers was_abandoned (s.callers c).entry)
returned_reply from s c r reach at = elim (returned-Carried from s c r reach at) [
  | inl p ↦ inl p
  | inr e ↦ elim ((Excused-Reachable from s reach).returned_why c r at) [
    | inl p ↦ inl p
    | inr a ↦ inr (e, a)
  ]
]
