-- ===== src/Scheduler/Waiters.antt =====
-- A caller of `run_once` is never forgotten: a future that is still pending belongs to an item in
-- the queue or under a worker.
use mathlib.Core.List.{map-append}
use xray_e2e_prober.Base.{
  ℕ, zero, suc, ◌<◌, String, ◌≢◌, ◌≡◌, refl, Bool, true, false, ◌||◌, Option, none, some, List, [],
  ◌∷◌, arith, ◌==◌, nat_eq, any, any-append, erase, Result,
}
use xray_e2e_prober.Scheduler.State.{
  ScheduledCheck, WorkItem, Work, Scheduler, FutureState, pending, cancelled, refused, obsolete,
  result, failed, Phase, in_runner, in_report, works, ReportReason, scheduler, AdmissionError,
}
use xray_e2e_prober.Scheduler.Queueing
use xray_e2e_prober.Scheduler.Queueing.{
  put, run_once, enqueue_scheduled, report_error, report_conflict, settle, settle_in,
  forget_removed_generation, dequeue, begin_work, take_item, worker_take, release, close_work,
  worker_return, worker_raise, worker_reported, worker_cancel, nth, without, replace, is_obsolete,
}
use xray_e2e_prober.Scheduler.Counting.{works-replace}
use xray_e2e_prober.Scheduler.Overlap.{if-ind, with_work-ind, report-active}

abbrev awaits : Option ℕ → ℕ → Bool
awaits none f = false
awaits (some g) f = g == f

-- Whether some item of the list carries the future.
abbrev pub owned : ℕ → List WorkItem → Bool
owned f items = any (λ item. awaits item.future f) items

-- A future below `next_future` that is pending has an owner.
pub record Holding (futures : ℕ → FutureState) (n : ℕ) (queue : List WorkItem) (active : List Work)
    : Type 0 where
  pub held :
      (f : ℕ) → f < n → futures f ≡ pending → (owned f queue || owned f (works active)) ≡ true

pub record Waiting (s : Scheduler) : Type 0 where
  pub at : Holding s.futures s.next_future s.queue s.active
  pub open at use *

-- Settling leaves pending only what was, and not the item's own future.
pub settle-pending :
    (futures : ℕ → FutureState) (own : Option ℕ) (x : FutureState) (f : ℕ)
    → x ≢ pending
    → settle_in futures own x f ≡ pending
    → (futures f ≡ pending) × (awaits own f ≡ false)
settle-pending futures none x f n e = (e, refl)
settle-pending futures (some g) x f n e = ground (arith, n)

owned-without :
    (f : ℕ) (ws : List Work) (n : ℕ) (w : Work)
    → nth ws n ≡ some w
    → owned f (works ws) ≡ (awaits w.item.future f || owned f (works (without ws n)))
owned-without f [] n w e = cc
owned-without f (x ∷ ws) zero w e = ground arith
owned-without f (x ∷ ws) (suc n) w e = ground (arith, owned-without f ws n w e)

forget-Waiting :
    (id : String) (s : Scheduler) → Waiting s → Waiting (forget_removed_generation id s)
unfolding forget_removed_generation
forget-Waiting id s v =
    if-ind Waiting (Queueing.is_forgettable id s)
      (record s { known_generations = erase id s.known_generations }) s (λ _. record { at = v.at })
      (λ _. v)

report-Waiting :
    (c : ScheduledCheck) (r : ReportReason) (s : Scheduler)
    → Waiting s
    → Waiting (report_error c r s)
unfolding report_error
report-Waiting c r s v =
    if-ind Waiting s.has_on_error (record s { reports = (c, r) ∷ s.reports }) s
      (λ _. record { at = v.at }) (λ _. v)

conflict-Waiting : (c : ScheduledCheck) (s : Scheduler) → Waiting s → Waiting (report_conflict c s)
unfolding report_conflict
conflict-Waiting c s v =
    if-ind Waiting (Queueing.conflicts_with_same_generation s c) _ _
      (λ _. report-Waiting c scheduler s v) (λ _. v)

put-Waiting : (item : WorkItem) (s : Scheduler) → Waiting s → Waiting (put item s)
unfolding put
put-Waiting item s v = record {
  at = record {
    held = λ f lt e.
        ground (arith, v.held f lt e, any-append (λ i. awaits i.future f) s.queue (item ∷ []));
  };
}

-- The new future is that of the new item.
issue-Waiting :
    (c : ScheduledCheck) (s : Scheduler)
    → Waiting s
    → Waiting (record (put (Queueing.one_shot c s) s) { next_future = suc s.next_future })
unfolding put
issue-Waiting c s v = record {
  at = record {
    held = λ f lt e.
        ground (
          arith,
          v.held f,
          any-append (λ i. awaits i.future f) s.queue (Queueing.one_shot c s ∷ []),
        );
  };
}

pub run_once-Waiting : (c : ScheduledCheck) (s : Scheduler) → Waiting s → Waiting (run_once c s).0
unfolding run_once
run_once-Waiting c s v =
    if-ind P (Queueing.is_admitted s c.check_id) _ _ (λ _. conflict-Waiting c s v)
      λ free.
        if-ind P (Queueing.is_full s) _ _ (λ _. report-Waiting c scheduler s v)
          λ room. issue-Waiting c s v
  where
    P : Scheduler × Result AdmissionError ℕ → Type 0
    P r = Waiting r.0

pub enqueue-Waiting :
    (c : ScheduledCheck) (s : Scheduler) → Waiting s → Waiting (enqueue_scheduled c s)
unfolding enqueue_scheduled
enqueue-Waiting c s v =
    if-ind Waiting (Queueing.is_admitted s c.check_id) _ _ (λ _. conflict-Waiting c s v)
      λ free.
        if-ind Waiting (Queueing.is_full s) (report_error c scheduler s) _
          (λ _. report-Waiting c scheduler s v)
          λ room. put-Waiting (record { check = c; future = none }) s v

-- The item leaves the queue, for good with its future settled, or for a worker.
refuse-Waiting :
    (item : WorkItem) (rest : List WorkItem) (s : Scheduler)
    → s.queue ≡ item ∷ rest
    → Waiting s
    → Waiting (settle item (refused obsolete) (dequeue item rest s))
unfolding settle dequeue
refuse-Waiting item rest s e v = record {
  at = record {
    held = λ f lt p.
        let (before, other) =
          settle-pending s.futures item.future (refused obsolete) f (λ x. cc) p in
        ground (arith, rw e at (v.held f lt before), other);
  };
}

accept-Waiting :
    (item : WorkItem) (rest : List WorkItem) (s : Scheduler)
    → s.queue ≡ item ∷ rest
    → Waiting s
    → Waiting (begin_work item (dequeue item rest s))
unfolding begin_work dequeue
accept-Waiting item rest s e v = record {
  at = record {
    held = λ f lt p. rw (map-append _ _ _) (
        ground (
          arith,
          rw e at (v.held f lt p),
          any-append (λ i. awaits i.future f) (works s.active) (item ∷ []),
        ));
  };
}

take-Waiting :
    (items : List WorkItem) (s : Scheduler)
    → s.queue ≡ items
    → Waiting s
    → Waiting (Queueing.take_first items s)
unfolding take_item
take-Waiting [] s e v = v
take-Waiting (item ∷ rest) s e v =
    if-ind Waiting (is_obsolete (dequeue item rest s) item) _ _
      (λ _.
        forget-Waiting item.check.check_id (settle item (refused obsolete) (dequeue item rest s))
          (refuse-Waiting item rest s e v))
      (λ _. accept-Waiting item rest s e v)

pub worker_take-Waiting : (s : Scheduler) → Waiting s → Waiting (worker_take s)
unfolding worker_take
worker_take-Waiting s v = take-Waiting s.queue s refl v

pub close-Waiting :
    (n : ℕ) (x : FutureState) (w : Work) (s : Scheduler)
    → x ≢ pending
    → nth s.active n ≡ some w
    → Waiting s
    → Waiting (close_work n x w.item s)
unfolding close_work settle release
close-Waiting n x w s settled e v = forget-Waiting w.item.check.check_id _ (record {
  at = record {
    held = λ f lt p.
        let (before, other) = settle-pending s.futures w.item.future x f settled p in
        ground (arith, v.held f lt before, other, owned-without f s.active n w e);
  };
})

phase-Waiting :
    (n : ℕ) (w u : Work) (t s : Scheduler)
    → nth s.active n ≡ some w
    → u.item ≡ w.item
    → t.active ≡ s.active
    → Waiting t
    → Waiting (record t { active = replace n u s.active })
phase-Waiting n w u t s e same a v = record {
  at = record { held = λ f lt p. rw (works-replace s.active n w u e same, ← a) (v.held f lt p) };
}

pub worker_return-Waiting :
    (n value : ℕ) (s : Scheduler) → Waiting s → Waiting (worker_return n value s)
unfolding worker_return
worker_return-Waiting n value s v =
    with_work-ind Waiting s n _ v (λ w e. close-Waiting n (result value) w s (λ x. cc) e v)

pub worker_raise-Waiting :
    (n exception : ℕ) (s : Scheduler) → Waiting s → Waiting (worker_raise n exception s)
unfolding worker_raise
worker_raise-Waiting n exception s v = with_work-ind Waiting s n _ v λ w e.
    if-ind Waiting (is_obsolete s w.item) _ _
      (λ _. close-Waiting n (failed exception) w s (λ x. cc) e v)
      (λ _.
        phase-Waiting n w _ _ s e refl (report-active w.item.check _ s)
          (report-Waiting w.item.check _ s v))

reported-Waiting :
    (n : ℕ) (w : Work) (p : Phase) (s : Scheduler)
    → nth s.active n ≡ some w
    → Waiting s
    → Waiting (Queueing.reported n w p s)
reported-Waiting n w in_runner s e v = v
reported-Waiting n w (in_report x) s e v = close-Waiting n (failed x) w s (λ y. cc) e v

pub worker_reported-Waiting : (n : ℕ) (s : Scheduler) → Waiting s → Waiting (worker_reported n s)
unfolding worker_reported
worker_reported-Waiting n s v =
    with_work-ind Waiting s n _ v (λ w e. reported-Waiting n w w.phase s e v)

pub worker_cancel-Waiting : (n : ℕ) (s : Scheduler) → Waiting s → Waiting (worker_cancel n s)
unfolding worker_cancel
worker_cancel-Waiting n s v =
    with_work-ind Waiting s n _ v
      λ w e. record { at = (close-Waiting n cancelled w s (λ x. cc) e v).at }
