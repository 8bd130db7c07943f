-- ===== src/Scheduler/Safety.antt =====
-- Every step of the scheduler keeps its invariant: the steps of the tasks, `update`, `start` and
-- `stop`, and what follows for every reachable state.
use xray_e2e_prober.Base.{
  ℕ, ◌+◌, ◌-◌, ◌≤◌, ◌<◌, String, ◌≡◌, refl, ◌∙◌, Bool, some, List, [], ◌∷◌, arith, length, Dict,
  has_key, ok,
}
use xray_e2e_prober.Scheduler.State.{
  ScheduledCheck, WorkItem, Work, Scheduler, FutureState, cancelled, works, init,
}
use xray_e2e_prober.Scheduler.Queueing
use xray_e2e_prober.Scheduler.Queueing.{
  forget_removed_generation, release, settle, close_work, worker_take, worker_cancel, nth, without,
  run_once,
}
use xray_e2e_prober.Scheduler.Updating.{start_producer, start_missing, adopt, update, producer_tick}
use xray_e2e_prober.Scheduler.Lifecycle.{
  start_producers, start, cancel_workers, cancel_tasks, drain, clear, halt, stop, abandon, Step,
  starts, stops, updates, runs_once, ticks, takes, returns, raises, reports, cancels, abandons,
  Reach, here, next,
}
use xray_e2e_prober.Scheduler.Counting.{tally, length-without}
use xray_e2e_prober.Scheduler.Overlap.{
  Inv, if-ind, with_work-ind, enqueue-Inv, run_once-Inv, close-Inv, return-Inv, raise-Inv,
  worker_reported-Inv, take-Inv,
}

close-counts :
    (n : ℕ) (x : FutureState) (item : WorkItem) (s : Scheduler)
    → ((close_work n x item s).active ≡ without s.active n)
      × ((close_work n x item s).workers ≡ s.workers)
unfolding close_work release settle forget_removed_generation
close-counts n x item s = ground arith

cancel_work-Inv :
    (n : ℕ) (w : Work) (s : Scheduler)
    → nth s.active n ≡ some w
    → Inv s
    → Inv (record (close_work n cancelled w.item s) { workers = s.workers - 1 })
cancel_work-Inv n w s e v =
    let v' : Inv (close_work n cancelled w.item s) = close-Inv n cancelled w s e v in
    let (a, k) = close-counts n cancelled w.item s in
    record {
      at = record {
        queued_once = v'.queued_once;
        running_once = v'.running_once;
        apart = v'.apart;
        bounded = v'.bounded;
        staffed = rw a (omega (arith, v.staffed, length-without s.active n w e));
        hired = omega (arith, rw k at (v'.hired));
      };
    }

cancel-Inv : (n : ℕ) (s : Scheduler) → Inv s → Inv (worker_cancel n s)
unfolding worker_cancel
cancel-Inv n s v = with_work-ind Inv s n _ v (λ w e. cancel_work-Inv n w s e v)

missing-Inv : (d : Dict ScheduledCheck) (s : Scheduler) → Inv s → Inv (start_missing d s)
unfolding start_missing
missing-Inv [] s v = v
missing-Inv ((id, c) ∷ d) s v = missing-Inv d _ (
    if-ind Inv (has_key c.check_id s.producers) s (start_producer c s) (λ _. v)
      (λ _. record { at = v.at }))

update-Inv : (checks : List ScheduledCheck) (s : Scheduler) → Inv s → Inv (update checks s)
unfolding update adopt
update-Inv checks s v =
    if-ind Inv s.started _ _ (λ _. missing-Inv _ _ (record { at = v.at }))
      (λ _. record { at = v.at })

tick-Inv : (c : ScheduledCheck) (s : Scheduler) → Inv s → Inv (producer_tick c s)
unfolding producer_tick
tick-Inv c s v = if-ind Inv _ (Queueing.enqueue_scheduled c s) s (λ _. enqueue-Inv c s v) (λ _. v)

producers-Inv : (d : Dict ScheduledCheck) (s : Scheduler) → Inv s → Inv (start_producers d s)
unfolding start_producers
producers-Inv [] s v = v
producers-Inv ((id, c) ∷ d) s v = producers-Inv d _ (record { at = v.at })

start-Inv : (s : Scheduler) → Inv s → Inv (start s)
unfolding start
start-Inv s v =
    if-ind Inv s.started s _ (λ _. v)
      λ _. producers-Inv s.jobs _ (record {
        at = record {
          queued_once = v.queued_once;
          running_once = v.running_once;
          apart = v.apart;
          bounded = v.bounded;
          staffed = omega arith;
          hired = omega arith;
        };
      })

cancel_first :
    (w : Work) (ws : List Work) (s : Scheduler)
    → s.active ≡ w ∷ ws
    → (worker_cancel 0 s).active ≡ ws
unfolding worker_cancel
cancel_first w ws s e =
    rw (e, Queueing.with_work) (rw ((close-counts 0 cancelled w.item s).0, e) refl)

-- `stop` cancels every busy worker, so that none is left.
pub cancel_workers-Inv :
    (ws : List Work) (s : Scheduler)
    → s.active ≡ ws
    → Inv s
    → Inv (cancel_workers ws s) × ((cancel_workers ws s).active ≡ [])
unfolding cancel_workers
cancel_workers-Inv [] s e v = (v, e)
cancel_workers-Inv (w ∷ ws) s e v =
    cancel_workers-Inv ws (worker_cancel 0 s) (cancel_first w ws s e) (cancel-Inv 0 s v)

-- Draining empties the queue and touches no other count.
pub drain-counts :
    (items : List WorkItem) (s : Scheduler)
    → ((drain items s).queue ≡ [])
      × ((drain items s).active ≡ s.active)
      × ((drain items s).workers ≡ s.workers)
      × ((drain items s).concurrency ≡ s.concurrency)
unfolding drain settle
drain-counts [] s = (refl, refl, refl, refl)
drain-counts (x ∷ items) s = drain-counts items _

halt-Inv : (s : Scheduler) → s.active ≡ [] → s.workers ≡ 0 → Inv (halt s)
unfolding halt clear tally
halt-Inv s e idle =
    let (q, a, w, c) = drain-counts s.queue s in
    let none_left = a ∙ e in
    record {
      at = record {
        queued_once = λ id. rw q refl;
        running_once = λ id. rw none_left refl;
        apart = λ id. refl;
        bounded = rw q (omega arith);
        staffed = rw none_left (omega arith);
        hired = rw (w, idle) (omega arith);
      };
    }

stop-Inv : (s : Scheduler) → Inv s → Inv (stop s)
unfolding stop cancel_tasks
stop-Inv s v =
    if-ind Inv s.started _ s
      (λ _. halt-Inv _ (cancel_workers-Inv s.active _ refl (record { at = v.at })).1 refl) (λ _. v)

abandon-Inv : (f : ℕ) (s : Scheduler) → Inv s → Inv (abandon f s)
unfolding abandon
abandon-Inv f s v = record { at = v.at }

take_worker-Inv : (s : Scheduler) → length s.active < s.workers → Inv s → Inv (worker_take s)
unfolding worker_take
take_worker-Inv s free v = take-Inv s.queue s refl free v

pub Step-Inv : {s t : Scheduler} → Step s t → Inv s → Inv t
Step-Inv {s} starts v = start-Inv s v
Step-Inv {s} stops v = stop-Inv s v
Step-Inv {s} (updates checks) v = update-Inv checks s v
Step-Inv {s} (runs_once c) v = run_once-Inv c s v
Step-Inv {s} (ticks c) v = tick-Inv c s v
Step-Inv {s} (takes free) v = take_worker-Inv s free v
Step-Inv {s} (returns n x) v = return-Inv n x s v
Step-Inv {s} (raises n x) v = raise-Inv n x s v
Step-Inv {s} (reports n) v = worker_reported-Inv n s v
Step-Inv {s} (cancels n) v = cancel-Inv n s v
Step-Inv {s} (abandons f) v = abandon-Inv f s v

pub Reach-Inv : {s t : Scheduler} → Reach s t → Inv s → Inv t
Reach-Inv here v = v
Reach-Inv (next r st) v = Step-Inv st (Reach-Inv r v)

pub init-Inv :
    (concurrency max_queue : ℕ) (on_error : Bool) (s : Scheduler)
    → init concurrency max_queue on_error ≡ ok s
    → Inv s
unfolding init tally
init-Inv concurrency max_queue on_error s e = record {
  at = record {
    queued_once = λ id. ground arith;
    running_once = λ id. ground arith;
    apart = λ id. ground arith;
    bounded = ground arith;
    staffed = ground arith;
    hired = ground arith;
  };
}

-- In every state that a new scheduler can reach, by any order of the tasks' steps, updates, starts
-- and stops, no check has two items in the queue and under the workers together.
pub Reach-no_overlap :
    (concurrency max_queue : ℕ) (on_error : Bool) (s t : Scheduler) (id : String)
    → init concurrency max_queue on_error ≡ ok s
    → Reach s t
    → tally id t.queue + tally id (works t.active) ≤ 1
Reach-no_overlap concurrency max_queue on_error s t id e r =
    let v = Reach-Inv r (init-Inv concurrency max_queue on_error s e) in
    ground (arith, v.queued_once id, v.running_once id, v.apart id)

-- In every such state the queue holds at most `max_queue` items and at most `concurrency` runners
-- are under way.
pub Reach-limits :
    (concurrency max_queue : ℕ) (on_error : Bool) (s t : Scheduler)
    → init concurrency max_queue on_error ≡ ok s
    → Reach s t
    → (length t.queue ≤ t.max_queue) × (length t.active ≤ t.concurrency)
Reach-limits concurrency max_queue on_error s t e r =
    let v = Reach-Inv r (init-Inv concurrency max_queue on_error s e) in
    (v.bounded, omega (arith, v.staffed, v.hired))
