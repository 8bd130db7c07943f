-- ===== src/Scheduler/Settled.antt =====
-- Every step of the scheduler keeps each pending future with its owner, and `stop` settles all.
use xray_e2e_prober.Base.{
  ℕ, ◌<◌, ◌≡◌, ◌≢◌, ◌⊎◌, refl, ◌∙◌, Bool, true, List, [], ◌∷◌, arith, Dict, has_key, ok,
}
use xray_e2e_prober.Scheduler.State.{
  ScheduledCheck, WorkItem, Work, Scheduler, FutureState, pending, cancelled, works, init,
}
use xray_e2e_prober.Scheduler.Queueing
use xray_e2e_prober.Scheduler.Queueing.{settle, set_if_pending, worker_cancel}
use xray_e2e_prober.Scheduler.Updating.{start_producer, start_missing, adopt, update, producer_tick}
use xray_e2e_prober.Scheduler.Lifecycle.{
  start_producers, start, cancel_workers, cancel_tasks, drain, clear, halt, stop, abandon, Step,
  starts, stops, updates, runs_once, ticks, takes, returns, raises, reports, cancels, abandons,
  Reach, here, next,
}
use xray_e2e_prober.Scheduler.Overlap.{if-ind, Inv}
use xray_e2e_prober.Scheduler.Safety.{Reach-Inv, cancel_workers-Inv, drain-counts, init-Inv}
use xray_e2e_prober.Scheduler.Waiters.{
  owned, Waiting, settle-pending, enqueue-Waiting, run_once-Waiting, worker_take-Waiting,
  worker_return-Waiting, worker_raise-Waiting, worker_reported-Waiting, worker_cancel-Waiting,
}

missing-Waiting :
    (d : Dict ScheduledCheck) (s : Scheduler) → Waiting s → Waiting (start_missing d s)
unfolding start_missing
missing-Waiting [] s v = v
missing-Waiting ((id, c) ∷ d) s v = missing-Waiting d _ (
    if-ind Waiting (has_key c.check_id s.producers) s (start_producer c s) (λ _. v)
      (λ _. record { at = v.at }))

update-Waiting :
    (checks : List ScheduledCheck) (s : Scheduler) → Waiting s → Waiting (update checks s)
unfolding update adopt
update-Waiting checks s v =
    if-ind Waiting s.started _ _ (λ _. missing-Waiting _ _ (record { at = v.at }))
      (λ _. record { at = v.at })

tick-Waiting : (c : ScheduledCheck) (s : Scheduler) → Waiting s → Waiting (producer_tick c s)
unfolding producer_tick
tick-Waiting c s v =
    if-ind Waiting _ (Queueing.enqueue_scheduled c s) s (λ _. enqueue-Waiting c s v) (λ _. v)

producers-Waiting :
    (d : Dict ScheduledCheck) (s : Scheduler) → Waiting s → Waiting (start_producers d s)
unfolding start_producers
producers-Waiting [] s v = v
producers-Waiting ((id, c) ∷ d) s v = producers-Waiting d _ (record { at = v.at })

start-Waiting : (s : Scheduler) → Waiting s → Waiting (start s)
unfolding start
start-Waiting s v =
    if-ind Waiting s.started s _ (λ _. v) λ _. producers-Waiting s.jobs _ (record { at = v.at })

cancel_workers-Waiting :
    (ws : List Work) (s : Scheduler) → Waiting s → Waiting (cancel_workers ws s)
unfolding cancel_workers
cancel_workers-Waiting [] s v = v
cancel_workers-Waiting (w ∷ ws) s v = cancel_workers-Waiting ws _ (worker_cancel-Waiting 0 s v)

drain-Waiting :
    (items : List WorkItem) (s : Scheduler) → s.queue ≡ items → Waiting s → Waiting (drain items s)
unfolding drain settle
drain-Waiting [] s e v = record { at = record { held = λ f lt p. rw e at (v.held f lt p) } }
drain-Waiting (item ∷ rest) s e v = drain-Waiting rest _ refl (record {
  at = record {
    held = λ f lt p.
        let (before, other) = settle-pending s.futures item.future cancelled f (λ x. cc) p in
        ground (arith, rw e at (v.held f lt before), other);
  };
})

halt-Waiting : (s : Scheduler) → Waiting s → Waiting (halt s)
unfolding halt clear
halt-Waiting s v = record { at = (drain-Waiting s.queue s refl v).at }

pub stop-Waiting : (s : Scheduler) → Waiting s → Waiting (stop s)
unfolding stop cancel_tasks
stop-Waiting s v =
    if-ind Waiting s.started _ s
      (λ _.
        halt-Waiting _
          (record { at = (cancel_workers-Waiting s.active _ (record { at = v.at })).at }))
      (λ _. v)

set-pending :
    (futures : ℕ → FutureState) (g f : ℕ)
    → set_if_pending futures g cancelled f ≡ pending
    → futures f ≡ pending
set-pending futures g f e = ground arith

abandon-Waiting : (f : ℕ) (s : Scheduler) → Waiting s → Waiting (abandon f s)
unfolding abandon
abandon-Waiting f s v = record {
  at = record { held = λ g lt e. v.held g lt (set-pending s.futures f g e) };
}

Step-Waiting : {s t : Scheduler} → Step s t → Waiting s → Waiting t
Step-Waiting {s} starts v = start-Waiting s v
Step-Waiting {s} stops v = stop-Waiting s v
Step-Waiting {s} (updates checks) v = update-Waiting checks s v
Step-Waiting {s} (runs_once c) v = run_once-Waiting c s v
Step-Waiting {s} (ticks c) v = tick-Waiting c s v
Step-Waiting {s} (takes free) v = worker_take-Waiting s v
Step-Waiting {s} (returns n x) v = worker_return-Waiting n x s v
Step-Waiting {s} (raises n x) v = worker_raise-Waiting n x s v
Step-Waiting {s} (reports n) v = worker_reported-Waiting n s v
Step-Waiting {s} (cancels n) v = worker_cancel-Waiting n s v
Step-Waiting {s} (abandons f) v = abandon-Waiting f s v

pub Reach-Waiting : {s t : Scheduler} → Reach s t → Waiting s → Waiting t
Reach-Waiting here v = v
Reach-Waiting (next r st) v = Step-Waiting st (Reach-Waiting r v)

init-Waiting :
    (concurrency max_queue : ℕ) (on_error : Bool) (s : Scheduler)
    → init concurrency max_queue on_error ≡ ok s
    → Waiting s
unfolding init
init-Waiting concurrency max_queue on_error s e = record {
  at = record { held = λ f lt p. absurd (ground (arith, e)) };
}

-- In every state that a new scheduler can reach, the future of every `run_once` call that is still
-- pending belongs to an item in the queue or under a worker.
pub Reach-waiters :
    (concurrency max_queue : ℕ) (on_error : Bool) (s t : Scheduler) (f : ℕ)
    → init concurrency max_queue on_error ≡ ok s
    → Reach s t
    → f < t.next_future
    → t.futures f ≡ pending
    → (owned f t.queue ≡ true) ⊎ (owned f (works t.active) ≡ true)
Reach-waiters concurrency max_queue on_error s t f e r lt p =
    let v = Reach-Waiting r (init-Waiting concurrency max_queue on_error s e) in
    ground (arith, v.held f lt p)

halt_empties : (s : Scheduler) → s.active ≡ [] → ((halt s).queue ≡ []) × ((halt s).active ≡ [])
unfolding halt clear
halt_empties s e = let (q, a, w, c) = drain-counts s.queue s in (q, a ∙ e)

stop_empties :
    (s : Scheduler) → s.started ≡ true → Inv s → ((stop s).queue ≡ []) × ((stop s).active ≡ [])
unfolding stop cancel_tasks
stop_empties s up v =
    rw up (halt_empties _ (cancel_workers-Inv s.active _ refl (record { at = v.at })).1)

-- `stop` of a started scheduler, in any state that a new one can reach, leaves no caller of
-- `run_once` waiting: every future that was handed out is settled.
pub stop_settles :
    (concurrency max_queue : ℕ) (on_error : Bool) (s t : Scheduler) (f : ℕ)
    → init concurrency max_queue on_error ≡ ok s
    → Reach s t
    → t.started ≡ true
    → f < (stop t).next_future
    → (stop t).futures f ≢ pending
stop_settles concurrency max_queue on_error s t f e r up lt p =
    let v = stop-Waiting t (Reach-Waiting r (init-Waiting concurrency max_queue on_error s e)) in
    let (q, a) = stop_empties t up (Reach-Inv r (init-Inv concurrency max_queue on_error s e)) in
    let left = v.held f lt p in cc (rw (q, a) at left)
