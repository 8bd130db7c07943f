-- ===== src/Scheduler/Lifecycle.antt =====
-- src/xray_e2e_prober/scheduler.py: `start`, `stop`, and the steps that the tasks of the event loop
-- can make, in any order. `stop` is one step: what else runs while it awaits the cancelled tasks is
-- not interleaved with it.
use xray_e2e_prober.Base.{ℕ, ◌<◌, true, false, List, [], ◌∷◌, if◌then◌else◌, length, Dict}
use xray_e2e_prober.Scheduler.State.{ScheduledCheck, WorkItem, cancelled, Work, Scheduler}
use xray_e2e_prober.Scheduler.Queueing.{
  run_once, settle, set_if_pending, worker_take, worker_return, worker_raise, worker_reported,
  worker_cancel,
}
use xray_e2e_prober.Scheduler.Updating.{start_producer, update, producer_tick}

unfoldable pub start_producers : Dict ScheduledCheck → Scheduler → Scheduler
unfolding start_producer
start_producers [] s = s
start_producers ((id, check) ∷ jobs) s = start_producers jobs (start_producer check s)

unfoldable pub start : Scheduler → Scheduler
start s =
    if s.started
    then s
    else start_producers s.jobs
        (record s { started = true; stopping = false; workers = s.concurrency })

-- Each busy worker is cancelled: its entry is the first one that is left.
unfoldable pub cancel_workers : List Work → Scheduler → Scheduler
cancel_workers [] s = s
cancel_workers (w ∷ ws) s = cancel_workers ws (worker_cancel 0 s)

-- `while not self._queue.empty()`: the callers of the items that are left are cancelled.
unfoldable pub drain : List WorkItem → Scheduler → Scheduler
drain [] s = record s { queue = [] }
drain (item ∷ rest) s = drain rest (settle item cancelled (record s { queue = rest }))

unfoldable pub clear : Scheduler → Scheduler
clear s = record s {
  queued = [];
  running = [];
  queued_generations = [];
  running_generations = [];
  known_generations = [];
  started = false;
}

unfoldable pub cancel_tasks : Scheduler → Scheduler
cancel_tasks s = record (cancel_workers s.active (record s { stopping = true })) {
  producers = [];
  workers = 0;
}

unfoldable pub halt : Scheduler → Scheduler
halt s = clear (drain s.queue s)

unfoldable pub stop : Scheduler → Scheduler
stop s = if s.started then halt (cancel_tasks s) else s

-- A caller of `run_once` gives up: its future is cancelled, and its item stays where it is.
unfoldable pub abandon : ℕ → Scheduler → Scheduler
abandon f s = record s { futures = set_if_pending s.futures f cancelled }

pub data Step (s : Scheduler) : Scheduler → Type 0 where
  starts : Step s (start s)
  stops : Step s (stop s)
  updates : (checks : List ScheduledCheck) → Step s (update checks s)
  runs_once : (check : ScheduledCheck) → Step s (run_once check s).0
  ticks : (check : ScheduledCheck) → Step s (producer_tick check s)
  takes : length s.active < s.workers → Step s (worker_take s)
  returns : (n value : ℕ) → Step s (worker_return n value s)
  raises : (n exception : ℕ) → Step s (worker_raise n exception s)
  reports : (n : ℕ) → Step s (worker_reported n s)
  cancels : (n : ℕ) → Step s (worker_cancel n s)
  abandons : (f : ℕ) → Step s (abandon f s)

pub data Reach (s : Scheduler) : Scheduler → Type 0 where
  here : Reach s s
  next : {t u : Scheduler} → Reach s t → Step t u → Reach s u
