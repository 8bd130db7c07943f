-- ===== src/Scheduler/Queueing.antt =====
-- src/xray_e2e_prober/scheduler.py: `run_once`, `_enqueue_scheduled`, `_worker`, `_is_obsolete`,
-- `_conflicts_with_same_generation`, `_forget_removed_generation` and `_report_error`. What a
-- coroutine does between two awaits is one function.
use xray_e2e_prober.Base.{
  ℕ, zero, suc, ◌-◌, String, Bool, true, false, not, ◌&&◌, ◌||◌, Option, none, some, List, [], ◌∷◌,
  ◌++◌, ◌==◌, nat_eq, string_eq, option_eq, if◌then◌else◌, leb, Dict, lookup, insert, erase,
  has_key, member, add, discard, Result, ok, err,
}
use xray_e2e_prober.Scheduler.State.{
  Generation, generation_eq, ScheduledCheck, WorkItem, AdmissionError, already_scheduled,
  queue_full, obsolete, FutureState, pending, cancelled, result, failed, refused, Phase, in_runner,
  in_report, Work, ReportReason, scheduler, internal, Scheduler, queue_size,
}

-- `_is_obsolete`: what is known of the id decides, then a one-shot item is valid, then the jobs.
abbrev job_differs : Option ScheduledCheck → Generation → Bool
job_differs none g = true
job_differs (some c) g = not (c.generation == g)

abbrev obsolete_by :
    Option (Option Generation) → Option ℕ → Option ScheduledCheck → Generation → Bool
obsolete_by (some known) future job g = not (known == some g)
obsolete_by none (some f) job g = false
obsolete_by none none job g = job_differs job g

unfoldable pub is_obsolete : Scheduler → WorkItem → Bool
is_obsolete s item =
    obsolete_by (lookup item.check.check_id s.known_generations) item.future
      (lookup item.check.check_id s.jobs) item.check.generation

unfoldable pub conflicts_with_same_generation : Scheduler → ScheduledCheck → Bool
conflicts_with_same_generation s check =
    lookup check.check_id s.queued_generations == some check.generation
    || lookup check.check_id s.running_generations == some check.generation

-- `self._known_generations.get(check_id) is None`, also where the key is missing.
abbrev pub known_none : Option (Option Generation) → Bool
known_none (some (some g)) = false
known_none _ = true

abbrev pub is_forgettable : String → Scheduler → Bool
is_forgettable check_id s =
    known_none (lookup check_id s.known_generations)
    && (not (has_key check_id s.jobs)
        && (not (member check_id s.queued) && not (member check_id s.running)))

unfoldable pub forget_removed_generation : String → Scheduler → Scheduler
forget_removed_generation check_id s =
    if is_forgettable check_id s
    then record s { known_generations = erase check_id s.known_generations }
    else s

-- `_report_error`: the callback's own failures are logged and dropped.
unfoldable pub report_error : ScheduledCheck → ReportReason → Scheduler → Scheduler
report_error check reason s =
    if s.has_on_error then record s { reports = (check, reason) ∷ s.reports } else s

-- `if item.future and not item.future.done(): item.future.set_…`
abbrev pub set_if_pending : (ℕ → FutureState) → ℕ → FutureState → ℕ → FutureState
set_if_pending futures f state g =
    if f == g then elim (futures g) [ pending ↦ state | done ↦ done ] else futures g

abbrev pub settle_in : (ℕ → FutureState) → Option ℕ → FutureState → ℕ → FutureState
settle_in futures none state = futures
settle_in futures (some f) state = set_if_pending futures f state

unfoldable pub settle : WorkItem → FutureState → Scheduler → Scheduler
settle item state s = record s { futures = settle_in s.futures item.future state }

-- Whether the check is queued or running already.
abbrev pub is_admitted : Scheduler → String → Bool
is_admitted s check_id = member check_id s.running || member check_id s.queued

-- `put_nowait` raises QueueFull exactly here.
abbrev pub is_full : Scheduler → Bool
is_full s = leb s.max_queue (queue_size s)

-- `put_nowait` and the two records of the id.
unfoldable pub put : WorkItem → Scheduler → Scheduler
put item s = record s {
  queue = s.queue ++ item ∷ [];
  queued = add item.check.check_id s.queued;
  queued_generations = insert item.check.check_id item.check.generation s.queued_generations;
}

unfoldable pub report_conflict : ScheduledCheck → Scheduler → Scheduler
report_conflict check s =
    if conflicts_with_same_generation s check then report_error check scheduler s else s

abbrev pub one_shot : ScheduledCheck → Scheduler → WorkItem
one_shot check s = record { check = check; future = some s.next_future }

-- `run_once` up to `await future`; the future that it awaits is returned.
unfoldable pub run_once : ScheduledCheck → Scheduler → Scheduler × Result AdmissionError ℕ
run_once check s =
    if is_admitted s check.check_id
    then (report_conflict check s, err already_scheduled)
    else if is_full s
    then (report_error check scheduler s, err queue_full)
    else (record (put (one_shot check s) s) { next_future = suc s.next_future }, ok s.next_future)

unfoldable pub enqueue_scheduled : ScheduledCheck → Scheduler → Scheduler
enqueue_scheduled check s =
    if is_admitted s check.check_id
    then report_conflict check s
    else if is_full s
    then report_error check scheduler s
    else put (record { check = check; future = none }) s

-- `_worker`, from `queue.get()` to the call of the runner.
unfoldable pub drop_generation : ScheduledCheck → Dict Generation → Dict Generation
drop_generation check m =
    if lookup check.check_id m == some check.generation then erase check.check_id m else m

unfoldable pub dequeue : WorkItem → List WorkItem → Scheduler → Scheduler
dequeue item rest s = record s {
  queue = rest;
  queued = discard item.check.check_id s.queued;
  queued_generations = drop_generation item.check s.queued_generations;
}

unfoldable pub begin_work : WorkItem → Scheduler → Scheduler
begin_work item s = record s {
  active = s.active ++ record { item = item; phase = in_runner } ∷ [];
  running = add item.check.check_id s.running;
  running_generations = insert item.check.check_id item.check.generation s.running_generations;
}

unfoldable pub take_item : WorkItem → Scheduler → Scheduler
take_item item s =
    if is_obsolete s item
    then forget_removed_generation item.check.check_id (settle item (refused obsolete) s)
    else begin_work item s

abbrev pub take_first : List WorkItem → Scheduler → Scheduler
take_first [] s = s
take_first (item ∷ rest) s = take_item item (dequeue item rest s)

unfoldable pub worker_take : Scheduler → Scheduler
worker_take s = take_first s.queue s

-- The n-th of a list, and the list without it.
abbrev pub nth {ℓ} : {A : Type ℓ} → List A → ℕ → Option A
nth [] n = none
nth (x ∷ xs) zero = some x
nth (x ∷ xs) (suc n) = nth xs n

abbrev pub without {ℓ} : {A : Type ℓ} → List A → ℕ → List A
without [] n = []
without (x ∷ xs) zero = xs
without (x ∷ xs) (suc n) = x ∷ without xs n

-- The `finally` block of `_worker`.
unfoldable pub release : ℕ → WorkItem → Scheduler → Scheduler
release n item s = forget_removed_generation item.check.check_id (record s {
  active = without s.active n;
  running = discard item.check.check_id s.running;
  running_generations = drop_generation item.check s.running_generations;
})

unfoldable pub close_work : ℕ → FutureState → WorkItem → Scheduler → Scheduler
close_work n state item s = release n item (settle item state s)

abbrev pub with_work : Scheduler → ℕ → (Work → Scheduler) → Scheduler
with_work s n f = elim (nth s.active n) [ none ↦ s | some w ↦ f w ]

-- The runner of the n-th busy worker returns.
unfoldable pub worker_return : ℕ → ℕ → Scheduler → Scheduler
worker_return n value s = with_work s n (λ w. close_work n (result value) w.item s)

abbrev pub replace : ℕ → Work → List Work → List Work
replace n v [] = []
replace zero v (x ∷ xs) = v ∷ xs
replace (suc n) v (x ∷ xs) = x ∷ replace n v xs

-- It raises: an obsolete item is closed at once, any other after its error has been reported.
unfoldable pub worker_raise : ℕ → ℕ → Scheduler → Scheduler
worker_raise n exception s = with_work s n (λ w.
    if is_obsolete s w.item
    then close_work n (failed exception) w.item s
    else record (report_error w.item.check internal s) {
      active = replace n (record w { phase = in_report exception }) s.active;
    })

abbrev pub reported : ℕ → Work → Phase → Scheduler → Scheduler
reported n w in_runner s = s
reported n w (in_report exception) s = close_work n (failed exception) w.item s

unfoldable pub worker_reported : ℕ → Scheduler → Scheduler
worker_reported n s = with_work s n (λ w. reported n w w.phase s)

-- The worker is cancelled while it awaits the runner or the callback, and ends.
unfoldable pub worker_cancel : ℕ → Scheduler → Scheduler
worker_cancel n s =
    with_work s n (λ w. record (close_work n cancelled w.item s) { workers = s.workers - 1 })
