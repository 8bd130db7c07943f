-- ===== src/Scheduler/Tests.antt =====
-- Concrete runs of the scheduler.
use xray_e2e_prober.Base.{
  ℕ, ◌+◌, ◌<◌, ◌≤◌, String, ◌≡◌, ◌≢◌, refl, ◌⊎◌, true, false, not, ◌||◌, some, none, List, [], ◌∷◌,
  length, lookup, has_key, member, insert, erase, add, discard, string_eq, ◌==◌, ok, arith,
}
use xray_e2e_prober.Scheduler.State.{
  generation_eq, number, ScheduledCheck, WorkItem, pending, Scheduler, init, works, check_beq,
  generation_beq,
}
use xray_e2e_prober.Scheduler.Queueing.{
  is_obsolete, run_once, worker_take, enqueue_scheduled, put, take_item, dequeue, begin_work,
  drop_generation, conflicts_with_same_generation, forget_removed_generation, report_conflict,
  report_error, settle, worker_cancel, close_work, release,
}
use xray_e2e_prober.Scheduler.Updating.{
  by_id, update, producer_tick, next_round, start_producer, start_missing, adopt, known_after,
  mark_previous, mark_desired, prune_known, keep_producers,
}
use xray_e2e_prober.Scheduler.Lifecycle.{
  start, stop, start_producers, cancel_tasks, cancel_workers, halt, drain, clear, Reach, here, next,
  starts, updates, runs_once, ticks, takes,
}
use xray_e2e_prober.Scheduler.Counting.{tally}
use xray_e2e_prober.Scheduler.Waiters.{owned}
use xray_e2e_prober.Scheduler.Safety.{Reach-no_overlap, Reach-limits}
use xray_e2e_prober.Scheduler.Obsolete.{update_replaces, update_removes}
use xray_e2e_prober.Scheduler.Settled.{Reach-waiters, stop_settles}

abbrev new : Scheduler
new = record {
  concurrency = 1;
  max_queue = 2;
  has_on_error = true;
  jobs = [];
  producers = [];
  workers = 0;
  queue = [];
  active = [];
  queued = [];
  running = [];
  queued_generations = [];
  running_generations = [];
  known_generations = [];
  started = false;
  stopping = false;
  futures = λ f. pending;
  next_future = 0;
  reports = [];
}

new-init : init 1 2 true ≡ ok new
unfolding init
new-init = refl

abbrev check : String → ℕ → ScheduledCheck
check id generation = record { check_id = id; generation = number generation; interval_ms = 60000 }

abbrev jobs : List ScheduledCheck
jobs = check "a" 1 ∷ check "b" 1 ∷ []

abbrev ready : Scheduler
ready = update jobs (start new)

-- One check is queued by a caller, another by its producer.
abbrev queued_both : Scheduler
queued_both = producer_tick (check "b" 1) (run_once (check "a" 1) ready).0

to_queued_both : Reach new queued_both
to_queued_both =
    next (next (next (next here starts) (updates jobs)) (runs_once (check "a" 1)))
      (ticks (check "b" 1))

-- The worker has taken the first item.
abbrev busy : Scheduler
busy = worker_take queued_both

-- What the first theorems ask of these states.
abbrev BusyFacts : Type 0
BusyFacts =
    (length queued_both.active < queued_both.workers)
    × (0 < busy.next_future)
    × (busy.futures 0 ≡ pending)
    × (busy.started ≡ true)
    × (has_key "b" busy.jobs ≡ true)
    × ((member "b" busy.queued || member "b" busy.running) ≡ true)

busy_is : BusyFacts
unfolding start start_producers start_producer start_missing adopt known_after mark_previous
    mark_desired prune_known keep_producers by_id update producer_tick enqueue_scheduled run_once
    put worker_take take_item dequeue begin_work is_obsolete drop_generation
    conflicts_with_same_generation forget_removed_generation report_conflict report_error settle
    check_beq generation_beq lookup insert erase has_key add discard
busy_is = (omega arith, omega arith, refl, refl, refl, refl)

to_busy : Reach new busy
to_busy = next to_queued_both (takes busy_is.0)

Reach-no_overlap_example : tally "a" busy.queue + tally "a" (works busy.active) ≤ 1
Reach-no_overlap_example = Reach-no_overlap 1 2 true new busy "a" new-init to_busy

Reach-limits_example :
    (length busy.queue ≤ busy.max_queue) × (length busy.active ≤ busy.concurrency)
Reach-limits_example = Reach-limits 1 2 true new busy new-init to_busy

Reach-waiters_example : (owned 0 busy.queue ≡ true) ⊎ (owned 0 (works busy.active) ≡ true)
Reach-waiters_example = Reach-waiters 1 2 true new busy 0 new-init to_busy busy_is.1 busy_is.2

one_future_left : 0 < (stop busy).next_future
unfolding start start_producers start_producer start_missing adopt known_after mark_previous
    mark_desired prune_known keep_producers by_id update producer_tick enqueue_scheduled run_once
    put worker_take take_item dequeue begin_work is_obsolete drop_generation
    conflicts_with_same_generation forget_removed_generation report_conflict report_error settle
    check_beq generation_beq lookup insert erase has_key add discard stop cancel_tasks
    cancel_workers halt drain clear worker_cancel close_work release
one_future_left = omega arith

stop_settles_example : (stop busy).futures 0 ≢ pending
stop_settles_example = stop_settles 1 2 true new busy 0 new-init to_busy busy_is.3 one_future_left

abbrev replaced : List ScheduledCheck
replaced = check "a" 2 ∷ []

abbrev item : String → WorkItem
item id = record { check = check id 1; future = some 0 }

desired_a : lookup "a" (by_id [] replaced) ≡ some (check "a" 2)
unfolding by_id lookup insert
desired_a = refl

update_replaces_example : is_obsolete (update replaced busy) (item "a") ≡ not (number 2 == number 1)
update_replaces_example = update_replaces replaced busy (item "a") (check "a" 2) desired_a

gone_b : lookup "b" (by_id [] replaced) ≡ none
unfolding by_id lookup insert
gone_b = refl

update_removes_example : is_obsolete (update replaced busy) (item "b") ≡ true
update_removes_example = update_removes replaced busy (item "b") gone_b busy_is.4 busy_is.5

-- A round that is missed by more than an interval moves the grid.
next_round_late : next_round 100 1000 60 ≡ 1060
unfolding next_round
next_round_late = refl
