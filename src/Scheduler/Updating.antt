-- ===== src/Scheduler/Updating.antt =====
-- src/xray_e2e_prober/scheduler.py: `update` (its part before the replaced producers are awaited),
-- `_start_producer`, and the timing of `_produce`.
use xray_e2e_prober.Base.{
  ℕ, ◌+◌, ◌*◌, ◌/◌, ◌^◌, min, max, String, Bool, true, false, not, ◌&&◌, Option, none, some, List,
  [], ◌∷◌, ◌==◌, string_eq, if◌then◌else◌, ltb, Dict, lookup, insert, has_key, member,
}
use xray_e2e_prober.Scheduler.State.{
  Generation, generation_eq, ScheduledCheck, check_beq, Scheduler,
}
use xray_e2e_prober.Scheduler.Queueing.{enqueue_scheduled}

-- `{check.check_id: check for check in checks}`: the last of two checks with one id counts.
unfoldable pub by_id : Dict ScheduledCheck → List ScheduledCheck → Dict ScheduledCheck
by_id desired [] = desired
by_id desired (c ∷ cs) = by_id (insert c.check_id c desired) cs

-- What becomes known of a job that was there, by its entry in the desired checks.
abbrev pub changed : Option ScheduledCheck → ScheduledCheck → Bool
changed none previous = true
changed (some current) previous = not (current.generation == previous.generation)

abbrev pub generation_of : Option ScheduledCheck → Option Generation
generation_of none = none
generation_of (some current) = some current.generation

unfoldable pub mark_previous :
    Dict ScheduledCheck → Dict ScheduledCheck → Dict (Option Generation) → Dict (Option Generation)
mark_previous desired [] known = known
mark_previous desired ((id, previous) ∷ jobs) known = mark_previous desired jobs (
    if changed (lookup id desired) previous
    then insert id (generation_of (lookup id desired)) known
    else known)

unfoldable pub mark_desired :
    Dict ScheduledCheck → Dict (Option Generation) → Dict (Option Generation)
mark_desired [] known = known
mark_desired ((id, check) ∷ desired) known =
    mark_desired desired (insert check.check_id (some check.generation) known)

-- `self._jobs.get(check_id) != desired[check_id]`, for an id that is in `desired`.
abbrev pub same_job : Option ScheduledCheck → Option ScheduledCheck → Bool
same_job (some a) (some b) = check_beq a b
same_job _ _ = false

-- The producers that stay: the others are popped and cancelled.
unfoldable pub keep_producers :
    Dict ScheduledCheck → Dict ScheduledCheck → Dict ScheduledCheck → Dict ScheduledCheck
keep_producers jobs desired [] = []
keep_producers jobs desired ((id, task) ∷ producers) =
    let rest = keep_producers jobs desired producers in
    if same_job (lookup id jobs) (lookup id desired) then (id, task) ∷ rest else rest

-- A removed id stays known while an item of it is queued or running.
abbrev stale_entry : List String → List String → String → Option Generation → Bool
stale_entry queued running id (some g) = false
stale_entry queued running id none = not (member id queued) && not (member id running)

unfoldable pub prune_known :
    List String → List String → Dict (Option Generation) → Dict (Option Generation)
prune_known queued running [] = []
prune_known queued running ((id, g) ∷ known) =
    let rest = prune_known queued running known in
    if stale_entry queued running id g then rest else (id, g) ∷ rest

unfoldable pub start_producer : ScheduledCheck → Scheduler → Scheduler
start_producer check s = record s { producers = insert check.check_id check s.producers }

unfoldable pub start_missing : Dict ScheduledCheck → Scheduler → Scheduler
unfolding start_producer
start_missing [] s = s
start_missing ((id, check) ∷ desired) s =
    start_missing desired (if has_key check.check_id s.producers then s else start_producer check s)

unfoldable pub known_after : Dict ScheduledCheck → Scheduler → Dict (Option Generation)
known_after desired s =
    prune_known s.queued s.running
      (mark_desired desired (mark_previous desired s.jobs s.known_generations))

unfoldable pub adopt : Dict ScheduledCheck → Scheduler → Scheduler
adopt desired s =
    let s' = record s {
      known_generations = known_after desired s;
      producers = keep_producers s.jobs desired s.producers;
      jobs = desired;
    } in
    if s.started then start_missing desired s' else s'

unfoldable pub update : List ScheduledCheck → Scheduler → Scheduler
update checks s = adopt (by_id [] checks) s

-- One round of a producer: a job that has changed ends it, else its check is enqueued.
abbrev is_current : Option ScheduledCheck → ScheduledCheck → Bool
is_current none check = false
is_current (some job) check = check_beq job check

unfoldable pub producer_tick : ScheduledCheck → Scheduler → Scheduler
producer_tick check s =
    if is_current (lookup check.check_id s.jobs) check then enqueue_scheduled check s else s

-- `max(0.1, check.interval_seconds)`
unfoldable pub producer_interval : ScheduledCheck → ℕ
producer_interval check = max 100 check.interval_ms

-- `int.from_bytes(digest[:4], "big") / 2**32 * min(interval, 5.0)`, of the hash's first four bytes.
unfoldable pub initial_delay : ℕ → ScheduledCheck → ℕ
unfolding producer_interval
initial_delay digest check = digest * min (producer_interval check) 5000 / 2 ^ 32

-- The end of the loop's body: the time of the next round, skipping the rounds that were missed.
unfoldable pub next_round : ℕ → ℕ → ℕ → ℕ
next_round next_at now interval =
    let next = next_at + interval in if ltb (next + interval) now then now + interval else next
