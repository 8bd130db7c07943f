-- ===== src/Scheduler/Overlap.antt =====
-- The scheduler never has two items of one check, and keeps to its limits.
use mathlib.Core.List.{map-append}
use xray_e2e_prober.Base.{
  ℕ, ◌≤◌, ◌<◌, String, ◌≡◌, refl, inl, inr, Bool, true, false, ◌&&◌, ◌||◌, none, some, List, [],
  ◌∷◌, arith, eq_iff, string_eq, length, length-append, Option-cases, if◌then◌else◌, leb, member,
  member-add, member-discard, Result,
}
use xray_e2e_prober.Scheduler.State.{
  ScheduledCheck, WorkItem, Work, Scheduler, FutureState, Phase, in_runner, in_report, works,
  ReportReason, scheduler, AdmissionError, refused, obsolete,
}
use xray_e2e_prober.Scheduler.Queueing
use xray_e2e_prober.Scheduler.Queueing.{
  put, run_once, enqueue_scheduled, report_error, report_conflict, settle,
  forget_removed_generation, dequeue, begin_work, take_item, worker_take, release, close_work,
  worker_return, worker_raise, worker_reported, worker_cancel, nth, without, replace, is_obsolete,
}
use xray_e2e_prober.Scheduler.Counting.{
  one, tally, tally-append, tally-without, length-without, works-replace, length-replace,
}

pub record Admission (queue : List WorkItem) (active : List Work) (queued running : List String)
    (workers concurrency max_queue : ℕ) : Type 0 where
  pub queued_once : (id : String) → tally id queue ≡ one (member id queued)
  pub running_once : (id : String) → tally id (works active) ≡ one (member id running)
  pub apart : (id : String) → (member id queued && member id running) ≡ false
  pub bounded : length queue ≤ max_queue
  pub staffed : length active ≤ workers
  pub hired : workers ≤ concurrency

pub record Inv (s : Scheduler) : Type 0 where
  pub at : Admission s.queue s.active s.queued s.running s.workers s.concurrency s.max_queue
  pub open at use *

pub if-ind {ℓ κ} :
    {A : Type ℓ} (P : A → Type κ) (b : Bool) (x y : A)
    → (b ≡ true → P x)
    → (b ≡ false → P y)
    → P (if b then x else y)
if-ind P true x y f g = f refl
if-ind P false x y f g = g refl

forget-Inv : (id : String) (s : Scheduler) → Inv s → Inv (forget_removed_generation id s)
unfolding forget_removed_generation
forget-Inv id s v = if-ind Inv _ _ _ (λ _. record { at = v.at }) (λ _. v)

report-Inv :
    (c : ScheduledCheck) (r : ReportReason) (s : Scheduler) → Inv s → Inv (report_error c r s)
unfolding report_error
report-Inv c r s v = if-ind Inv _ _ _ (λ _. record { at = v.at }) (λ _. v)

conflict-Inv : (c : ScheduledCheck) (s : Scheduler) → Inv s → Inv (report_conflict c s)
unfolding report_conflict
conflict-Inv c s v =
    if-ind Inv (Queueing.conflicts_with_same_generation s c) _ _ (λ _. report-Inv c scheduler s v)
      (λ _. v)

pub put-Inv :
    (item : WorkItem) (s : Scheduler)
    → (member item.check.check_id s.running || member item.check.check_id s.queued) ≡ false
    → leb s.max_queue (length s.queue) ≡ false
    → Inv s
    → Inv (put item s)
unfolding put tally
put-Inv item s free room v = record {
  at = record {
    queued_once = λ id. ground (
      arith,
      v.queued_once id,
      tally-append id s.queue (item ∷ []),
      member-add item.check.check_id id s.queued,
      eq_iff item.check.check_id id,
    );
    running_once = v.running_once;
    apart = λ id. ground (
      arith,
      v.apart id,
      member-add item.check.check_id id s.queued,
      eq_iff item.check.check_id id,
    );
    bounded = ground (arith, v.bounded, length-append s.queue (item ∷ []));
    staffed = v.staffed;
    hired = v.hired;
  };
}

pub run_once-Inv : (c : ScheduledCheck) (s : Scheduler) → Inv s → Inv (run_once c s).0
unfolding run_once
run_once-Inv c s v =
    if-ind P (Queueing.is_admitted s c.check_id) _ _ (λ _. conflict-Inv c s v)
      λ free.
        if-ind P (Queueing.is_full s) _ _ (λ _. report-Inv c scheduler s v)
          λ room. record {
            at = (put-Inv (record { check = c; future = some s.next_future }) s free room v).at;
          }
  where
    P : Scheduler × Result AdmissionError ℕ → Type 0
    P r = Inv r.0

pub enqueue-Inv : (c : ScheduledCheck) (s : Scheduler) → Inv s → Inv (enqueue_scheduled c s)
unfolding enqueue_scheduled
enqueue-Inv c s v =
    if-ind Inv (Queueing.is_admitted s c.check_id) _ _ (λ _. conflict-Inv c s v)
      λ free.
        if-ind Inv (Queueing.is_full s) (report_error c scheduler s) _
          (λ _. report-Inv c scheduler s v)
          λ room. put-Inv (record { check = c; future = none }) s free room v

pub settle-Inv : (item : WorkItem) (x : FutureState) (s : Scheduler) → Inv s → Inv (settle item x s)
unfolding settle
settle-Inv item x s v = record { at = v.at }

-- The first item leaves the queue: its id is in neither set for a moment.
dequeue-Inv :
    (item : WorkItem) (rest : List WorkItem) (s : Scheduler)
    → s.queue ≡ item ∷ rest
    → Inv s
    → Inv (dequeue item rest s)
unfolding dequeue tally
dequeue-Inv item rest s e v = record {
  at = record {
    queued_once = λ id. ground (
      arith,
      rw e at (v.queued_once id),
      rw e at (v.queued_once item.check.check_id),
      member-discard item.check.check_id id s.queued,
      eq_iff item.check.check_id id,
    );
    running_once = v.running_once;
    apart = λ id. ground (arith, v.apart id, member-discard item.check.check_id id s.queued);
    bounded = ground (arith, v.bounded);
    staffed = v.staffed;
    hired = v.hired;
  };
}

begin-Inv :
    (item : WorkItem) (s : Scheduler)
    → member item.check.check_id s.queued ≡ false
    → member item.check.check_id s.running ≡ false
    → length s.active < s.workers
    → Inv s
    → Inv (begin_work item s)
unfolding begin_work tally
begin-Inv item s absent idle free v = record {
  at = record {
    queued_once = v.queued_once;
    running_once = λ id. rw (map-append _ _ _) (
        ground (
          arith,
          v.running_once id,
          tally-append id (works s.active) (item ∷ []),
          member-add item.check.check_id id s.running,
          eq_iff item.check.check_id id,
        ));
    apart = λ id. ground (
      arith,
      v.apart id,
      member-add item.check.check_id id s.running,
      eq_iff item.check.check_id id,
    );
    bounded = v.bounded;
    staffed =
        ground (arith, length-append s.active (record { item = item; phase = in_runner } ∷ []));
    hired = v.hired;
  };
}

-- The invariant and what `dequeue` adds to it.
head_absent :
    (item : WorkItem) (rest : List WorkItem) (s : Scheduler)
    → s.queue ≡ item ∷ rest
    → Inv s
    → (member item.check.check_id (dequeue item rest s).queued ≡ false)
      × (member item.check.check_id (dequeue item rest s).running ≡ false)
unfolding dequeue tally
head_absent item rest s e v =
    let id = item.check.check_id in
    ground
      (arith, member-discard id id s.queued, eq_iff id id, rw e at (v.queued_once id), v.apart id)

free_after :
    (item : WorkItem) (rest : List WorkItem) (s : Scheduler)
    → length s.active < s.workers
    → length (dequeue item rest s).active < (dequeue item rest s).workers
unfolding dequeue
free_after item rest s free = free

pub take-Inv :
    (items : List WorkItem) (s : Scheduler)
    → s.queue ≡ items
    → length s.active < s.workers
    → Inv s
    → Inv (Queueing.take_first items s)
unfolding take_item
take-Inv [] s e free v = v
take-Inv (item ∷ rest) s e free v =
    let s' = dequeue item rest s in
    let v' : Inv s' = dequeue-Inv item rest s e v in
    let (absent, idle) = head_absent item rest s e v in
    if-ind Inv (is_obsolete s' item) _ _
      (λ _.
        forget-Inv item.check.check_id (settle item (refused obsolete) s')
          (settle-Inv item (refused obsolete) s' v'))
      (λ _. begin-Inv item s' absent idle (free_after item rest s free) v')

release-Inv :
    (n : ℕ) (w : Work) (s : Scheduler) → nth s.active n ≡ some w → Inv s → Inv (release n w.item s)
unfolding release
release-Inv n w s e v =
    let id = w.item.check.check_id in
    forget-Inv id _ (record {
      at = record {
        queued_once = v.queued_once;
        running_once = λ j. ground (
          arith,
          v.running_once j,
          v.running_once id,
          tally-without j s.active n w e,
          tally-without id s.active n w e,
          member-discard id j s.running,
          eq_iff id j,
        );
        apart = λ j. ground (arith, v.apart j, member-discard id j s.running);
        bounded = v.bounded;
        staffed = ground (arith, v.staffed, length-without s.active n w e);
        hired = v.hired;
      };
    })

pub close-Inv :
    (n : ℕ) (x : FutureState) (w : Work) (s : Scheduler)
    → nth s.active n ≡ some w
    → Inv s
    → Inv (close_work n x w.item s)
unfolding close_work settle
close-Inv n x w s e v = release-Inv n w _ e (settle-Inv w.item x s v)

-- What holds of each busy worker holds of the n-th, if there is one.
pub with_work-ind {ℓ} :
    (P : Scheduler → Type ℓ) (s : Scheduler) (n : ℕ) (f : Work → Scheduler)
    → P s
    → ((w : Work) → nth s.active n ≡ some w → P (f w))
    → P (Queueing.with_work s n f)
with_work-ind P s n f p q = elim (Option-cases (nth s.active n)) [
  | inl e ↦ rw (e, Queueing.with_work) p
  | inr (w, e) ↦ rw (e, Queueing.with_work) (q w e)
]

pub return-Inv : (n value : ℕ) (s : Scheduler) → Inv s → Inv (worker_return n value s)
unfolding worker_return
return-Inv n value s v = with_work-ind Inv s n _ v (λ w e. close-Inv n _ w s e v)

phase-Inv :
    (n : ℕ) (w u : Work) (t s : Scheduler)
    → nth s.active n ≡ some w
    → u.item ≡ w.item
    → t.active ≡ s.active
    → Inv t
    → Inv (record t { active = replace n u s.active })
phase-Inv n w u t s e same a v = record {
  at = record {
    queued_once = v.queued_once;
    running_once = λ id. rw (works-replace s.active n w u e same, ← a) (v.running_once id);
    apart = v.apart;
    bounded = v.bounded;
    staffed = rw (length-replace s.active n u, ← a) v.staffed;
    hired = v.hired;
  };
}

pub report-active :
    (c : ScheduledCheck) (r : ReportReason) (s : Scheduler) → (report_error c r s).active ≡ s.active
unfolding report_error
report-active c r s = ground arith

pub raise-Inv : (n exception : ℕ) (s : Scheduler) → Inv s → Inv (worker_raise n exception s)
unfolding worker_raise
raise-Inv n exception s v = with_work-ind Inv s n _ v λ w e.
    if-ind Inv (is_obsolete s w.item) _ _ (λ _. close-Inv n _ w s e v)
      (λ _.
        phase-Inv n w _ _ s e refl (report-active w.item.check _ s) (report-Inv w.item.check _ s v))

reported-Inv :
    (n : ℕ) (w : Work) (p : Phase) (s : Scheduler)
    → nth s.active n ≡ some w
    → Inv s
    → Inv (Queueing.reported n w p s)
reported-Inv n w in_runner s e v = v
reported-Inv n w (in_report x) s e v = close-Inv n _ w s e v

pub worker_reported-Inv : (n : ℕ) (s : Scheduler) → Inv s → Inv (worker_reported n s)
unfolding worker_reported
worker_reported-Inv n s v = with_work-ind Inv s n _ v (λ w e. reported-Inv n w w.phase s e v)
