-- ===== src/Scheduler/State.antt =====
-- src/xray_e2e_prober/scheduler.py, lines 16 to 66: the checks, the work items and the state.
-- A future is a number; its state is in `futures`. A worker that awaits its runner, or the error
-- callback after the runner has failed, is an entry of `active`. Intervals are milliseconds.
use mathlib.Core.List.{map}
use xray_e2e_prober.Base.{
  ℕ, String, ◌≡◌, ap, ◌↔◌, Bool, true, false, ◌&&◌, ◌||◌, Option, List, [], arith, Eq, nat_eq,
  string_eq, ◌==◌, eq_iff, if◌then◌else◌, ltb, length, Dict, Result, ok, err,
}

-- `str | int`
pub data Generation : Type 0 where
  text : String → Generation
  number : ℕ → Generation

unfoldable pub generation_beq : Generation → Generation → Bool
generation_beq (text a) (text b) = a == b
generation_beq (number a) (number b) = a == b
generation_beq _ _ = false

pub generation_beq_iff : (a b : Generation) → (generation_beq a b ≡ true) ↔ (a ≡ b)
unfolding generation_beq
generation_beq_iff (text a) (text b) = (λ h. ap text ((eq_iff a b).0 h), λ h. (eq_iff a b).1 (cc))
generation_beq_iff (text a) (number b) = (λ h. cc, λ h. cc)
generation_beq_iff (number a) (text b) = (λ h. cc, λ h. cc)
generation_beq_iff (number a) (number b) = ground arith

instance abbrev pub generation_eq : Eq Generation
generation_eq = record { beq = generation_beq; beq_iff = generation_beq_iff }

pub record ScheduledCheck : Type 0 where
  pub check_id : String
  pub generation : Generation
  pub interval_ms : ℕ

-- The payload does not take part in the comparison.
unfoldable pub check_beq : ScheduledCheck → ScheduledCheck → Bool
check_beq a b =
    a.check_id == b.check_id && (a.generation == b.generation && a.interval_ms == b.interval_ms)

pub record WorkItem : Type 0 where
  pub check : ScheduledCheck
  pub future : Option ℕ

pub data AdmissionError : Type 0 where
  already_scheduled queue_full obsolete : AdmissionError

-- A runner's result and its exception are values that the scheduler only passes on.
pub data FutureState : Type 0 where
  pending cancelled : FutureState
  result : ℕ → FutureState
  failed : ℕ → FutureState
  refused : AdmissionError → FutureState

pub data Phase : Type 0 where
  in_runner : Phase
  in_report : (exception : ℕ) → Phase

pub record Work : Type 0 where
  pub item : WorkItem
  pub phase : Phase

pub data ReportReason : Type 0 where
  scheduler internal : ReportReason

pub record Scheduler : Type 0 where
  pub concurrency : ℕ
  pub max_queue : ℕ
  pub has_on_error : Bool
  pub jobs : Dict ScheduledCheck
  pub producers : Dict ScheduledCheck
  pub workers : ℕ
  pub queue : List WorkItem
  pub active : List Work
  pub queued : List String
  pub running : List String
  pub queued_generations : Dict Generation
  pub running_generations : Dict Generation
  pub known_generations : Dict (Option Generation)
  pub started : Bool
  pub stopping : Bool
  pub futures : ℕ → FutureState
  pub next_future : ℕ
  pub reports : List (ScheduledCheck × ReportReason)

abbrev empty : ℕ → ℕ → Bool → Scheduler
empty concurrency max_queue has_on_error = record {
  concurrency = concurrency;
  max_queue = max_queue;
  has_on_error = has_on_error;
  jobs = [];
  producers = [];
  workers = 0;
  queue = [];
  active = [];
  queued = [];
  running = [];
  queued_generations = [];
  running_generations = [];
  known_generations = [];
  started = false;
  stopping = false;
  futures = λ f. pending;
  next_future = 0;
  reports = [];
}

pub data LimitError : Type 0 where
  limits_not_positive : LimitError

-- `Scheduler.__init__`
unfoldable pub init : ℕ → ℕ → Bool → Result LimitError Scheduler
init concurrency max_queue has_on_error =
    if ltb concurrency 1 || ltb max_queue 1
    then err limits_not_positive
    else ok (empty concurrency max_queue has_on_error)

abbrev pub queue_size : Scheduler → ℕ
queue_size s = length s.queue

abbrev pub works : List Work → List WorkItem
works = map (λ w. w.item)
