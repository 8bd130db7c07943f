-- ===== src/RuntimePool/Slots.antt =====
-- src/xray_e2e_prober/runtime_pool.py: the runtimes of the pool and their slots. An operation is what a
-- task does between two awaits; `not_ready` stands for a task that still waits, so that the operation
-- cannot happen now. The manager's answers, the liveness of runtimes and the clock are arguments.
use xray_e2e_prober.Base.{
  ℕ, ◌+◌, ◌-◌, String, Bool, true, false, not, ◌&&◌, ◌||◌, Option, none, some, List, [], ◌∷◌, map,
  if◌then◌else◌, Eq, ◌≡◌, ◌==◌, nat_eq, string_eq, option_eq, pair_eq, member, is_some, Result, ok,
  err, ◌>>=◌, ◌>>◌, reject,
}
use xray_e2e_prober.Inventory.Compile.{Profile, profile_eq}
use xray_e2e_prober.RuntimePool.Backoff.{
  RestartBackoff, RuntimePool, PoolError, pool_closed, not_current, not_ready,
  enforce_restart_backoff, record_restart_failure, reset_if_stable, drop_backoff, keep_backoffs,
  clear_backoffs,
}

-- `_key`: a check's effective key without its generation.
abbrev pub Key : Type 0
Key = (String × String) × (Option String × Option String)

abbrev pub key_of : Profile → Key
key_of p = ((p.entry_id, p.mode), (p.outbound_tag, p.inbound_tag))

-- `(*key, generation)`
abbrev pub effective_key : Key → String → Profile
effective_key k generation = record {
  entry_id = k.0.0;
  mode = k.0.1;
  outbound_tag = k.1.0;
  inbound_tag = k.1.1;
  generation = generation;
}

pub record Check : Type 0 where
  pub profile : Profile
  pub is_persistent : Bool

pub record Persistent : Type 0 where
  pub runtime : ℕ
  pub generation : String
  pub stable_after : ℕ

-- A start waits for a slot, starts with one, or still has one while its runtime is discarded.
pub data Phase : Type 0 where
  waiting starting discarding : Phase

-- A task in `_start_runtime`, with the delay of the backoff that it found.
pub record Start : Type 0 where
  pub task : ℕ
  pub check : Check
  pub phase : Phase
  pub delay : ℕ

pub record Pool : Type 0 where
  pub backoffs : RuntimePool
  pub slots : ℕ
  pub persistent : List (Key × Persistent)
  pub starts : List Start
  pub fresh : List ℕ
  pub desired : Option (List (Key × String))
  pub closed : Bool
  pub closing : List Key

abbrev pub open_pool : RuntimePool → Pool
open_pool backoffs = record {
  backoffs = backoffs;
  slots = backoffs.limit;
  persistent = [];
  starts = [];
  fresh = [];
  desired = none;
  closed = false;
  closing = [];
}

module _ {K V : Type 0} ⦃e : Eq K⦄ where
  unfoldable pub find : K → List (K × V) → Option V
  find k [] = none
  find k ((j, v) ∷ m) = if j == k then some v else find k m

  -- Of a dictionary, which has a key once.
  unfoldable pub pop : K → List (K × V) → List (K × V)
  pop k [] = []
  pop k ((j, v) ∷ m) = let rest = (j, v) ∷ pop k m in if j == k then m else rest

-- The keys whose lock is held by a start of a persistent runtime.
unfoldable pub locked_keys : List Start → List Key
locked_keys [] = []
locked_keys (st ∷ starts) =
    let rest = locked_keys starts in
    if st.check.is_persistent then key_of st.check.profile ∷ rest else rest

abbrev pub is_locked : Key → Pool → Bool
is_locked k s = member k (locked_keys s.starts)

abbrev pub wants : Option (List (Key × String)) → Profile → Bool
wants none p = true
wants (some desired) p = find (key_of p) desired == some p.generation

-- `self._closed or not self._persistent_is_desired(check)`
abbrev pub is_obsolete : Profile → Pool → Bool
is_obsolete p s = s.closed || not (wants s.desired p)

abbrev pub delay_of : Option RestartBackoff → ℕ
delay_of none = 0
delay_of (some b) = b.delay

-- A start for a check: its persistent runtime's key has no runtime and no other task holds its lock.
unfoldable pub request : ℕ → Check → ℕ → Pool → Result PoolError Pool
request task c now s = do
  reject s.closed pool_closed
  reject (c.is_persistent && is_locked (key_of c.profile) s) not_ready
  reject (c.is_persistent && is_obsolete c.profile s) not_current
  reject (c.is_persistent && is_some (find (key_of c.profile) s.persistent)) not_ready
  enforce_restart_backoff c.profile now s.backoffs
  ok record s {
    starts =
        record {
          task = task;
          check = c;
          phase = waiting;
          delay = delay_of (s.backoffs.restart_backoffs c.profile);
        }
        ∷ s.starts;
  }

abbrev pub put_back : Start → Option (Start × List Start) → Option (Start × List Start)
put_back st none = none
put_back st (some (found, rest)) = some (found, st ∷ rest)

-- The start of a task, and the others.
unfoldable pub take_start : ℕ → List Start → Option (Start × List Start)
take_start task [] = none
take_start task (st ∷ starts) =
    let others = put_back st (take_start task starts) in
    if st.task == task then some (st, starts) else others

abbrev pub the_start : Option (Start × List Start) → Result PoolError (Start × List Start)
the_start none = err not_ready
the_start (some found) = ok found

abbrev pub is_waiting_start : Phase → Bool
is_waiting_start waiting = true
is_waiting_start _ = false

abbrev pub is_starting : Phase → Bool
is_starting starting = true
is_starting _ = false

abbrev pub is_discarding : Phase → Bool
is_discarding discarding = true
is_discarding _ = false

-- `await self._slots.acquire()`
unfoldable pub take_slot : ℕ → Pool → Result PoolError Pool
take_slot task s = do
  found ← the_start (take_start task s.starts)
  reject (not (is_waiting_start found.0.phase) || s.slots == 0) not_ready
  ok record s { slots = s.slots - 1; starts = record found.0 { phase = starting } ∷ found.1 }

-- A start that is cancelled while it waits for a slot.
unfoldable pub abandon : ℕ → Pool → Result PoolError Pool
abandon task s = do
  found ← the_start (take_start task s.starts)
  reject (not (is_waiting_start found.0.phase)) not_ready
  ok record s { starts = found.1 }

-- A start that raises: of an Exception the failure is recorded, of a cancellation it is not.
unfoldable pub fail_start : ℕ → Bool → ℕ → Pool → Result PoolError Pool
fail_start task is_exception now s = do
  found ← the_start (take_start task s.starts)
  reject (not (is_starting found.0.phase)) not_ready
  ok record s {
    starts = record found.0 { phase = discarding } ∷ found.1;
    backoffs =
        if is_exception
        then record_restart_failure found.0.check.profile now s.backoffs
        else s.backoffs;
  }

-- `self._slots.release()` after `_discard_runtime`.
unfoldable pub release : ℕ → Pool → Result PoolError Pool
release task s = do
  found ← the_start (take_start task s.starts)
  reject (not (is_discarding found.0.phase)) not_ready
  ok record s { slots = s.slots + 1; starts = found.1 }

abbrev pub published : ℕ → ℕ → Start → Persistent
published runtime now st = record {
  runtime = runtime;
  generation = st.check.profile.generation;
  stable_after = now + st.delay;
}

-- A runtime that has started: a persistent one is published if it is still wanted, else discarded; a
-- fresh one is handed to the task.
abbrev pub place : ℕ → ℕ → Start → List Start → Pool → Pool
place runtime now st rest s =
    if st.check.is_persistent
    then (if is_obsolete st.check.profile s
        then record s { starts = record st { phase = discarding } ∷ rest }
        else record s {
          starts = rest;
          persistent = (key_of st.check.profile, published runtime now st) ∷ s.persistent;
        })
    else record s {
      starts = rest;
      fresh = st.task ∷ s.fresh;
      backoffs = drop_backoff st.check.profile s.backoffs;
    }

unfoldable pub succeed : ℕ → ℕ → ℕ → Pool → Result PoolError Pool
succeed task runtime now s = do
  found ← the_start (take_start task s.starts)
  reject (not (is_starting found.0.phase)) not_ready
  ok (place runtime now found.0 found.1 s)

abbrev pub cons_to : ℕ → Option (List ℕ) → Option (List ℕ)
cons_to t none = none
cons_to t (some rest) = some (t ∷ rest)

unfoldable pub take_task : ℕ → List ℕ → Option (List ℕ)
take_task task [] = none
take_task task (t ∷ tasks) =
    let others = cons_to t (take_task task tasks) in if t == task then some tasks else others

-- The end of `acquire` for a fresh runtime: it is stopped, and its slot is released in any case.
abbrev pub without_fresh : Pool → Option (List ℕ) → Result PoolError Pool
without_fresh s none = err not_ready
without_fresh s (some rest) = ok (record s { fresh = rest; slots = s.slots + 1 })

unfoldable pub finish_fresh : ℕ → Pool → Result PoolError Pool
finish_fresh task s = without_fresh s (take_task task s.fresh)

-- `_remove_persistent_locked`, after the runtime is stopped.
unfoldable pub remove_locked : Key → Persistent → Bool → ℕ → Pool → Pool
remove_locked k current unexpected now s = record s {
  persistent = pop k s.persistent;
  slots = s.slots + 1;
  backoffs =
      if unexpected
      then record_restart_failure (effective_key k current.generation) now s.backoffs
      else s.backoffs;
}

unfoldable pub reset_stable : Key → Persistent → ℕ → Pool → Pool
reset_stable k current now s = record s {
  backoffs =
      reset_if_stable (effective_key k current.generation) current.stable_after now s.backoffs;
}

-- `current.generation == generation and current.runtime.alive`
abbrev pub serves : Persistent → Option String → Bool → Bool
serves current generation alive = some current.generation == generation && alive

-- What `reconcile` and `_persistent_runtime` do with the runtime of a key: one of the wanted generation
-- that is alive stays; any other is removed, as a failure if it had the generation and died.
abbrev pub review : Key → Option String → Bool → ℕ → Option Persistent → Pool → Pool
review k generation alive now none s = s
review k generation alive now (some current) s =
    if serves current generation alive
    then reset_stable k current now s
    else remove_locked k current (some current.generation == generation && not alive) now s

-- `_persistent_runtime` on a key with a runtime, before a start.
unfoldable pub use_current : Check → Bool → ℕ → Pool → Result PoolError Pool
use_current c alive now s = do
  reject (is_locked (key_of c.profile) s) not_ready
  reject (is_obsolete c.profile s) not_current
  ok (
      review (key_of c.profile) (some c.profile.generation) alive now
        (find (key_of c.profile) s.persistent) s)

-- `_retire_persistent` and `_finish_persistent_cycle`: only the runtime that was used is removed.
abbrev pub retire_current : Key → ℕ → Bool → ℕ → Option Persistent → Pool → Pool
retire_current k runtime dead now none s = s
retire_current k runtime dead now (some current) s =
    if not (current.runtime == runtime)
    then s
    else if dead
    then remove_locked k current true now s
    else reset_stable k current now s

unfoldable pub retire : Key → ℕ → Bool → ℕ → Pool → Result PoolError Pool
retire k runtime dead now s = do
  reject (is_locked k s) not_ready
  ok (retire_current k runtime dead now (find k s.persistent) s)

-- `reconcile`: the wanted generations are set at once, then every key is reviewed under its lock, then
-- the backoffs of other checks are dropped.
unfoldable pub set_desired : List (Key × String) → Pool → Pool
set_desired desired s = record s { desired = some desired }

unfoldable pub review_key : Key → List (Key × String) → Bool → ℕ → Pool → Result PoolError Pool
review_key k desired alive now s = do
  reject (is_locked k s) not_ready
  ok (review k (find k desired) alive now (find k s.persistent) s)

unfoldable pub forget_backoffs : List Profile → Pool → Pool
forget_backoffs effective_keys s = record s { backoffs = keep_backoffs effective_keys s.backoffs }

-- `close`: the pool is closed at once, then every key's runtime is removed under its lock, then the
-- dictionaries are cleared.
unfoldable pub begin_close : Pool → Pool
begin_close s =
    if s.closed
    then s
    else record s { closed = true; desired = some []; closing = map (λ item. item.0) s.persistent }

abbrev pub remove_if : Key → ℕ → Option Persistent → Pool → Pool
remove_if k now none s = s
remove_if k now (some current) s = remove_locked k current false now s

abbrev pub close_first : List Key → ℕ → Pool → Result PoolError Pool
close_first [] now s = err not_ready
close_first (k ∷ ks) now s = do
  reject (is_locked k s) not_ready
  ok (record (remove_if k now (find k s.persistent) s) { closing = ks })

unfoldable pub close_key : ℕ → Pool → Result PoolError Pool
close_key now s = close_first s.closing now s

abbrev pub is_done : List Key → Bool
is_done [] = true
is_done (k ∷ ks) = false

unfoldable pub end_close : Pool → Result PoolError Pool
end_close s = do
  reject (not (s.closed && is_done s.closing)) not_ready
  ok record s { persistent = []; backoffs = clear_backoffs s.backoffs }

-- Everything that the tasks can do, in any order.
pub data Step (s : Pool) : Pool → Type 0 where
  requests : {t : Pool} (task : ℕ) (c : Check) (now : ℕ) → request task c now s ≡ ok t → Step s t
  takes_slot : {t : Pool} (task : ℕ) → take_slot task s ≡ ok t → Step s t
  abandons : {t : Pool} (task : ℕ) → abandon task s ≡ ok t → Step s t
  fails_start :
      {t : Pool} (task : ℕ) (is_exception : Bool) (now : ℕ)
      → fail_start task is_exception now s ≡ ok t
      → Step s t
  releases : {t : Pool} (task : ℕ) → release task s ≡ ok t → Step s t
  succeeds : {t : Pool} (task runtime now : ℕ) → succeed task runtime now s ≡ ok t → Step s t
  finishes : {t : Pool} (task : ℕ) → finish_fresh task s ≡ ok t → Step s t
  uses :
      {t : Pool} (c : Check) (alive : Bool) (now : ℕ) → use_current c alive now s ≡ ok t → Step s t
  retires :
      {t : Pool} (k : Key) (runtime : ℕ) (dead : Bool) (now : ℕ)
      → retire k runtime dead now s ≡ ok t
      → Step s t
  desires : (desired : List (Key × String)) → Step s (set_desired desired s)
  reviews :
      {t : Pool} (k : Key) (desired : List (Key × String)) (alive : Bool) (now : ℕ)
      → review_key k desired alive now s ≡ ok t
      → Step s t
  forgets : (effective_keys : List Profile) → Step s (forget_backoffs effective_keys s)
  begins_close : Step s (begin_close s)
  closes_key : {t : Pool} (now : ℕ) → close_key now s ≡ ok t → Step s t
  ends_close : {t : Pool} → end_close s ≡ ok t → Step s t

pub data Reach (s : Pool) : Pool → Type 0 where
  here : Reach s s
  next : {t u : Pool} → Reach s t → Step t u → Reach s u
