-- ===== src/RuntimePool/Backoff.antt =====
-- src/xray_e2e_prober/runtime_pool.py: `__init__`'s tests, `_record_restart_failure`,
-- `_enforce_restart_backoff`, `_reset_if_stable` and the places that drop a backoff. Times are
-- milliseconds of the loop's clock.
use xray_e2e_prober.Base.{
  ℕ, ◌+◌, ◌*◌, min, Bool, false, Option, none, some, List, if◌then◌else◌, ltb, leb, ◌==◌, member,
  Result, ok, reject, ◌>>◌,
}
use xray_e2e_prober.Inventory.Compile.{Profile, profile_eq}

pub record RestartBackoff : Type 0 where
  pub failures : ℕ
  pub delay : ℕ
  pub retry_at : ℕ

-- The effective key of a check is its profile with the generation.
pub record RuntimePool : Type 0 where
  pub limit : ℕ
  pub restart_backoff_initial : ℕ
  pub restart_backoff_max : ℕ
  pub restart_backoffs : Profile → Option RestartBackoff

pub data PoolError : Type 0 where
  limit_not_positive backoff_max_too_small warmup_timeout_not_positive : PoolError
  warmup_delay_too_long restart_backoff_active pool_closed not_current not_ready : PoolError

abbrev pub new_pool : ℕ → ℕ → ℕ → RuntimePool
new_pool limit initial maximum = record {
  limit = limit;
  restart_backoff_initial = initial;
  restart_backoff_max = maximum;
  restart_backoffs = λ key. none;
}

-- `__init__`; no time is negative here.
unfoldable pub init : ℕ → ℕ → ℕ → ℕ → ℕ → Result PoolError RuntimePool
init limit initial maximum warmup_delay warmup_timeout = do
  reject (ltb limit 1) limit_not_positive
  reject (ltb maximum initial) backoff_max_too_small
  reject (leb warmup_timeout 0) warmup_timeout_not_positive
  reject (ltb warmup_timeout warmup_delay) warmup_delay_too_long
  ok (new_pool limit initial maximum)

abbrev pub set_at :
    Profile
    → Option RestartBackoff
    → (Profile → Option RestartBackoff)
    → Profile
    → Option RestartBackoff
set_at key entry backoffs other = if key == other then entry else backoffs other

abbrev pub next_backoff : RuntimePool → ℕ → Option RestartBackoff → RestartBackoff
next_backoff pool now none = record {
  failures = 1;
  delay = pool.restart_backoff_initial;
  retry_at = now + pool.restart_backoff_initial;
}
next_backoff pool now (some previous) = record {
  failures = previous.failures + 1;
  delay = min pool.restart_backoff_max (previous.delay * 2);
  retry_at = now + min pool.restart_backoff_max (previous.delay * 2);
}

-- `_record_restart_failure`
unfoldable pub record_restart_failure : Profile → ℕ → RuntimePool → RuntimePool
record_restart_failure key now pool = record pool {
  restart_backoffs =
      set_at key (some (next_backoff pool now (pool.restart_backoffs key))) pool.restart_backoffs;
}

abbrev pub is_waiting : Option RestartBackoff → ℕ → Bool
is_waiting none now = false
is_waiting (some state) now = ltb now state.retry_at

-- `_enforce_restart_backoff`
unfoldable pub enforce_restart_backoff : Profile → ℕ → RuntimePool → Result PoolError (Unit {0})
enforce_restart_backoff key now pool =
    reject (is_waiting (pool.restart_backoffs key) now) restart_backoff_active

-- `self._restart_backoffs.pop(key, None)`, after the start of a fresh runtime.
unfoldable pub drop_backoff : Profile → RuntimePool → RuntimePool
drop_backoff key pool = record pool { restart_backoffs = set_at key none pool.restart_backoffs }

-- `_reset_if_stable`
unfoldable pub reset_if_stable : Profile → ℕ → ℕ → RuntimePool → RuntimePool
reset_if_stable key stable_after now pool =
    if leb stable_after now then drop_backoff key pool else pool

-- The end of `reconcile`: the backoffs of checks that are gone are dropped.
unfoldable pub keep_backoffs : List Profile → RuntimePool → RuntimePool
keep_backoffs effective_keys pool = record pool {
  restart_backoffs = λ key. if member key effective_keys then pool.restart_backoffs key else none;
}

-- `self._restart_backoffs.clear()` in `close`.
unfoldable pub clear_backoffs : RuntimePool → RuntimePool
clear_backoffs pool = record pool { restart_backoffs = λ key. none }

-- What can happen to the backoffs, in any order.
pub data Step (pool : RuntimePool) : RuntimePool → Type 0 where
  fails : (key : Profile) (now : ℕ) → Step pool (record_restart_failure key now pool)
  starts : (key : Profile) → Step pool (drop_backoff key pool)
  resets :
      (key : Profile) (stable_after now : ℕ) → Step pool (reset_if_stable key stable_after now pool)
  reconciles : (effective_keys : List Profile) → Step pool (keep_backoffs effective_keys pool)
  closes : Step pool (clear_backoffs pool)

pub data Reach (pool : RuntimePool) : RuntimePool → Type 0 where
  here : Reach pool pool
  next : {p q : RuntimePool} → Reach pool p → Step p q → Reach pool q
