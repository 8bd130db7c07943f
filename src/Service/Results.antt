-- ===== src/Service/Results.antt =====
-- src/xray_e2e_prober/service.py: what an execution, an error of the scheduler and a new configuration
-- do to the results, and the exit code of `run_checks`. The counters of errors are left out.
use xray_e2e_prober.Base.{
  ℕ, String, Bool, true, false, not, ◌&&◌, ◌||◌, Option, none, some, List, [], ◌∷◌, any,
  if◌then◌else◌, ◌==◌, string_eq, option_eq, member, Dict, lookup, insert, values, Result, ok, err,
  ◌>>=◌, ◌>>◌,
}
use xray_e2e_prober.Models.States.{
  ReachabilityState, EgressState, Reason, TargetResult, EgressResult, CycleResult, RunResult,
  overall_state, valid_times,
}
use xray_e2e_prober.Models.Config.{AppConfig, SourceGeneration, CheckDefinition, source_ids}
use xray_e2e_prober.Inventory.Compile.{CompiledCheck, compile_inventory}
use xray_e2e_prober.Service.State.{
  RefreshError, SourceStatus, new_status, Service, Library, scheduled_checks,
}
use xray_e2e_prober.Service.Commit.{drop_obsolete_results, status_of}
use xray_e2e_prober.Service.Refresh.{or_capacity, validate_checks}

-- How the runtime and the cycle end: with a cycle, with an error that has a reason, or with another one.
pub data Execution : Type 0 where
  cycled : CycleResult → Execution
  refused : Reason → Execution
  crashed : Execution

-- What `execute` has read before it waits.
pub record Run : Type 0 where
  pub run_id : String
  pub instance_id : String
  pub check : CompiledCheck
  pub config_revision : Option String
  pub started_at : ℕ

abbrev pub result_with :
    Run
    → ReachabilityState
    → ℕ
    → ℕ
    → ℕ
    → ℕ
    → List TargetResult
    → List EgressResult
    → Option Reason
    → RunResult
result_with run state started completed success_count quorum targets egress reason = record {
  run_id = run.run_id;
  check_id = run.check.definition.check_id;
  instance_id = run.instance_id;
  source_id = run.check.definition.source_id;
  entry_id = run.check.definition.entry_id;
  mode = run.check.definition.mode;
  target_set_id = run.check.definition.target_set_id;
  generation = run.check.definition.generation;
  config_revision = run.config_revision;
  state = state;
  running = false;
  started_at = started;
  completed_at = some completed;
  success_count = success_count;
  quorum = quorum;
  target_results = targets;
  egress_results = egress;
  reason = reason;
}

abbrev pub error_result : Run → ℕ → Reason → RunResult
error_result run now reason =
    result_with run ReachabilityState.error run.started_at now 0 run.check.target_set.quorum [] []
      (some reason)

-- A result whose times are inconsistent is an unexpected error like any other.
abbrev pub or_internal : Run → ℕ → {E : Type 0} → Result E RunResult → RunResult
or_internal run now (ok r) = r
or_internal run now (err e) = error_result run now Reason.internal

unfoldable pub run_result : Run → ℕ → Execution → RunResult
run_result run now (cycled c) = or_internal run now (
    valid_times (
      result_with run (overall_state c) c.started_at c.completed_at c.reachability.success_count
        c.reachability.quorum c.reachability.targets c.egress none))
run_result run now (refused reason) = error_result run now reason
run_result run now crashed = error_result run now Reason.internal

-- The result of a persistence that failed.
abbrev pub unsaved : ℕ → RunResult → RunResult
unsaved now r = record r {
  state = ReachabilityState.error;
  completed_at = some now;
  success_count = 0;
  target_results = [];
  egress_results = [];
  reason = some Reason.internal;
}

-- `_apply_config`: the generations of the sources that stay, their inventory, its validation by the
-- new manager, and then the swap. That the new parts are made and the old ones stop is not in doubt.
unfoldable pub kept_generations : List String → Dict SourceGeneration → Dict SourceGeneration
kept_generations ids [] = []
kept_generations ids ((id, g) ∷ generations) =
    let rest = kept_generations ids generations in if member id ids then (id, g) ∷ rest else rest

unfoldable pub kept_statuses : List String → Dict SourceStatus → Dict SourceStatus
kept_statuses [] old = []
kept_statuses (id ∷ ids) old = (id, status_of (lookup id old) new_status) ∷ kept_statuses ids old

abbrev pub scheduler_reason : String → Reason
scheduler_reason reason = if reason == "scheduler" then Reason.scheduler else Reason.internal

-- The end of `execute` behind a persistence that failed: the changed result is stored, whatever
-- happened to the check in the meantime.
unfoldable pub persistence_failed : String → ℕ → RunResult → Service → Service × RunResult
persistence_failed id now r s =
    (record s { results = insert id (unsaved now r) s.results }, unsaved now r)

module _ (lib : Library) where
  abbrev pub is_current : Option CompiledCheck → RunResult → Option AppConfig → Bool
  is_current none r config = false
  is_current (some k) r config =
      k.definition.generation == r.generation && r.config_revision == lib.config_revision config

  -- The end of `execute` up to the await of the persistence: the result is kept only if it is of the
  -- current generation and configuration.
  unfoldable pub store_result : Run → Execution → ℕ → Service → Service × RunResult
  store_result run execution now s =
      let r = run_result run now execution in
      let id = run.check.definition.check_id in
      if is_current (lookup id s.inventory) r s.config
      then (record s { results = insert id r s.results }, r)
      else (s, r)

  -- `previous_target_results`: what a cycle may reuse.
  abbrev pub reusable : CheckDefinition → Option String → Option RunResult → List TargetResult
  reusable d revision none = []
  reusable d revision (some r) =
      if r.generation == d.generation && r.config_revision == revision then r.target_results else []

  abbrev pub reported :
      Service
      → String
      → String
      → Reason
      → String
      → ℕ
      → Option CompiledCheck
      → Option AppConfig
      → Service
  reported s check_id generation reason run_id now none config = s
  reported s check_id generation reason run_id now (some k) none = s
  reported s check_id generation reason run_id now (some k) (some c) =
      if not k.definition.enabled || not (k.definition.generation == generation)
      then s
      else record s {
        results =
            insert check_id
              (error_result
                record {
                  run_id = run_id;
                  instance_id = c.instance_id;
                  check = k;
                  config_revision = lib.config_revision (some c);
                  started_at = now;
                }
                now reason)
              s.results;
      }

  -- `_scheduler_error`
  unfoldable pub scheduler_error : String → String → String → String → ℕ → Service → Service
  scheduler_error check_id generation reason run_id now s =
      reported s check_id generation (scheduler_reason reason) run_id now
        (lookup check_id s.inventory) s.config

  unfoldable pub activate_config :
      AppConfig → Dict SourceGeneration → Dict CompiledCheck → Service → Service
  activate_config c generations inventory s = drop_obsolete_results lib (record s {
    config = some c;
    generations = generations;
    inventory = inventory;
    source_status = kept_statuses (source_ids c) s.source_status;
    executor = record {
      pool = some [];
      scheduled = some (scheduled_checks s.schedule_enabled inventory);
      scheduler_stopped = false;
    };
    has_manager = true;
    ready = not s.is_stopping;
  })

  unfoldable pub apply_config :
      (CompiledCheck → Result RefreshError (Unit {0}))
      → AppConfig
      → Service
      → Result RefreshError Service
  apply_config validate_for c s = do
    let generations = kept_generations (source_ids c) s.generations
    inventory ← or_capacity (compile_inventory lib.matching lib.sha256 c generations)
    validate_checks validate_for none [] (values inventory)
    ok (activate_config c generations inventory s)

-- The exit code of `run_checks`.
abbrev pub is_undecided : ReachabilityState → Bool
is_undecided ReachabilityState.success = false
is_undecided ReachabilityState.failure = false
is_undecided _ = true

abbrev pub is_failed : ReachabilityState → Bool
is_failed ReachabilityState.failure = true
is_failed _ = false

abbrev pub is_open : EgressState → Bool
is_open EgressState.error = true
is_open EgressState.unknown = true
is_open EgressState.stale = true
is_open _ = false

abbrev pub is_mismatch : EgressState → Bool
is_mismatch EgressState.mismatch = true
is_mismatch _ = false

abbrev pub some_egress : (EgressState → Bool) → List RunResult → Bool
some_egress p results = any (λ r. any (λ e. p e.state) r.egress_results) results

unfoldable pub exit_code : List RunResult → ℕ
exit_code [] = 2
exit_code results =
    if any (λ r. is_undecided r.state) results || some_egress is_open results
    then 2
    else if any (λ r. is_failed r.state) results || some_egress is_mismatch results
    then 1
    else 0
