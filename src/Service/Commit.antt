-- ===== src/Service/Commit.antt =====
-- src/xray_e2e_prober/service.py: `_commit_source_state` and `_drop_obsolete_results`. A commit that
-- raises returns the error with the state that it leaves.
use xray_e2e_prober.Base.{
  ℕ, String, Bool, true, false, not, ◌&&◌, ◌||◌, Option, none, some, List, [], ◌∷◌, if◌then◌else◌,
  ◌==◌, string_eq, option_eq, Dict, lookup, insert,
}
use xray_e2e_prober.Models.States.{RunResult}
use xray_e2e_prober.Models.Config.{SourceGeneration, CheckDefinition}
use xray_e2e_prober.Inventory.Compile.{CompiledCheck}
use xray_e2e_prober.Identity.Registry.{Registry, bindings_of}
use xray_e2e_prober.Service.Pointers.{Pointer, same_pointer}
use xray_e2e_prober.Service.State.{
  RefreshError, unexpected, SourceStatus, Service, Publication, done, failed_before, Events,
  Library, enabled_definitions, scheduled_checks,
}

-- What is to be accepted.
pub record Accepted : Type 0 where
  pub generation : SourceGeneration
  pub registry : Registry
  pub generations : Dict SourceGeneration
  pub inventory : Dict CompiledCheck
  pub reconcile_executor : Bool

abbrev pub is_raised : Publication → Bool
is_raised done = false
is_raised _ = true

-- The store after a publication: the pointer is renamed at once or not at all.
unfoldable pub published : String → Accepted → Publication → Service → Service
published source_id a failed_before s = s
published source_id a _ s = record s {
  store = insert source_id (a.generation, bindings_of source_id a.registry) s.store;
}

-- The two attempts, the second one only after a first that raises.
unfoldable pub publish : String → Accepted → Events → Service → Service
publish source_id a ev s =
    if is_raised ev.first_publication
    then published source_id a ev.second_publication (published source_id a ev.first_publication s)
    else published source_id a ev.first_publication s

abbrev pub is_there_as : Pointer → Option Pointer → Bool
is_there_as p none = false
is_there_as p (some stored) = same_pointer stored p

-- `_source_publish_is_visible`, where the store can be read.
unfoldable pub is_visible : String → Accepted → Events → Service → Bool
is_visible source_id a ev stored =
    ev.store_readable
    && is_there_as (a.generation, bindings_of source_id a.registry) (lookup source_id stored.store)

-- Whether both attempts raised and the store does not show the pointer.
unfoldable pub is_unpublished : String → Accepted → Events → Service → Bool
is_unpublished source_id a ev stored =
    is_raised ev.first_publication
    && is_raised ev.second_publication
    && not (is_visible source_id a ev stored)

module _ (lib : Library) where
  -- Whether the check of a result is gone or has another generation or configuration.
  abbrev pub is_obsolete : Option String → Option CompiledCheck → RunResult → Bool
  is_obsolete revision none r = true
  is_obsolete revision (some k) r =
      not (k.definition.generation == r.generation) || not (r.config_revision == revision)

  unfoldable pub current_results :
      Option String → Dict CompiledCheck → Dict RunResult → Dict RunResult
  current_results revision inventory [] = []
  current_results revision inventory ((id, r) ∷ results) =
      let rest = current_results revision inventory results in
      if is_obsolete revision (lookup id inventory) r then rest else (id, r) ∷ rest

  -- `_drop_obsolete_results`
  unfoldable pub drop_obsolete_results : Service → Service
  drop_obsolete_results s = record s {
    results = current_results (lib.config_revision s.config) s.inventory s.results;
  }

abbrev pub told :
    Bool → List CheckDefinition → Option (List CheckDefinition) → Option (List CheckDefinition)
told failed checks none = none
told failed checks (some old) = if failed then some old else some checks

abbrev pub is_there : Option (List CheckDefinition) → Bool
is_there none = false
is_there (some checks) = true

-- The pool, then the results, then the scheduler; after a failure the scheduler is not updated but
-- stopped, and the service is not ready.
unfoldable pub reconcile_executor : Library → Events → Service → Service
reconcile_executor lib ev s =
    let checks = enabled_definitions s.inventory in
    let pool_failed = is_there s.executor.pool && ev.pool_fails in
    let before = pool_failed || ev.prune_fails in
    let failed = before || (is_there s.executor.scheduled && ev.update_fails) in
    record (drop_obsolete_results lib s) {
      executor = record {
        pool = told pool_failed checks s.executor.pool;
        scheduled =
            told failed (scheduled_checks s.schedule_enabled s.inventory) s.executor.scheduled;
        scheduler_stopped =
            s.executor.scheduler_stopped || (failed && is_there s.executor.scheduled);
      };
      ready = s.ready && not failed;
    }

abbrev pub succeeded : ℕ → SourceStatus → SourceStatus
succeeded now status = record status {
  refresh_success = some true;
  last_success_timestamp = now;
  reason = none;
}

abbrev pub status_of : Option SourceStatus → SourceStatus → SourceStatus
status_of none default = default
status_of (some status) default = status

-- The view of the process is swapped as a whole.
unfoldable pub activate : String → Accepted → Events → SourceStatus → Service → Service
activate source_id a ev status s = record s {
  identity = a.registry;
  generations = a.generations;
  inventory = a.inventory;
  source_status = insert source_id (succeeded ev.now status) s.source_status;
}

-- `_commit_source_state`
unfoldable pub commit_source_state :
    Library → String → Accepted → Events → SourceStatus → Service → Service × Option RefreshError
commit_source_state lib source_id a ev status s =
    let stored = publish source_id a ev s in
    if is_unpublished source_id a ev stored then (stored, some unexpected) else (
      if a.reconcile_executor
          then reconcile_executor lib ev (activate source_id a ev status stored)
          else activate source_id a ev status stored,
      none,
    )
