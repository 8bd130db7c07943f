-- ===== src/Service/Tests.antt =====
-- A source that is refreshed to one entry, with a first publication whose outcome is unknown.
use xray_e2e_prober.Base.{
  ◌≡◌, refl, true, false, none, some, [], ◌∷◌, lookup, insert, add, ok, string_eq, All, ◌↔◌,
}
use xray_e2e_prober.Assignments.Tests.{whole, entry}
use xray_e2e_prober.Inventory.Tests.{entry_of, config, one_entry, inventory, compiles}
use xray_e2e_prober.Service.State.{
  Candidate, done, failed_after, Events, Library, Service, SourceStatus, new_status,
}
use xray_e2e_prober.Service.Refresh.{refreshed, refresh_source, is_configured}
use xray_e2e_prober.Service.Atomic.{Outcome, refresh_source_atomic}
use xray_e2e_prober.Service.Manual.{
  Review, ManualOutcome, reconcile_source, reconcile_source_atomic,
}
use xray_e2e_prober.Models.States.{ReachabilityState, profile, RunResult}
use xray_e2e_prober.Models.Config.{default_lifecycle}
use xray_e2e_prober.Assignments.Resolve.{
  is_explicit, is_applicable, matches_filter, first, decision, resolve_assignment,
}
use xray_e2e_prober.Inventory.Compile.{
  compile_sources, compile_entries, compile_entry, compile_sets, compiled_check, decision_for,
  stable_check_id, effective_entry, dict_of, assertions_for, profile_set, within_limit,
  compile_inventory,
}
use xray_e2e_prober.Service.Refresh.{validate_checks}
use xray_e2e_prober.Service.Results.{
  persistence_failed, kept_generations, activate_config, apply_config, scheduler_error, exit_code,
}
use xray_e2e_prober.Service.Current.{IsSound, apply_config-IsSound}
use xray_e2e_prober.Service.Steps.{SomeSound, Reach-IsSound, next, start, errored, not_saved}
use xray_e2e_prober.Service.Exits.{IsSome, IsGood, exit_code_success}
use xray_e2e_prober.Service.Consistent.{IsConsistent, refresh_source-IsConsistent}

abbrev lib : Library
lib = record {
  matching = whole;
  sha256 = entry_of;
  config_revision = λ c. some "r1";
  normalized = λ e. e.name;
}

abbrev candidate : Candidate
candidate = record {
  identity = record {
    candidate_id = "c1";
    name_key = "Oslo";
    connection_fingerprint = none;
    external_id = none;
  };
  to_entry_record = λ id generation. record entry { entry_id = id; generation = generation };
}

abbrev events : Events
events = record {
  now = 100;
  fetched = ok (candidate ∷ []);
  allow_empty = false;
  fresh_preview = λ n. "e0";
  fresh = λ n. "e1";
  generation_id = "g2";
  validate_for = λ k. ok tt;
  first_publication = failed_after;
  second_publication = done;
  store_readable = true;
  pool_fails = false;
  prune_fails = false;
  update_fails = false;
}

abbrev service : Service
service = record {
  config = some config;
  identity = [];
  generations = one_entry;
  inventory = inventory;
  results = [];
  source_status = [];
  executor = record { pool = some []; scheduled = some []; scheduler_stopped = false };
  store = [];
  has_manager = true;
  is_stopping = false;
  ready = true;
  schedule_enabled = true;
}

abbrev attempted : SourceStatus
attempted = record new_status { last_attempt_timestamp = 100 }

abbrev after : Service
after = refreshed lib "src" events attempted service events.fetched

refreshes : refresh_source lib "src" events service ≡ ok after
unfolding refresh_source is_configured lookup
refreshes = refl

refresh_source_atomic_example : Outcome lib "src" events service after
refresh_source_atomic_example = refresh_source_atomic lib "src" events service after refreshes

refresh_source-IsConsistent_example : IsConsistent lib config after
refresh_source-IsConsistent_example =
    refresh_source-IsConsistent lib "src" events config service after
      (refl, record { compiled = compiles }) refreshes

abbrev review : Review
review = record { candidate_revision = λ candidates. "rev"; is_id = λ id. true }

reconcile_source_atomic_example :
    ManualOutcome lib review "src" events
      (("c1", "e1") ∷ [])
      "rev"
      config
      service
      (reconcile_source lib review "src" events (("c1", "e1") ∷ []) "rev" service)
reconcile_source_atomic_example =
    reconcile_source_atomic lib review "src" events (("c1", "e1") ∷ []) "rev" config service
      (refl, record { compiled = compiles })

valid_config :
    apply_config lib events.validate_for config service
    ≡ ok (activate_config lib config one_entry inventory service)
unfolding apply_config kept_generations validate_checks compile_inventory within_limit
    compile_sources compile_entries compile_entry compile_sets compiled_check decision_for
    stable_check_id effective_entry dict_of assertions_for profile_set default_lifecycle lookup
    insert add resolve_assignment first is_explicit is_applicable matches_filter decision
valid_config = refl

apply_config-IsSound_example :
    IsSound lib config (activate_config lib config one_entry inventory service)
apply_config-IsSound_example =
    apply_config-IsSound lib events.validate_for config service
      (activate_config lib config one_entry inventory service) valid_config

-- A result whose profile needs no address.
abbrev good_result : RunResult
good_result = record {
  run_id = "r";
  check_id = "e1";
  instance_id = "prober";
  source_id = "src";
  entry_id = "e1";
  mode = profile;
  target_set_id = "web";
  generation = "g1";
  config_revision = some "r1";
  state = ReachabilityState.success;
  running = false;
  started_at = 50;
  completed_at = some 60;
  success_count = 1;
  quorum = 1;
  target_results = [];
  egress_results = [];
  reason = none;
}

-- A result could not be saved, and the scheduler then cannot admit the check.
abbrev unsaved_service : Service
unsaved_service = (persistence_failed "e1" 130 good_result service).0

abbrev reported_service : Service
reported_service = scheduler_error lib "e1" "g1" "scheduler" "r" 140 unsaved_service

Reach-IsSound_example : SomeSound lib (reported_service, false)
Reach-IsSound_example =
    Reach-IsSound lib (service, false) (reported_service, false)
      (next (service, false) (unsaved_service, false) (reported_service, false)
        (not_saved "e1" 130 good_result service false)
        (next (unsaved_service, false) (reported_service, false) (reported_service, false)
          (errored "e1" "g1" "scheduler" "r" 140 unsaved_service false)
          (start (reported_service, false))))
      (config, (refl, record { compiled = compiles }), tt)

exit_code_success_example :
    (exit_code (good_result ∷ []) ≡ 0) ↔ (IsSome (good_result ∷ []) × All IsGood (good_result ∷ []))
exit_code_success_example = exit_code_success (good_result ∷ [])
