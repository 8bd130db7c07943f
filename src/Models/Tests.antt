-- ===== src/Models/Tests.antt =====
-- Concrete configurations and cycles.
use xray_e2e_prober.Base.{
  ℕ, String, ◌≡◌, refl, ◌↔◌, true, false, none, some, [], ◌∷◌, all, string_eq, err,
}
use xray_e2e_prober.Models.States.{
  ReachabilityState, EgressState, is_success, CycleResult, overall_state,
}
use xray_e2e_prober.Models.Targets.{
  TargetConfig, get, download, unknown_target_set, throughput_timeout,
}
use xray_e2e_prober.Models.Config.{AppConfig, check_sources, check_assignments, validate_references}
use xray_e2e_prober.Models.Overall.{passes, overall_success}

abbrev speed_target : ℕ → TargetConfig
speed_target timeout = record {
  target_id = "speed";
  url = "https://example.test/file";
  method = get;
  expected_statuses = 200 ∷ [];
  body = none;
  timeout_ms = some timeout;
  max_body_bytes = 65536;
  follow_redirects = false;
  max_redirects = 0;
  throughput = some record { direction = download; expected_bytes = 1000; interval_ms = 900000 };
  enabled = true;
}

abbrev config : String → ℕ → AppConfig
config source_set timeout = record {
  instance_id = "prober";
  sources =
      record {
        source_id = "src";
        target_set_ids = source_set ∷ [];
        egress_assertion_ids = [];
        enabled = true;
        tags = [];
      }
      ∷ [];
  target_sets =
      record {
        target_set_id = "set";
        targets = speed_target timeout ∷ [];
        quorum = 1;
        enabled = true;
      }
      ∷ [];
  assignments = [];
  egress_assertions = [];
  scheduler = record { interval_ms = 60000; request_timeout_ms = 10000; max_active_runtimes = 4 };
  default_target_set_ids = "set" ∷ [];
}

config_dangles : validate_references (config "other" 5000) ≡ err unknown_target_set
unfolding validate_references check_sources
config_dangles = refl

config_late : validate_references (config "set" 60000) ≡ err throughput_timeout
unfolding validate_references check_sources check_assignments
config_late = refl

abbrev cycle : CycleResult
cycle = record {
  check_id = "check";
  generation = "gen";
  reachability = record {
    state = ReachabilityState.success;
    success_count = 1;
    quorum = 1;
    targets = [];
  };
  egress =
      record {
        assertion_id = "ip";
        state = EgressState.mismatch;
        reason = none;
        observed_ip = none;
        duration = none;
      }
      ∷ [];
  started_at = 0;
  completed_at = 1;
}

overall_success_example : (is_success (overall_state cycle) ≡ true) ↔ (
    (is_success cycle.reachability.state ≡ true)
    × (all (λ item. passes item.state) cycle.egress ≡ true))
overall_success_example = overall_success cycle
