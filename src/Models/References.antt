-- ===== src/Models/References.antt =====
-- A configuration that `AppConfig.validate_references` returns has unique ids and no dangling one.
use xray_e2e_prober.Base.{String, ◌≡◌, true, some, List, All, string_eq, unique, member, ◌<◌}
use xray_e2e_prober.Models.Targets.{TargetConfig, is_some'}
use xray_e2e_prober.Models.Config.{
  SourceConfig, AssignmentRule, SchedulerConfig, AppConfig, source_ids, target_set_ids,
  assertion_ids, assignment_ids, timeout_or,
}

-- Every id stands in the list of known ones.
abbrev pub Known : List String → List String → Type 0
Known known ids = All (λ id. member id known ≡ true) ids

abbrev pub SourceRefers : List String → List String → SourceConfig → Type 0
SourceRefers sets assertions s =
    Known sets s.target_set_ids × Known assertions s.egress_assertion_ids

abbrev pub RuleRefers : List String → List String → List String → AssignmentRule → Type 0
RuleRefers sources sets assertions a =
    ((id : String) → a.source_id ≡ some id → member id sources ≡ true)
    × Known sets a.target_set_ids
    × Known assertions a.egress_assertion_ids

-- An enabled throughput target ends before the next round of checks begins.
abbrev pub InTime : SchedulerConfig → TargetConfig → Type 0
InTime s t =
    is_some' t.throughput ≡ true
    → t.enabled ≡ true
    → timeout_or t.timeout_ms s.request_timeout_ms < s.interval_ms

pub record IsConsistent (c : AppConfig) : Type 0 where
  pub defaults : unique c.default_target_set_ids ≡ true
  pub source : unique (source_ids c) ≡ true
  pub target_set : unique (target_set_ids c) ≡ true
  pub assertion : unique (assertion_ids c) ≡ true
  pub assignment : unique (assignment_ids c) ≡ true
  pub default_sets : Known (target_set_ids c) c.default_target_set_ids
  pub of_sources : All (SourceRefers (target_set_ids c) (assertion_ids c)) c.sources
  pub of_rules : All (RuleRefers (source_ids c) (target_set_ids c) (assertion_ids c)) c.assignments
  pub in_time : All (λ s. All (InTime c.scheduler) s.targets) c.target_sets
