-- ===== src/Models/Config.antt =====
-- src/xray_e2e_prober/models.py: the sources, assignments, entries and definitions, and the
-- references that `AppConfig.validate_references` checks.
use xray_e2e_prober.Base.{
  ℕ, String, Bool, true, not, ◌&&◌, Option, none, some, List, [], ◌∷◌, all, any, map, leb,
  string_eq, unique, member, Result, ok, ◌>>◌, reject,
}
use xray_e2e_prober.Models.States.{
  CheckMode, connection, profile, RuntimeLifecycle, fresh, persistent, Compatibility,
}
use xray_e2e_prober.Models.Targets.{
  TargetConfig, TargetSetConfig, ModelError, duplicate_default, duplicate_source,
  duplicate_target_set, duplicate_assertion, duplicate_assignment, unknown_default,
  unknown_target_set, unknown_assertion, unknown_source, throughput_timeout, is_some',
}

pub record SourceConfig : Type 0 where
  pub source_id : String
  pub target_set_ids : List String
  pub egress_assertion_ids : List String
  pub enabled : Bool
  pub tags : List String

pub record AssignmentFilter : Type 0 where
  pub name_glob : Option String
  pub name_regex : Option String
  pub protocol : Option String
  pub transport : Option String
  pub tags : List String

pub record AssignmentRule : Type 0 where
  pub assignment_id : String
  pub selection_id : Option String
  pub entry_id : Option String
  pub source_id : Option String
  pub filter : Option AssignmentFilter
  pub enabled : Bool
  pub target_set_ids : List String
  pub mode : Option CheckMode
  pub runtime_lifecycle : Option RuntimeLifecycle
  pub outbound_tag : Option String
  pub inbound_tag : Option String
  pub egress_assertion_ids : List String

pub data EgressResponseFormat : Type 0 where
  plain json : EgressResponseFormat

pub record EgressAssertionConfig : Type 0 where
  pub assertion_id : String
  pub url : String
  pub expected_cidrs : List String
  pub response_format : EgressResponseFormat
  pub json_field : Option String
  pub enabled : Bool

pub record SchedulerConfig : Type 0 where
  pub interval_ms : ℕ
  pub request_timeout_ms : ℕ
  pub max_active_runtimes : ℕ

pub record AppConfig : Type 0 where
  pub instance_id : String
  pub sources : List SourceConfig
  pub target_sets : List TargetSetConfig
  pub assignments : List AssignmentRule
  pub egress_assertions : List EgressAssertionConfig
  pub scheduler : SchedulerConfig
  pub default_target_set_ids : List String

-- `set(xs) <= known`
abbrev pub subset : List String → List String → Bool
subset xs known = all (λ x. member x known) xs

abbrev pub source_ids : AppConfig → List String
source_ids c = map (λ s. s.source_id) c.sources

abbrev pub target_set_ids : AppConfig → List String
target_set_ids c = map (λ s. s.target_set_id) c.target_sets

abbrev pub assertion_ids : AppConfig → List String
assertion_ids c = map (λ a. a.assertion_id) c.egress_assertions

abbrev pub assignment_ids : AppConfig → List String
assignment_ids c = map (λ a. a.assignment_id) c.assignments

abbrev pub source_known : Option String → List String → Bool
source_known none known = true
source_known (some id) known = member id known

-- The `for` loops over sources, assignments and targets.
unfoldable pub check_sources :
    List SourceConfig → List String → List String → Result ModelError (Unit {0})
check_sources [] sets assertions = ok tt
check_sources (s ∷ rest) sets assertions = do
  reject (not (subset s.target_set_ids sets)) unknown_target_set
  reject (not (subset s.egress_assertion_ids assertions)) unknown_assertion
  check_sources rest sets assertions

unfoldable pub check_assignments :
    List AssignmentRule → List String → List String → List String → Result ModelError (Unit {0})
check_assignments [] sources sets assertions = ok tt
check_assignments (a ∷ rest) sources sets assertions = do
  reject (not (source_known a.source_id sources)) unknown_source
  reject (not (subset a.target_set_ids sets)) unknown_target_set
  reject (not (subset a.egress_assertion_ids assertions)) unknown_assertion
  check_assignments rest sources sets assertions

abbrev pub timeout_or : Option ℕ → ℕ → ℕ
timeout_or none default = default
timeout_or (some t) default = t

-- An enabled throughput target whose timeout reaches the scheduler's interval.
abbrev pub too_slow : SchedulerConfig → TargetConfig → Bool
too_slow s t =
    (is_some' t.throughput && t.enabled)
    && leb s.interval_ms (timeout_or t.timeout_ms s.request_timeout_ms)

-- `AppConfig.validate_references`
unfoldable pub validate_references : AppConfig → Result ModelError AppConfig
validate_references c = do
  reject (not (unique c.default_target_set_ids)) duplicate_default
  reject (not (unique (source_ids c))) duplicate_source
  reject (not (unique (target_set_ids c))) duplicate_target_set
  reject (not (unique (assertion_ids c))) duplicate_assertion
  reject (not (unique (assignment_ids c))) duplicate_assignment
  reject (not (subset c.default_target_set_ids (target_set_ids c))) unknown_default
  check_sources c.sources (target_set_ids c) (assertion_ids c)
  check_assignments c.assignments (source_ids c) (target_set_ids c) (assertion_ids c)
  reject (any (λ s. any (too_slow c.scheduler) s.targets) c.target_sets) throughput_timeout
  ok c

-- `content` stands for the fields that only the runtime reads: payload, profile, security, metadata.
pub record EntryRecord : Type 0 where
  pub entry_id : String
  pub source_id : String
  pub name : String
  pub mode : CheckMode
  pub outbound_tag : Option String
  pub inbound_tag : Option String
  pub generation : String
  pub enabled : Bool
  pub compatibility : Compatibility
  pub protocol : String
  pub transport : Option String
  pub tags : List String
  pub content : String

pub record SourceGeneration : Type 0 where
  pub generation : String
  pub entries : List EntryRecord

pub record CheckDefinition : Type 0 where
  pub check_id : String
  pub entry_id : String
  pub source_id : String
  pub target_set_id : String
  pub mode : CheckMode
  pub generation : String
  pub outbound_tag : Option String
  pub inbound_tag : Option String
  pub runtime_lifecycle : Option RuntimeLifecycle
  pub egress_assertion_ids : List String
  pub enabled : Bool

abbrev pub lifecycle_or : Option RuntimeLifecycle → CheckMode → RuntimeLifecycle
lifecycle_or none connection = fresh
lifecycle_or none profile = persistent
lifecycle_or (some given) mode = given

-- `CheckDefinition.default_lifecycle`
unfoldable pub default_lifecycle : CheckDefinition → CheckDefinition
default_lifecycle d = record d {
  runtime_lifecycle = some (lifecycle_or d.runtime_lifecycle d.mode);
}
