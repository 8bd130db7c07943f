-- ===== src/Models/States.antt =====
-- src/xray_e2e_prober/models.py: the states, the reasons, the results of a cycle and their
-- validators. Times are microseconds, a throughput is in thousandths of Mbit/s.
use xray_e2e_prober.Base.{
  ℕ, String, Bool, true, false, ◌||◌, Option, none, some, List, any, if◌then◌else◌, ltb, Result, ok,
  err,
}

pub data ReachabilityState : Type 0 where
  unknown success failure error stale disabled : ReachabilityState

pub data EgressState : Type 0 where
  match mismatch unknown error stale disabled : EgressState

pub data Reason : Type 0 where
  connect proxy dns timeout tls http_status body_mismatch egress_mismatch response_invalid : Reason
  config_invalid unsupported runtime_start runtime_exit scheduler source_fetch source_parse : Reason
  identity_conflict internal : Reason

pub data CheckMode : Type 0 where
  connection profile : CheckMode

pub data RuntimeLifecycle : Type 0 where
  fresh persistent : RuntimeLifecycle

pub data Compatibility : Type 0 where
  supported unsupported identity_conflict : Compatibility

-- `state is ReachabilityState.…`
abbrev pub is_unknown : ReachabilityState → Bool
is_unknown ReachabilityState.unknown = true
is_unknown _ = false

abbrev pub is_success : ReachabilityState → Bool
is_success ReachabilityState.success = true
is_success _ = false

abbrev pub is_failure : ReachabilityState → Bool
is_failure ReachabilityState.failure = true
is_failure _ = false

abbrev pub is_error : ReachabilityState → Bool
is_error ReachabilityState.error = true
is_error _ = false

abbrev pub is_stale : ReachabilityState → Bool
is_stale ReachabilityState.stale = true
is_stale _ = false

pub record TargetResult : Type 0 where
  pub target_id : String
  pub state : ReachabilityState
  pub success : Option Bool
  pub reason : Option Reason
  pub http_status : Option ℕ
  pub duration : Option ℕ
  pub ttfb : Option ℕ
  pub bytes_read : Option ℕ
  pub bytes_written : Option ℕ
  pub transfer : Option ℕ
  pub throughput : Option ℕ
  pub measured_at : Option ℕ

pub data ResultError : Type 0 where
  success_inconsistent completed_before_start : ResultError

abbrev pub expected_success : ReachabilityState → Option Bool
expected_success ReachabilityState.success = some true
expected_success ReachabilityState.failure = some false
expected_success _ = none

abbrev pub success_fits : Option Bool → Bool → Bool
success_fits none given = true
success_fits (some true) given = given
success_fits (some false) given = if given then false else true

abbrev pub cohere : Option Bool → TargetResult → Result ResultError TargetResult
cohere none r = ok (record r { success = expected_success r.state })
cohere (some given) r =
    if success_fits (expected_success r.state) given then ok r else err success_inconsistent

-- `TargetResult.coherent_success`
unfoldable pub coherent_success : TargetResult → Result ResultError TargetResult
coherent_success r = cohere r.success r

pub record EgressResult : Type 0 where
  pub assertion_id : String
  pub state : EgressState
  pub reason : Option Reason
  pub observed_ip : Option String
  pub duration : Option ℕ

pub record ReachabilityResult : Type 0 where
  pub state : ReachabilityState
  pub success_count : ℕ
  pub quorum : ℕ
  pub targets : List TargetResult

pub record CycleResult : Type 0 where
  pub check_id : String
  pub generation : String
  pub reachability : ReachabilityResult
  pub egress : List EgressResult
  pub started_at : ℕ
  pub completed_at : ℕ

abbrev pub egress_error : EgressState → Bool
egress_error EgressState.error = true
egress_error _ = false

abbrev pub egress_stale : EgressState → Bool
egress_stale EgressState.stale = true
egress_stale _ = false

abbrev pub egress_unknown : EgressState → Bool
egress_unknown EgressState.unknown = true
egress_unknown _ = false

abbrev pub egress_mismatch_state : EgressState → Bool
egress_mismatch_state EgressState.mismatch = true
egress_mismatch_state _ = false

-- `EgressState.… in egress_states`
abbrev pub some_egress : (EgressState → Bool) → List EgressResult → Bool
some_egress p = any (λ item. p item.state)

-- `CycleResult.overall_state`
unfoldable pub overall_state : CycleResult → ReachabilityState
overall_state c =
    let state = c.reachability.state in
    if is_error state || some_egress egress_error c.egress
    then ReachabilityState.error
    else if is_stale state || some_egress egress_stale c.egress
    then ReachabilityState.stale
    else if is_unknown state || some_egress egress_unknown c.egress
    then ReachabilityState.unknown
    else if is_failure state || some_egress egress_mismatch_state c.egress
    then ReachabilityState.failure
    else state

pub record RunResult : Type 0 where
  pub run_id : String
  pub check_id : String
  pub instance_id : String
  pub source_id : String
  pub entry_id : String
  pub mode : CheckMode
  pub target_set_id : String
  pub generation : String
  pub config_revision : Option String
  pub state : ReachabilityState
  pub running : Bool
  pub started_at : ℕ
  pub completed_at : Option ℕ
  pub success_count : ℕ
  pub quorum : ℕ
  pub target_results : List TargetResult
  pub egress_results : List EgressResult
  pub reason : Option Reason

abbrev pub precedes : Option ℕ → ℕ → Bool
precedes none t = false
precedes (some t') t = ltb t' t

-- `RunResult.valid_times`
unfoldable pub valid_times : RunResult → Result ResultError RunResult
valid_times r = if precedes r.completed_at r.started_at then err completed_before_start else ok r
