-- ===== src/Service/State.antt =====
-- src/xray_e2e_prober/service.py: what the service keeps, and what happens around a refresh. The store
-- holds one pointer for each source, to its generation and the identity bindings with it.
use xray_e2e_prober.Base.{
  ℕ, String, Bool, true, false, Option, none, List, [], ◌∷◌, if◌then◌else◌, string_eq, option_eq,
  Dict, Result,
}
use xray_e2e_prober.Models.States.{RunResult}
use xray_e2e_prober.Models.Config.{AppConfig, EntryRecord, SourceGeneration, CheckDefinition}
use xray_e2e_prober.Assignments.Resolve.{Matching}
use xray_e2e_prober.Inventory.Compile.{CompiledCheck, InventoryError}
use xray_e2e_prober.Identity.Registry.{CandidateIdentity, IdentityBinding, Registry}

-- The exceptions of a refresh, by what becomes of them.
pub data RefreshError : Type 0 where
  source_fetch source_parse unsupported : RefreshError
  stopping no_config unknown_source needs_reconciliation no_manager : RefreshError
  missing_revision revision_changed : RefreshError
  effective_config runtime_failed : RefreshError
  capacity : InventoryError → RefreshError
  unexpected : RefreshError

-- `status.reason` for an exception: its own reason, that of its class, or "internal".
abbrev pub reason_of : RefreshError → String
reason_of source_fetch = "source_fetch"
reason_of source_parse = "source_parse"
reason_of unsupported = "unsupported"
reason_of (capacity e) = "config_invalid"
reason_of unexpected = "internal"
reason_of _ = "identity_conflict"

pub record SourceStatus : Type 0 where
  pub refresh_success : Option Bool
  pub last_success_timestamp : ℕ
  pub last_attempt_timestamp : ℕ
  pub reason : Option String
  pub candidate_count : Option ℕ

-- `SourceStatus(source_id)`
abbrev pub new_status : SourceStatus
new_status = record {
  refresh_success = none;
  last_success_timestamp = 0;
  last_attempt_timestamp = 0;
  reason = none;
  candidate_count = none;
}

-- What the running parts were last told: the runtime pool and the scheduler, where they are there.
pub record Executor : Type 0 where
  pub pool : Option (List CheckDefinition)
  pub scheduled : Option (List CheckDefinition)
  pub scheduler_stopped : Bool

pub record Service : Type 0 where
  pub config : Option AppConfig
  pub identity : Registry
  pub generations : Dict SourceGeneration
  pub inventory : Dict CompiledCheck
  pub results : Dict RunResult
  pub source_status : Dict SourceStatus
  pub executor : Executor
  pub store : Dict (SourceGeneration × List IdentityBinding)
  pub has_manager : Bool
  pub is_stopping : Bool
  pub ready : Bool
  pub schedule_enabled : Bool

-- An imported entry: what identifies it, and `to_entry_record` of the whole of it.
pub record Candidate : Type 0 where
  pub identity : CandidateIdentity
  pub to_entry_record : String → String → EntryRecord

-- How a publication ends: with the pointer renamed, or with an exception before or after that.
pub data Publication : Type 0 where
  done failed_before failed_after : Publication

-- What a refresh meets.
pub record Events : Type 0 where
  pub now : ℕ
  pub fetched : Result RefreshError (List Candidate)
  pub allow_empty : Bool
  pub fresh_preview : ℕ → String
  pub fresh : ℕ → String
  pub generation_id : String
  pub validate_for : CompiledCheck → Result RefreshError (Unit {0})
  pub first_publication : Publication
  pub second_publication : Publication
  pub store_readable : Bool
  pub pool_fails : Bool
  pub prune_fails : Bool
  pub update_fails : Bool

-- What does not change: matching, hashing, the revision of a configuration, and the JSON of an entry
-- without its generation.
pub record Library : Type 0 where
  pub matching : Matching
  pub sha256 : List String → String
  pub config_revision : Option AppConfig → Option String
  pub normalized : EntryRecord → String

abbrev pub enabled_definitions : Dict CompiledCheck → List CheckDefinition
enabled_definitions [] = []
enabled_definitions ((id, k) ∷ inventory) =
    let rest = enabled_definitions inventory in
    if k.definition.enabled then k.definition ∷ rest else rest

-- `_scheduled_checks_for`: nothing where a command runs offline.
abbrev pub scheduled_checks : Bool → Dict CompiledCheck → List CheckDefinition
scheduled_checks true inventory = enabled_definitions inventory
scheduled_checks false inventory = []
