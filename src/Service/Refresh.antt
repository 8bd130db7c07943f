-- ===== src/Service/Refresh.antt =====
-- src/xray_e2e_prober/service.py: `refresh_source` and `_validate_inventory`.
use xray_e2e_prober.Base.{
  String, Bool, true, false, not, ◌&&◌, ◌||◌, Option, none, some, List, [], ◌∷◌, map, if◌then◌else◌,
  ◌==◌, string_eq, option_eq, member, length, Dict, lookup, insert, values, Result, ok, err, ◌>>=◌,
  ◌>>◌, reject,
}
use xray_e2e_prober.Models.Config.{
  CheckDefinition, AppConfig, SourceConfig, EntryRecord, SourceGeneration,
}
use xray_e2e_prober.Inventory.Compile.{
  CompiledCheck, InventoryError, Profile, profile_eq, profile_of, compile_inventory,
}
use xray_e2e_prober.Identity.Registry.{Registry, IdentityError, prune_unmatchable_inactive}
use xray_e2e_prober.Identity.Reconcile.{has_conflict, reconcile}
use xray_e2e_prober.Service.State.{
  RefreshError, source_parse, stopping, no_config, unknown_source, needs_reconciliation, no_manager,
  capacity, unexpected, reason_of, SourceStatus, new_status, Service, Candidate, Events, Library,
}
use xray_e2e_prober.Service.Commit.{Accepted, status_of, commit_source_state}

-- An error of the registry is no `ServiceError`: nothing catches it but the last clause.
abbrev pub or_unexpected : {A : Type 0} → Result IdentityError A → Result RefreshError A
or_unexpected (ok a) = ok a
or_unexpected (err e) = err unexpected

abbrev pub or_capacity : {A : Type 0} → Result InventoryError A → Result RefreshError A
or_capacity (ok a) = ok a
or_capacity (err e) = err (capacity e)

abbrev pub is_empty : List Candidate → Bool
is_empty [] = true
is_empty (c ∷ candidates) = false

-- `reconciliation.entry_id_for(candidate_id)`
abbrev pub entry_id_for : Option String → Result RefreshError String
entry_id_for none = err unexpected
entry_id_for (some id) = ok id

abbrev pub cons_entry :
    EntryRecord → Result RefreshError (List EntryRecord) → Result RefreshError (List EntryRecord)
cons_entry e (ok entries) = ok (e ∷ entries)
cons_entry e (err problem) = err problem

-- The entries of a generation.
unfoldable pub entries_of :
    Dict String → String → List Candidate → Result RefreshError (List EntryRecord)
entries_of assignments generation [] = ok []
entries_of assignments generation (c ∷ candidates) =
    entry_id_for (lookup c.identity.candidate_id assignments) >>= λ id.
    cons_entry (c.to_entry_record id generation) (entries_of assignments generation candidates)

abbrev pub same_texts : List String → List String → Bool
same_texts [] [] = true
same_texts (a ∷ texts) (b ∷ others) = a == b && same_texts texts others
same_texts _ _ = false

abbrev pub is_other : Option String → CheckDefinition → Bool
is_other none d = false
is_other (some source_id) d = not (d.source_id == source_id)

-- `_validate_inventory`: each profile of the enabled checks once, in order, of one source or of all.
unfoldable pub validate_checks :
    (CompiledCheck → Result RefreshError (Unit {0}))
    → Option String
    → List Profile
    → List CompiledCheck
    → Result RefreshError (Unit {0})
validate_checks validate_for source_id validated [] = ok tt
validate_checks validate_for source_id validated (k ∷ checks) =
    let skip = validate_checks validate_for source_id validated checks in
    let more =
      validate_for k >> validate_checks validate_for source_id (profile_of k ∷ validated) checks in
    if not k.definition.enabled
      || is_other source_id k.definition
      || member (profile_of k) validated
    then skip
    else more

module _ (lib : Library) (source_id : String) (ev : Events) where
  -- `_entries_equal`
  abbrev pub entries_equal : List EntryRecord → List EntryRecord → Bool
  entries_equal previous entries =
      same_texts (map lib.normalized previous) (map lib.normalized entries)

  abbrev pub comparison_id : Option SourceGeneration → String
  comparison_id none = ev.generation_id
  comparison_id (some g) = g.generation

  abbrev pub is_unchanged : Option SourceGeneration → List EntryRecord → Bool
  is_unchanged none entries = false
  is_unchanged (some g) entries = entries_equal g.entries entries

  abbrev pub kept : Service → Registry → SourceGeneration → Accepted
  kept s registry g = record {
    generation = g;
    registry = registry;
    generations = s.generations;
    inventory = s.inventory;
    reconcile_executor = false;
  }

  abbrev pub configured : Option AppConfig → Result RefreshError AppConfig
  configured none = err no_config
  configured (some c) = ok c

  -- A changed source: its new generation, the inventory with it, and its validation.
  unfoldable pub renewed :
      Service → Registry → Dict String → List Candidate → Result RefreshError Accepted
  renewed s registry assignments candidates = do
    entries ← entries_of assignments ev.generation_id candidates
    let generation : SourceGeneration = record { generation = ev.generation_id; entries = entries }
    let generations = insert source_id generation s.generations
    config ← configured s.config
    inventory ← or_capacity (compile_inventory lib.matching lib.sha256 config generations)
    reject (not s.has_manager) no_manager
    validate_checks ev.validate_for (some source_id) [] (values inventory)
    ok record {
      generation = generation;
      registry = registry;
      generations = generations;
      inventory = inventory;
      reconcile_executor = true;
    }

  abbrev pub kept_or_renewed :
      Service
      → Registry
      → Dict String
      → List Candidate
      → List EntryRecord
      → Option SourceGeneration
      → Result RefreshError Accepted
  kept_or_renewed s registry assignments candidates entries none =
      renewed s registry assignments candidates
  kept_or_renewed s registry assignments candidates entries (some g) =
      if entries_equal g.entries entries
      then ok (kept s registry g)
      else renewed s registry assignments candidates

  -- From the candidates to what is to be accepted: first a reconciliation that changes nothing, then
  -- one of a copy of the registry, which is pruned.
  unfoldable pub prepare : Service → List Candidate → Result RefreshError Accepted
  prepare s candidates = do
    let identities = map (λ c. c.identity) candidates
    reject (is_empty candidates && not ev.allow_empty) source_parse
    preview ← or_unexpected (reconcile ev.fresh_preview source_id identities false s.identity)
    reject (has_conflict preview.1.conflicts) needs_reconciliation
    applied ← or_unexpected (reconcile ev.fresh source_id identities true s.identity)
    let registry = (prune_unmatchable_inactive applied.0).0
    let current = lookup source_id s.generations
    entries ← entries_of applied.1.assignments (comparison_id current) candidates
    kept_or_renewed s registry applied.1.assignments candidates entries current

  abbrev pub failed : RefreshError → SourceStatus → SourceStatus
  failed e status = record status { refresh_success = some false; reason = some (reason_of e) }

  abbrev pub set_status : SourceStatus → Service → Service
  set_status status s = record s { source_status = insert source_id status s.source_status }

  -- The `except` clauses: a refresh that raises changes nothing but its status.
  abbrev pub caught : SourceStatus → Service × Option RefreshError → Service
  caught status (s, none) = s
  caught status (s, some e) = set_status (failed e status) s

  abbrev pub accept : SourceStatus → Service → Result RefreshError Accepted → Service
  accept status s (err e) = set_status (failed e status) s
  accept status s (ok a) = caught status (commit_source_state lib source_id a ev status s)

  -- What follows the fetch.
  abbrev pub refreshed : SourceStatus → Service → Result RefreshError (List Candidate) → Service
  refreshed status s (err e) = set_status (failed e status) s
  refreshed status s (ok candidates) =
      accept (record status { candidate_count = some (length candidates) }) s (prepare s candidates)

  unfoldable pub is_configured : List SourceConfig → Bool
  is_configured [] = false
  is_configured (c ∷ sources) = c.source_id == source_id || is_configured sources

  abbrev pub check_source : Option AppConfig → Result RefreshError (Unit {0})
  check_source none = err no_config
  check_source (some c) = reject (not (is_configured c.sources)) unknown_source

  -- `refresh_source`
  unfoldable pub refresh_source : Service → Result RefreshError Service
  refresh_source s = do
    reject s.is_stopping stopping
    check_source s.config
    let status = status_of (lookup source_id s.source_status) new_status
    ok (refreshed (record status { last_attempt_timestamp = ev.now }) s ev.fetched)
