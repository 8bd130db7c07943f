-- ===== src/Service/Manual.antt =====
-- src/xray_e2e_prober/service.py: `reconcile_source`, which accepts a mapping made by hand, and what it
-- does to the accepted state. A call that raises returns the error with the state that it leaves.
use xray_e2e_prober.Base.{
  String, ◌≡◌, refl, ◌∙◌, Bool, true, not, ◌&&◌, Option, none, some, List, map, ◌==◌, string_eq,
  length, Dict, lookup, Result-cases, inl, inr, ◌⊎◌, Result, ok, err, ◌>>=◌, ◌>>◌, reject,
}
use xray_e2e_prober.Models.Config.{AppConfig, EntryRecord}
use xray_e2e_prober.Identity.Registry.{Registry, ReconciliationResult, prune_unmatchable_inactive}
use xray_e2e_prober.Identity.Manual.{apply_manual_mapping}
use xray_e2e_prober.Service.State.{
  RefreshError, source_parse, missing_revision, revision_changed, stopping, unexpected, new_status,
  Service, Candidate, Events, Library,
}
use xray_e2e_prober.Service.Commit.{Accepted, status_of, commit_source_state}
use xray_e2e_prober.Service.Pointers.{Pointer}
use xray_e2e_prober.Service.Refresh.{
  or_unexpected, is_empty, entries_of, comparison_id, kept_or_renewed, set_status, check_source,
}
use xray_e2e_prober.Service.Atomic.{taken_results_same, Takes, commit_outcome}
use xray_e2e_prober.Service.Consistent.{IsConsistent, IsPrepared, kept_or_renewed-IsPrepared}

-- What identifies a change of the candidates, and which texts are ids.
pub record Review : Type 0 where
  pub candidate_revision : List Candidate → String
  pub is_id : String → Bool

module _ (lib : Library) (review : Review) (source_id : String) (ev : Events)
    (mapping : Dict String) (expected_revision : String) where
  -- The registry after the mapping, its assignments, and the entries to compare.
  unfoldable pub mapped :
      Service
      → List Candidate
      → Result RefreshError (Registry × ReconciliationResult × List EntryRecord)
  mapped s candidates = do
    reject (is_empty candidates && not ev.allow_empty) source_parse
    reject (not (expected_revision == review.candidate_revision candidates)) revision_changed
    applied ← or_unexpected (
        apply_manual_mapping review.is_id source_id (map (λ c. c.identity) candidates) mapping
          s.identity)
    let current = lookup source_id s.generations
    entries ← entries_of applied.1.assignments (comparison_id lib source_id ev current) candidates
    ok ((prune_unmatchable_inactive applied.0).0, applied.1, entries)

  abbrev pub noted : Service → List Candidate → Service
  noted s candidates =
      let status = status_of (lookup source_id s.source_status) new_status in
      set_status lib source_id ev
        (record status {
          last_attempt_timestamp = ev.now;
          candidate_count = some (length candidates);
        })
        s

  abbrev pub accept_manual : Service → Result RefreshError Accepted → Service × Option RefreshError
  accept_manual s (err e) = (s, some e)
  accept_manual s (ok a) =
      commit_source_state lib source_id a ev
        (status_of (lookup source_id s.source_status) new_status) s

  abbrev pub after_mapping :
      Service
      → List Candidate
      → Result RefreshError (Registry × ReconciliationResult × List EntryRecord)
      → Service × Option RefreshError
  after_mapping s candidates (err e) = (s, some e)
  after_mapping s candidates (ok m) = accept_manual (noted s candidates) (
      kept_or_renewed lib source_id ev (noted s candidates) m.0 m.1.assignments candidates m.2
        (lookup source_id s.generations))

  abbrev pub after_fetch :
      Service → Result RefreshError (List Candidate) → Service × Option RefreshError
  after_fetch s (err e) = (s, some e)
  after_fetch s (ok candidates) = after_mapping s candidates (mapped s candidates)

  abbrev pub if_allowed : Service → Result RefreshError (Unit {0}) → Service × Option RefreshError
  if_allowed s (err e) = (s, some e)
  if_allowed s (ok u) = after_fetch s ev.fetched

  abbrev pub may_begin : Service → Result RefreshError (Unit {0})
  may_begin s = do
    reject (expected_revision == "") missing_revision
    reject s.is_stopping stopping
    check_source lib source_id ev s.config

  -- `reconcile_source`
  unfoldable pub reconcile_source : Service → Service × Option RefreshError
  reconcile_source s = if_allowed s (may_begin s)

  -- The accepted state and what is done with it are as before.
  pub record IsUntouched (s s' : Service) : Type 0 where
    pub identity : s'.identity ≡ s.identity
    pub generations : s'.generations ≡ s.generations
    pub inventory : s'.inventory ≡ s.inventory
    pub results : s'.results ≡ s.results
    pub executor : s'.executor ≡ s.executor
    pub config : s'.config ≡ s.config

  same_service : (st : Dict Pointer) (s : Service) → IsUntouched s (record s { store = st })
  same_service st s = record {
    identity = refl;
    generations = refl;
    inventory = refl;
    results = refl;
    executor = refl;
    config = refl;
  }

  -- Raised and untouched, or returned, with a state whose inventory is compiled from its generations.
  abbrev pub ManualOutcome : AppConfig → Service → Service × Option RefreshError → Type 0
  ManualOutcome c s r =
      ((e : RefreshError) × (r.1 ≡ some e) × IsUntouched s r.0)
      ⊎ ((a : Accepted) × (r.1 ≡ none)
          × Takes lib source_id a s r.0
          × IsConsistent lib c r.0
          × (lookup source_id r.0.generations ≡ some a.generation)
          × ((a.reconcile_executor ≡ true) ⊎ (a.inventory ≡ s.inventory)))

  commit_manual :
      (c : AppConfig) (s t : Service) (a : Accepted)
      → IsUntouched s t
      → s.config ≡ some c
      → (tc : t.config ≡ some c) → IsPrepared lib source_id ev c t tc a
      → ManualOutcome c s (accept_manual t (ok a))
  commit_manual c s t a same config tc w =
      elim (commit_outcome lib source_id ev a
        (status_of (lookup source_id t.source_status) new_status) t) [
          | inl (st, raised) ↦ rw raised (
              inl (
                unexpected,
                refl,
                record {
                  identity = same.identity;
                  generations = same.generations;
                  inventory = same.inventory;
                  results = same.results;
                  executor = same.executor;
                  config = same.config;
                },
              ))
          | inr (t', returned, takes) ↦ rw returned (
              inr (
                a,
                refl,
                record {
                  identity = takes.identity;
                  generations = takes.generations;
                  inventory = takes.inventory;
                  config = takes.config ∙ same.config;
                  results = takes.results ∙ taken_results_same lib a t s same.config same.results;
                  stored = takes.stored;
                  status = takes.status;
                },
                (
                  takes.config ∙ same.config ∙ config,
                  record { compiled = rw (takes.generations, takes.inventory) w.compiled.compiled },
                ),
                rw takes.generations w.there,
                elim w.told [
                  | inl told ↦ inl told
                  | inr as_before ↦ inr (as_before ∙ same.inventory)
                ],
              ))
        ]

  accept_outcome :
      (c : AppConfig) (s t : Service) (r : Result RefreshError Accepted)
      → IsUntouched s t
      → s.config ≡ some c
      → (tc : t.config ≡ some c)
      → ((a : Accepted) → r ≡ ok a → IsPrepared lib source_id ev c t tc a)
      → ManualOutcome c s (accept_manual t r)
  accept_outcome c s t (err e) same config tc w = inl (e, refl, same)
  accept_outcome c s t (ok a) same config tc w = commit_manual c s t a same config tc (w a refl)

  mapping_outcome :
      (c : AppConfig) (s : Service) (candidates : List Candidate)
      (m : Result RefreshError (Registry × ReconciliationResult × List EntryRecord))
      → IsConsistent lib c s
      → ManualOutcome c s (after_mapping s candidates m)
  mapping_outcome c s candidates (err e) v = inl (e, refl, same_service s.store s)
  mapping_outcome c s candidates (ok m) v =
      accept_outcome c s (noted s candidates) _
        record {
          identity = refl;
          generations = refl;
          inventory = refl;
          results = refl;
          executor = refl;
          config = refl;
        }
        v.0 v.0
        (λ a e.
          kept_or_renewed-IsPrepared lib source_id ev c (noted s candidates) v.0 m.0 m.1.assignments
            candidates m.2 (lookup source_id s.generations) a v.1 refl e)

  fetch_outcome :
      (c : AppConfig) (s : Service) (r : Result RefreshError (List Candidate))
      → IsConsistent lib c s
      → ManualOutcome c s (after_fetch s r)
  fetch_outcome c s (err e) v = inl (e, refl, same_service s.store s)
  fetch_outcome c s (ok candidates) v = mapping_outcome c s candidates (mapped s candidates) v

  -- Where the inventory of the service is the one compiled from its configuration and generations: a
  -- mapping by hand for a source, whatever is fetched, raises and leaves the accepted state as it
  -- was, or returns after the registry, the generations and the inventory were replaced together, with
  -- the pointer in the store and the inventory compiled from the new generations.
  pub reconcile_source_atomic :
      (c : AppConfig) (s : Service) → IsConsistent lib c s → ManualOutcome c s (reconcile_source s)
  unfolding reconcile_source
  reconcile_source_atomic c s v = elim (Result-cases (may_begin s)) [
    | inr (e, refused) ↦ inl (e, rw refused refl, rw refused (same_service s.store s))
    | inl (u, allowed) ↦ rw allowed (fetch_outcome c s ev.fetched v)
  ]
