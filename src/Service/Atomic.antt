-- ===== src/Service/Atomic.antt =====
-- What a refresh does to the state that the service accepted.
use xray_e2e_prober.Base.{
  String, ◌≡◌, refl, ap, ◌∙◌, subst, Bool, true, false, Option, none, some, List, if◌then◌else◌,
  string_eq, length, Dict, lookup, insert, lookup-insert, beq_refl, Bool-cases, Result-cases, inl,
  inr, ◌⊎◌, Result, ok, err, reject, >>=-eq-ok, arith,
}
use xray_e2e_prober.Models.States.{RunResult}
use xray_e2e_prober.Identity.Registry.{bindings_of}
use xray_e2e_prober.Service.State.{
  RefreshError, unexpected, SourceStatus, Service, Publication, done, failed_before, failed_after,
  Events, Library, Candidate, new_status, stopping,
}
use xray_e2e_prober.Service.Pointers.{Pointer, same_pointer_iff}
use xray_e2e_prober.Service.Commit.{
  Accepted, is_raised, published, publish, is_there_as, is_visible, is_unpublished, activate,
  reconcile_executor, current_results, drop_obsolete_results, succeeded, status_of,
  commit_source_state,
}
use xray_e2e_prober.Service.Refresh.{
  failed, set_status, refreshed, check_source, prepare, refresh_source,
}

abbrev pub success_of : Option SourceStatus → Option Bool
success_of none = none
success_of (some status) = status.refresh_success

-- The accepted state, what is done with it, and the results are as before; the refresh failed.
pub record Keeps (source_id : String) (s s' : Service) : Type 0 where
  pub identity : s'.identity ≡ s.identity
  pub generations : s'.generations ≡ s.generations
  pub inventory : s'.inventory ≡ s.inventory
  pub results : s'.results ≡ s.results
  pub executor : s'.executor ≡ s.executor
  pub ready : s'.ready ≡ s.ready
  pub config : s'.config ≡ s.config
  pub status : success_of (lookup source_id s'.source_status) ≡ some false

-- The results of the state after: those of current checks, where the executor was told.
abbrev pub taken_results : Library → Accepted → Service → Dict RunResult
taken_results lib a s =
    if a.reconcile_executor
    then current_results lib (lib.config_revision s.config) a.inventory s.results
    else s.results

pub taken_results_same :
    (lib : Library) (a : Accepted) (p s : Service)
    → p.config ≡ s.config
    → p.results ≡ s.results
    → taken_results lib a p ≡ taken_results lib a s
taken_results_same lib a p s config results =
    ap (λ x. taken_results lib a (record p { config = x })) config
    ∙ ap (λ x. taken_results lib a (record p { config = s.config; results = x })) results

-- The accepted state is the given one as a whole, the store has the pointer to it, and the refresh
-- succeeded.
pub record Takes (lib : Library) (source_id : String) (a : Accepted) (s s' : Service) : Type 0 where
  pub identity : s'.identity ≡ a.registry
  pub generations : s'.generations ≡ a.generations
  pub inventory : s'.inventory ≡ a.inventory
  pub config : s'.config ≡ s.config
  pub results : s'.results ≡ taken_results lib a s
  pub stored : lookup source_id s'.store ≡ some (a.generation, bindings_of source_id a.registry)
  pub status : success_of (lookup source_id s'.source_status) ≡ some true

lookup-insert_self :
    {V : Type 0} (k : String) (v : V) (m : Dict V) → lookup k (insert k v m) ≡ some v
lookup-insert_self k v m = rw (lookup-insert k k v m, beq_refl k) refl

module _ (source_id : String) (a : Accepted) where
  abbrev pointer : Pointer
  pointer = (a.generation, bindings_of source_id a.registry)

  -- Unless both attempts raise before the pointer is renamed, it is there.
  published_stored :
      (p q : Publication) (s : Service)
      → (lookup source_id
            (if is_raised p
              then published source_id a q (published source_id a p s)
              else published source_id a p s).store
          ≡ some pointer)
        ⊎ ((is_raised p ≡ true) × (is_raised q ≡ true))
  unfolding published
  published_stored done q s = inl (lookup-insert_self source_id _ s.store)
  published_stored failed_after done s = inl (lookup-insert_self source_id _ _)
  published_stored failed_after failed_after s = inl (lookup-insert_self source_id _ _)
  published_stored failed_after failed_before s = inl (lookup-insert_self source_id _ s.store)
  published_stored failed_before done s = inl (lookup-insert_self source_id _ s.store)
  published_stored failed_before failed_after s = inl (lookup-insert_self source_id _ s.store)
  published_stored failed_before failed_before s = inr (refl, refl)

  visible_stored : (o : Option Pointer) → is_there_as pointer o ≡ true → o ≡ some pointer
  visible_stored none h = cc (h)
  visible_stored (some p) h = ap some ((same_pointer_iff p pointer).0 h)

  publish_stored :
      (ev : Events) (s : Service)
      → is_unpublished source_id a ev (publish source_id a ev s) ≡ false
      → lookup source_id (publish source_id a ev s).store ≡ some pointer
  unfolding is_unpublished is_visible
  publish_stored ev s h = elim (published_stored ev.first_publication ev.second_publication s) [
    | inl there ↦ unfold publish in there
    | inr (first, second) ↦
        let seen = rw (first, second) at h in
        visible_stored (lookup source_id (publish source_id a ev s).store) (ground (arith, seen))
  ]

  -- A publication changes nothing but the store.
  pub publish_store :
      (ev : Events) (s : Service)
      → (st : Dict Pointer) × (publish source_id a ev s ≡ record s { store = st })
  unfolding publish published
  publish_store ev s = by_attempts ev.first_publication ev.second_publication
    where
      by_attempts :
          (p q : Publication)
          → (st : Dict Pointer) × ((if is_raised p
                then published source_id a q (published source_id a p s)
                else published source_id a p s)
              ≡ record s { store = st })
      by_attempts done q = (_, refl)
      by_attempts failed_after done = (_, refl)
      by_attempts failed_after failed_after = (_, refl)
      by_attempts failed_after failed_before = (_, refl)
      by_attempts failed_before done = (_, refl)
      by_attempts failed_before failed_after = (_, refl)
      by_attempts failed_before failed_before = (s.store, refl)

module _ (lib : Library) (source_id : String) (ev : Events) where
  -- A commit either raises and changes nothing but the store, or takes what was prepared.
  pub commit_outcome :
      (a : Accepted) (status : SourceStatus) (s : Service)
      → ((st : Dict Pointer) × (commit_source_state lib source_id a ev status s
            ≡ (record s { store = st }, some unexpected)))
        ⊎ ((s' : Service) × (commit_source_state lib source_id a ev status s ≡ (s', none))
            × Takes lib source_id a s s')
  unfolding commit_source_state
  commit_outcome a status s =
      let (st, same) = publish_store source_id a ev s in
      elim (Bool-cases (is_unpublished source_id a ev (publish source_id a ev s))) [
        | inl raised ↦ inl (st, rw raised (ap (λ x. (x, some unexpected)) same))
        | inr fine ↦
            let there = publish_stored source_id a ev s fine in
            inr (
              (if a.reconcile_executor
                  then reconcile_executor lib ev
                      (activate source_id a ev status (publish source_id a ev s))
                  else activate source_id a ev status (publish source_id a ev s)),
              rw fine refl,
              taken a.reconcile_executor (publish source_id a ev s) refl there
                  (ap (λ x. x.config) same) (ap (λ x. x.results) same),
            )
      ]
    where
      taken :
          (b : Bool) (p : Service)
          → a.reconcile_executor ≡ b
          → lookup source_id p.store ≡ some (a.generation, bindings_of source_id a.registry)
          → p.config ≡ s.config
          → p.results ≡ s.results
          → Takes lib source_id a s (
              if b
              then reconcile_executor lib ev (activate source_id a ev status p)
              else activate source_id a ev status p)
      taken true p told there config results =
          unfold reconcile_executor drop_obsolete_results activate in
          record {
            identity = refl;
            generations = refl;
            inventory = refl;
            config = config;
            results = (rw told refl) ∙ taken_results_same lib a p s config results;
            stored = there;
            status =
                ap success_of
                  (lookup-insert_self source_id (succeeded ev.now status) p.source_status);
          }
      taken false p told there config results =
          unfold activate in
          record {
            identity = refl;
            generations = refl;
            inventory = refl;
            config = config;
            results = (rw told refl) ∙ taken_results_same lib a p s config results;
            stored = there;
            status =
                ap success_of
                  (lookup-insert_self source_id (succeeded ev.now status) p.source_status);
          }

  failed-Keeps :
      (e : RefreshError) (status : SourceStatus) (st : Dict Pointer) (s : Service)
      → Keeps source_id s
          (set_status lib source_id ev (failed lib source_id ev e status) (record s { store = st }))
  failed-Keeps e status st s = record {
    identity = refl;
    generations = refl;
    inventory = refl;
    results = refl;
    executor = refl;
    ready = refl;
    config = refl;
    status =
        ap success_of
          (lookup-insert_self source_id (failed lib source_id ev e status) s.source_status);
  }

  abbrev pub Outcome : Service → Service → Type 0
  Outcome s s' =
      Keeps source_id s s'
      ⊎ ((candidates : List Candidate) × (a : Accepted) × (ev.fetched ≡ ok candidates)
          × (prepare lib source_id ev s candidates ≡ ok a)
          × Takes lib source_id a s s')

  refreshed_outcome :
      (status : SourceStatus) (s : Service) (fetched : Result RefreshError (List Candidate))
      → ev.fetched ≡ fetched
      → Outcome s (refreshed lib source_id ev status s fetched)
  refreshed_outcome status s (err e) found = inl (failed-Keeps e status s.store s)
  refreshed_outcome status s (ok candidates) found =
      let counted = record status { candidate_count = some (length candidates) } in
      elim (Result-cases (prepare lib source_id ev s candidates)) [
        | inr (e, failing) ↦ inl (rw failing (failed-Keeps e counted s.store s))
        | inl (a, ready) ↦ elim (commit_outcome a counted s) [
          | inl (st, raised) ↦ inl (rw (ready, raised) (failed-Keeps unexpected counted st s))
          | inr (s', same, takes) ↦ inr (candidates, a, found, ready, rw (ready, same) takes)
        ]
      ]

  -- A refresh that is not refused at once, because the service stops or does not know the source,
  -- returns in one of two states. Either it failed, and the registry, the generations, the inventory,
  -- the results and what runs are as before; or candidates were fetched and prepared, and the registry,
  -- the generations and the inventory are those that were prepared, all three, with the pointer to them
  -- in the store.
  pub refresh_source_atomic :
      (s s' : Service) → refresh_source lib source_id ev s ≡ ok s' → Outcome s s'
  unfolding refresh_source
  refresh_source_atomic s s' e =
      let (_, _, e1) = >>=-eq-ok (reject s.is_stopping stopping) _ e in
      let (_, _, e2) = >>=-eq-ok (check_source lib source_id ev s.config) _ e1 in
      let status = record (status_of (lookup source_id s.source_status) new_status) {
        last_attempt_timestamp = ev.now;
      } in
      subst (Outcome s) (ground (arith, e2)) (refreshed_outcome status s ev.fetched refl)
