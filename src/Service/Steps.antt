-- ===== src/Service/Steps.antt =====
-- The steps of the service between its awaits, and what holds through them. Refreshes, mappings by hand
-- and new configurations exclude one another by a lock; what `execute` and the scheduler do to the
-- results may come between any two steps of these.
use xray_e2e_prober.Base.{
  ℕ, String, ◌≡◌, refl, subst, sym, Bool, true, false, Option, some, List, [], ◌∷◌, ◌==◌, string_eq,
  option_eq, All, map_All, Dict, lookup, insert, Bool-cases, inl, inr, ◌⊎◌, Result, ok,
}
use xray_e2e_prober.Models.States.{ReachabilityState, Reason, RunResult}
use xray_e2e_prober.Models.Config.{AppConfig, EntryRecord, SourceGeneration}
use xray_e2e_prober.Inventory.Compile.{CompiledCheck}
use xray_e2e_prober.Identity.Registry.{Registry}
use xray_e2e_prober.Service.State.{RefreshError, SourceStatus, Service, Candidate, Events, Library}
use xray_e2e_prober.Service.Commit.{
  Accepted, publish, activate, drop_obsolete_results, reconcile_executor,
}
use xray_e2e_prober.Service.Refresh.{set_status, kept_or_renewed}
use xray_e2e_prober.Service.Results.{
  Execution, Run, unsaved, store_result, persistence_failed, scheduler_error, apply_config,
}
use xray_e2e_prober.Service.Consistent.{IsConsistent, kept_or_renewed-IsPrepared}
use xray_e2e_prober.Service.Atomic.{publish_store}
use xray_e2e_prober.Service.Current.{
  IsHeld, current_results-AreHeld, Adds, store_result-Adds, scheduler_error-Adds,
  apply_config-IsSound,
}

-- An error of the prober itself, without any observation.
abbrev pub IsEmptyError : RunResult → Type 0
IsEmptyError r =
    (r.state ≡ ReachabilityState.error)
    × (r.reason ≡ some Reason.internal)
    × (r.target_results ≡ [])
    × (r.egress_results ≡ [])

abbrev pub AreHeldOrErrors : Option String → Dict CompiledCheck → Dict RunResult → Type 0
AreHeldOrErrors revision inventory results =
    All (λ (e : String × RunResult). IsHeld revision inventory e.0 e.1 ⊎ IsEmptyError e.1) results

insert_All :
    (P : String × RunResult → Type 0) (id : String) (r : RunResult) (results : Dict RunResult)
    → P (id, r)
    → All P results
    → All P (insert id r results)
unfolding insert
insert_All P id r [] new old = (new, tt)
insert_All P id r ((j, w) ∷ results) new old = elim (Bool-cases (j == id)) [
  | inl same ↦ rw same (new, old.1)
  | inr other ↦ rw other (old.0, insert_All P id r results new old.1)
]

-- The service, and whether a commit has swapped its view and not yet dropped the obsolete results.
abbrev pub Moment : Type 0
Moment = Service × Bool

module _ (lib : Library) where
  -- What `execute` and the scheduler do at any time, and the steps of a commit and of `_apply_config`.
  pub data Step : Moment → Moment → Type 0 where
    executed :
        (run : Run) (execution : Execution) (now : ℕ) (s : Service) (b : Bool)
        → Step (s, b) ((store_result lib run execution now s).0, b)
    not_saved :
        (id : String) (now : ℕ) (r : RunResult) (s : Service) (b : Bool)
        → Step (s, b) ((persistence_failed id now r s).0, b)
    errored :
        (id generation reason run_id : String) (now : ℕ) (s : Service) (b : Bool)
        → Step (s, b) (scheduler_error lib id generation reason run_id now s, b)
    noted :
        (source_id : String) (ev : Events) (status : SourceStatus) (s : Service) (b : Bool)
        → Step (s, b) (set_status lib source_id ev status s, b)
    publishes :
        (source_id : String) (ev : Events) (a : Accepted) (s : Service)
        → Step (s, false) (publish source_id a ev s, false)
    activates :
        (source_id : String) (ev : Events) (status : SourceStatus) (registry : Registry)
        (assignments : Dict String) (candidates : List Candidate) (entries : List EntryRecord)
        (current : Option SourceGeneration) (a : Accepted) (s : Service)
        → lookup source_id s.generations ≡ current
        → kept_or_renewed lib source_id ev s registry assignments candidates entries current ≡ ok a
        → Step (s, false) (activate source_id a ev status s, a.reconcile_executor)
    reconciles : (ev : Events) (s : Service) → Step (s, true) (reconcile_executor lib ev s, false)
    configured :
        (validate_for : CompiledCheck → Result RefreshError (Unit {0})) (c : AppConfig)
        (s t : Service)
        → apply_config lib validate_for c s ≡ ok t
        → Step (s, false) (t, false)

  pub data Reach : Moment → Moment → Type 0 where
    start : (m : Moment) → Reach m m
    next : (m n o : Moment) → Step m n → Reach n o → Reach m o

  -- Outside a commit the results are those of current checks, or errors without an observation.
  abbrev pub IsSettled : Service → Bool → Type 0
  IsSettled s true = Unit {0}
  IsSettled s false = AreHeldOrErrors (lib.config_revision s.config) s.inventory s.results

  abbrev pub SomeSound : Moment → Type 0
  SomeSound m = (c : AppConfig) × IsConsistent lib c m.0 × IsSettled m.0 m.1

  inserted-IsSettled :
      (id : String) (r : RunResult) (s : Service) (b : Bool)
      → IsHeld (lib.config_revision s.config) s.inventory id r ⊎ IsEmptyError r
      → IsSettled s b
      → IsSettled (record s { results = insert id r s.results }) b
  inserted-IsSettled id r s true new old = tt
  inserted-IsSettled id r s false new old = insert_All _ id r s.results new old

  Adds-SomeSound : (s t : Service) (b : Bool) → Adds lib s t → SomeSound (s, b) → SomeSound (t, b)
  Adds-SomeSound s t b (inl same) v = subst (λ x. SomeSound (x, b)) same v
  Adds-SomeSound s t b (inr (id, r, same, held)) (c, v, old) =
      subst (λ x. SomeSound (x, b)) same (c, v, inserted-IsSettled id r s b (inl held) old)

  other_part :
      (s : Service) (b : Bool) (status : Dict SourceStatus)
      → IsSettled s b
      → IsSettled (record s { source_status = status }) b
  other_part s true status old = tt
  other_part s false status old = old

  activated-IsSettled :
      (source_id : String) (ev : Events) (status : SourceStatus) (a : Accepted) (s : Service)
      (b : Bool)
      → a.reconcile_executor ≡ b
      → (a.reconcile_executor ≡ true) ⊎ (a.inventory ≡ s.inventory)
      → IsSettled s false
      → IsSettled (activate source_id a ev status s) b
  unfolding activate
  activated-IsSettled source_id ev status a s true e told old = tt
  activated-IsSettled source_id ev status a s false e (inl loud) old = cc (loud, e)
  activated-IsSettled source_id ev status a s false e (inr same) old =
      subst (λ x. AreHeldOrErrors (lib.config_revision s.config) x s.results) (sym same) old

  Step-SomeSound : (m n : Moment) → Step m n → SomeSound m → SomeSound n
  unfolding persistence_failed reconcile_executor drop_obsolete_results
  Step-SomeSound _ _ (executed run execution now s b) v =
      Adds-SomeSound s _ b (store_result-Adds lib run execution now s) v
  Step-SomeSound _ _ (not_saved id now r s b) (c, v, old) =
      (c, v, inserted-IsSettled id (unsaved now r) s b (inr (refl, refl, refl, refl)) old)
  Step-SomeSound _ _ (errored id generation reason run_id now s b) v =
      Adds-SomeSound s _ b (scheduler_error-Adds lib id generation reason run_id now s) v
  Step-SomeSound _ _ (noted source_id ev status s b) (c, v, old) =
      (c, v, other_part s b (insert source_id status s.source_status) old)
  Step-SomeSound _ _ (publishes source_id ev a s) v =
      let (st, same) = publish_store source_id a ev s in
      subst (λ x. SomeSound (x, false)) (sym same) v
  Step-SomeSound _ _
        (activates source_id ev status registry assignments candidates entries current a s there e)
        (c, v, old) =
      let w =
        kept_or_renewed-IsPrepared lib source_id ev c s v.0 registry assignments candidates entries
          current a v.1 there e in
      (
        c,
        unfold activate in (v.0, w.compiled),
        activated-IsSettled source_id ev status a s a.reconcile_executor refl w.told old,
      )
  Step-SomeSound _ _ (reconciles ev s) (c, v, old) = (
    c,
    v,
    map_All (λ (e : String × RunResult). IsHeld (lib.config_revision s.config) s.inventory e.0 e.1)
        _ _ (λ e h. inl h)
        (current_results-AreHeld lib (lib.config_revision s.config) s.inventory s.results),
  )
  Step-SomeSound _ _ (configured validate_for c s t e) v =
      let (w, held) = apply_config-IsSound lib validate_for c s t e in
      (
        c,
        w,
        map_All
            (λ (x : String × RunResult). IsHeld (lib.config_revision t.config) t.inventory x.0 x.1)
            _ _ (λ x h. inl h) held,
      )

  -- Through executions, persistences that fail later, errors of the scheduler, the steps of refreshes
  -- and of mappings by hand, and new configurations, in any order that the lock of the mutations
  -- allows: where the service had a configuration and an inventory compiled from it and its
  -- generations, it has so afterwards. And where, outside a commit, each result was one of a check of
  -- this inventory, with the generation of its check and the revision of the configuration, or an
  -- internal error without any observation, this is so outside every later commit.
  pub Reach-IsSound : (m n : Moment) → Reach m n → SomeSound m → SomeSound n
  Reach-IsSound m _ (start _) v = v
  Reach-IsSound m o (next _ n _ step more) v = Reach-IsSound n o more (Step-SomeSound m n step v)
