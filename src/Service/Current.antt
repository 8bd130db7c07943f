-- ===== src/Service/Current.antt =====
-- The results that the service holds are of the generation and the configuration that it has.
use xray_e2e_prober.Base.{
  ℕ, String, ◌≡◌, refl, subst, true, false, not, ◌||◌, Option, none, some, [], ◌∷◌, ◌==◌, beq_refl,
  string_eq, option_eq, All, Dict, lookup, insert, values, Bool-cases, inl, inr, ◌⊎◌, Result, ok,
  >>=-eq-ok, arith,
}
use xray_e2e_prober.Models.States.{Reason, RunResult}
use xray_e2e_prober.Models.Config.{AppConfig, source_ids}
use xray_e2e_prober.Inventory.Compile.{CompiledCheck, compile_inventory}
use xray_e2e_prober.Service.State.{RefreshError, Service, Library}
use xray_e2e_prober.Service.Commit.{is_obsolete, current_results, drop_obsolete_results}
use xray_e2e_prober.Service.Refresh.{or_capacity, validate_checks}
use xray_e2e_prober.Service.Results.{
  scheduler_reason, Execution, Run, run_result, is_current, store_result, reported, scheduler_error,
  kept_generations, activate_config, apply_config,
}
use xray_e2e_prober.Service.Consistent.{IsConsistent, capacity_ok}

-- The result belongs to a check of the inventory, with its generation and the current revision.
pub record IsHeld (revision : Option String) (inventory : Dict CompiledCheck) (id : String)
    (r : RunResult) : Type 0 where
  pub check : CompiledCheck
  pub found : lookup id inventory ≡ some check
  pub generation : (check.definition.generation == r.generation) ≡ true
  pub same_revision : (r.config_revision == revision) ≡ true

abbrev pub AreHeld : Option String → Dict CompiledCheck → Dict RunResult → Type 0
AreHeld revision inventory results =
    All (λ (e : String × RunResult). IsHeld revision inventory e.0 e.1) results

abbrev pub IsCurrent : Library → Service → Type 0
IsCurrent lib s = AreHeld (lib.config_revision s.config) s.inventory s.results

-- The configuration, the inventory compiled from it and the generations, and the results of its checks.
abbrev pub IsSound : Library → AppConfig → Service → Type 0
IsSound lib c s = IsConsistent lib c s × IsCurrent lib s

module _ (lib : Library) where
  IsHeld-kept :
      (revision : Option String) (inventory : Dict CompiledCheck) (id : String) (r : RunResult)
      (check : Option CompiledCheck)
      → lookup id inventory ≡ check
      → is_obsolete lib revision check r ≡ false
      → IsHeld revision inventory id r
  IsHeld-kept revision inventory id r none e h = cc (h)
  IsHeld-kept revision inventory id r (some k) e h = record {
    check = k;
    found = e;
    generation = ground (arith, h);
    same_revision = ground (arith, h);
  }

  pub current_results-AreHeld :
      (revision : Option String) (inventory : Dict CompiledCheck) (results : Dict RunResult)
      → AreHeld revision inventory (current_results lib revision inventory results)
  unfolding current_results
  current_results-AreHeld revision inventory [] = tt
  current_results-AreHeld revision inventory ((id, r) ∷ results) =
      let rest = current_results-AreHeld revision inventory results in
      elim (Bool-cases (is_obsolete lib revision (lookup id inventory) r)) [
        | inl old ↦ rw old rest
        | inr new ↦
            rw new (IsHeld-kept revision inventory id r (lookup id inventory) refl new, rest)
      ]

  -- The later state is the same, or it has one more result, which is held.
  abbrev pub Adds : Service → Service → Type 0
  Adds s t =
      (s ≡ t)
      ⊎ ((id : String) × (r : RunResult) × (record s { results = insert id r s.results } ≡ t)
          × IsHeld (lib.config_revision s.config) s.inventory id r)

  is_current-IsHeld :
      (config : Option AppConfig) (inventory : Dict CompiledCheck) (id : String) (r : RunResult)
      (check : Option CompiledCheck)
      → lookup id inventory ≡ check
      → is_current lib check r config ≡ true
      → IsHeld (lib.config_revision config) inventory id r
  is_current-IsHeld config inventory id r none e h = cc (h)
  is_current-IsHeld config inventory id r (some k) e h = record {
    check = k;
    found = e;
    generation = ground (arith, h);
    same_revision = ground (arith, h);
  }

  pub store_result-Adds :
      (run : Run) (execution : Execution) (now : ℕ) (s : Service)
      → Adds s (store_result lib run execution now s).0
  unfolding store_result
  store_result-Adds run execution now s =
      let r = run_result run now execution in
      let id = run.check.definition.check_id in
      elim (Bool-cases (is_current lib (lookup id s.inventory) r s.config)) [
        | inr other ↦ rw other (inl refl)
        | inl now_is ↦
            let held =
              is_current-IsHeld s.config s.inventory id r (lookup id s.inventory) refl now_is in
            rw now_is (inr (id, r, refl, held))
      ]

  reported-Adds :
      (s : Service) (id generation : String) (reason : Reason) (run_id : String) (now : ℕ)
      (check : Option CompiledCheck) (config : Option AppConfig)
      → lookup id s.inventory ≡ check
      → s.config ≡ config
      → Adds s (reported lib s id generation reason run_id now check config)
  reported-Adds s id generation reason run_id now none config e e' = inl refl
  reported-Adds s id generation reason run_id now (some k) none e e' = inl refl
  reported-Adds s id generation reason run_id now (some k) (some c) e e' =
      elim (Bool-cases (not k.definition.enabled || not (k.definition.generation == generation))) [
        | inl gone ↦ rw gone (inl refl)
        | inr here ↦ rw here (
            inr (
              id,
              _,
              refl,
              record {
                check = k;
                found = e;
                generation = beq_refl k.definition.generation;
                same_revision = rw e' (beq_refl (lib.config_revision (some c)));
              },
            ))
      ]

  pub scheduler_error-Adds :
      (id generation reason run_id : String) (now : ℕ) (s : Service)
      → Adds s (scheduler_error lib id generation reason run_id now s)
  unfolding scheduler_error
  scheduler_error-Adds id generation reason run_id now s =
      reported-Adds s id generation (scheduler_reason reason) run_id now (lookup id s.inventory)
        s.config refl refl

  -- A configuration that is applied leaves the service with it, with the inventory compiled from it
  -- and the generations, and with results of this configuration and inventory only, whatever the
  -- service was before.
  pub apply_config-IsSound :
      (validate_for : CompiledCheck → Result RefreshError (Unit {0})) (c : AppConfig)
      (s s' : Service)
      → apply_config lib validate_for c s ≡ ok s'
      → IsSound lib c s'
  unfolding apply_config activate_config drop_obsolete_results
  apply_config-IsSound validate_for c s s' e =
      let generations = kept_generations (source_ids c) s.generations in
      let (inventory, compiled, e1) =
        >>=-eq-ok (or_capacity (compile_inventory lib.matching lib.sha256 c generations)) _ e in
      let (_, _, e2) = >>=-eq-ok (validate_checks validate_for none [] (values inventory)) _ e1 in
      let same : activate_config lib c generations inventory s ≡ s' = ground (arith, e2) in
      subst (λ (x : Service). IsSound lib c x) same
        (
          (refl, record { compiled = capacity_ok _ compiled }),
          current_results-AreHeld (lib.config_revision (some c)) inventory s.results,
        )
