-- ===== src/Service/Consistent.antt =====
-- The inventory of the service is always the one compiled from its generations.
use xray_e2e_prober.Base.{
  String, ◌≡◌, refl, ap, ◌∙◌, subst, true, false, not, ◌&&◌, Option, none, some, List, [], map,
  string_eq, Dict, values, lookup, insert, lookup-insert, beq_refl, Bool-cases, inl, inr, ◌⊎◌,
  Result, ok, err, reject, >>=-eq-ok, arith,
}
use xray_e2e_prober.Models.Config.{AppConfig, SourceGeneration, EntryRecord}
use xray_e2e_prober.Inventory.Compile.{CompiledCheck, InventoryError, compile_inventory}
use xray_e2e_prober.Identity.Registry.{Registry, prune_unmatchable_inactive}
use xray_e2e_prober.Identity.Reconcile.{has_conflict, reconcile}
use xray_e2e_prober.Service.State.{
  source_parse, no_manager, needs_reconciliation, Service, Events, Library, Candidate,
}
use xray_e2e_prober.Service.Commit.{Accepted}
use xray_e2e_prober.Service.Refresh.{
  or_unexpected, or_capacity, is_empty, entries_of, validate_checks, entries_equal, comparison_id,
  kept, configured, renewed, kept_or_renewed, prepare, refresh_source,
}
use xray_e2e_prober.Service.Atomic.{refresh_source_atomic}

-- The inventory is compiled from the configuration and the generations.
pub record IsCompiled (lib : Library) (c : AppConfig) (generations : Dict SourceGeneration)
    (inventory : Dict CompiledCheck) : Type 0 where
  pub compiled : compile_inventory lib.matching lib.sha256 c generations ≡ ok inventory

abbrev pub IsConsistent : Library → AppConfig → Service → Type 0
IsConsistent lib c s = (s.config ≡ some c) × IsCompiled lib c s.generations s.inventory

pub capacity_ok :
    {A : Type 0} (r : Result InventoryError A) {x : A} → or_capacity r ≡ ok x → r ≡ ok x
capacity_ok (ok y) h = ap ok (ground (arith, h))
capacity_ok (err e) h = cc (h)

module _ (lib : Library) (source_id : String) (ev : Events) (c : AppConfig) (s : Service)
    (config : s.config ≡ some c) where
  -- What is prepared is compiled, holds its generation, and tells the executor unless it keeps the inventory.
  pub record IsPrepared (a : Accepted) : Type 0 where
    pub compiled : IsCompiled lib c a.generations a.inventory
    pub there : lookup source_id a.generations ≡ some a.generation
    pub told : (a.reconcile_executor ≡ true) ⊎ (a.inventory ≡ s.inventory)

  renewed-IsPrepared :
      (registry : Registry) (assignments : Dict String) (candidates : List Candidate) (a : Accepted)
      → renewed lib source_id ev s registry assignments candidates ≡ ok a
      → IsPrepared a
  unfolding renewed
  renewed-IsPrepared registry assignments candidates a e =
      let (entries, made, e1) =
        >>=-eq-ok (entries_of assignments ev.generation_id candidates) _ e in
      let generation : SourceGeneration = record {
        generation = ev.generation_id;
        entries = entries;
      } in
      let generations = insert source_id generation s.generations in
      let (config', known, e2) = >>=-eq-ok (configured lib source_id ev s.config) _ e1 in
      let (inventory, compiled, e3) =
        >>=-eq-ok (or_capacity (compile_inventory lib.matching lib.sha256 config' generations)) _
          e2 in
      let (_, _, e4) = >>=-eq-ok (reject (not s.has_manager) no_manager) _ e3 in
      let (_, _, e5) =
        >>=-eq-ok (validate_checks ev.validate_for (some source_id) [] (values inventory)) _ e4 in
      let same : record {
        generation = generation;
        registry = registry;
        generations = generations;
        inventory = inventory;
        reconcile_executor = true;
      }
          ≡ a =
        ground (arith, e5) in
      let c_same : config' ≡ c = ground (arith, rw config at known) in
      subst IsPrepared same record {
        compiled = record { compiled = rw (← c_same) (capacity_ok _ compiled) };
        there =
            rw (lookup-insert source_id source_id generation s.generations, beq_refl source_id)
              refl;
        told = inl refl;
      }

  pub kept_or_renewed-IsPrepared :
      (registry : Registry) (assignments : Dict String) (candidates : List Candidate)
      (entries : List EntryRecord) (current : Option SourceGeneration) (a : Accepted)
      → IsCompiled lib c s.generations s.inventory
      → lookup source_id s.generations ≡ current
      → kept_or_renewed lib source_id ev s registry assignments candidates entries current ≡ ok a
      → IsPrepared a
  kept_or_renewed-IsPrepared registry assignments candidates entries none a v there e =
      renewed-IsPrepared registry assignments candidates a e
  kept_or_renewed-IsPrepared registry assignments candidates entries (some g) a v there e =
      elim (Bool-cases (entries_equal lib source_id ev g.entries entries)) [
        | inr changed ↦ renewed-IsPrepared registry assignments candidates a (rw changed at e)
        | inl same ↦
            let e' = rw same at e in
            let taken : kept lib source_id ev s registry g ≡ a = ground (arith, e') in
            subst IsPrepared taken record { compiled = v; there = there; told = inr refl }
      ]

  pub prepare-IsPrepared :
      (candidates : List Candidate) (a : Accepted)
      → IsCompiled lib c s.generations s.inventory
      → prepare lib source_id ev s candidates ≡ ok a
      → IsPrepared a
  unfolding prepare
  prepare-IsPrepared candidates a v e =
      let identities = map (λ (x : Candidate). x.identity) candidates in
      let (_, _, e1) =
        >>=-eq-ok (reject (is_empty candidates && not ev.allow_empty) source_parse) _ e in
      let (preview, _, e2) =
        >>=-eq-ok (or_unexpected (reconcile ev.fresh_preview source_id identities false s.identity))
          _ e1 in
      let (_, _, e3) =
        >>=-eq-ok (reject (has_conflict preview.1.conflicts) needs_reconciliation) _ e2 in
      let (applied, _, e4) =
        >>=-eq-ok (or_unexpected (reconcile ev.fresh source_id identities true s.identity)) _ e3 in
      let current = lookup source_id s.generations in
      let (entries, _, e5) =
        >>=-eq-ok
          (entries_of applied.1.assignments (comparison_id lib source_id ev current) candidates) _
          e4 in
      kept_or_renewed-IsPrepared (prune_unmatchable_inactive applied.0).0 applied.1.assignments
        candidates entries current a v refl e5

-- The service after a refresh, whatever its outcome, has the configuration that it had, and its
-- inventory is the one compiled from that and its generations, if this was so before.
pub refresh_source-IsConsistent :
    (lib : Library) (source_id : String) (ev : Events) (c : AppConfig) (s s' : Service)
    → IsConsistent lib c s
    → refresh_source lib source_id ev s ≡ ok s'
    → IsConsistent lib c s'
refresh_source-IsConsistent lib source_id ev c s s' v e =
    elim (refresh_source_atomic lib source_id ev s s' e) [
      | inl keeps ↦ (
        keeps.config ∙ v.0,
        record { compiled = rw (keeps.generations, keeps.inventory) v.1.compiled },
      )
      | inr (candidates, a, found, ready, takes) ↦
          let w = prepare-IsPrepared lib source_id ev c s v.0 candidates a v.1 ready in
          (
            takes.config ∙ v.0,
            record { compiled = rw (takes.generations, takes.inventory) w.compiled.compiled },
          )
    ]
