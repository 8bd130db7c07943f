-- ===== src/Inventory/Complete.antt =====
-- Nothing that should be checked is missing from an inventory.
use xray_e2e_prober.Base.{
  insert_has, insert_keeps, map_All, String, ◌≡◌, true, Option, none, some, List, [], ◌∷◌, All,
  string_eq, Dict, lookup, has_key, Bool-cases, inl, inr, ok, subst,
}
use xray_e2e_prober.Models.Targets.{TargetSetConfig}
use xray_e2e_prober.Models.Config.{SourceConfig, AppConfig, EntryRecord, SourceGeneration}
use xray_e2e_prober.Assignments.Resolve.{Matching, AssignmentDecision}
use xray_e2e_prober.Inventory.Compile.{
  CompiledCheck, sources_of, target_sets_of, is_supported, decision_for, compiled_check,
  check_id_for, compile_sets, compile_entry, compile_entries, compile_sources, with_set,
  with_source, compile_inventory,
}
use xray_e2e_prober.Inventory.Justified.{within_limit-same}

module _ (matching : Matching) (sha256 : List String → String) (c : AppConfig) where
  -- An id that is there stays, whatever is compiled behind it.
  module _ (k : String) where
    with_set_keeps :
        (s : SourceConfig) (source_id generation : String) (e : EntryRecord)
        (d : AssignmentDecision) (id : String) (m : Dict CompiledCheck)
        (set : Option TargetSetConfig)
        → has_key k m ≡ true
        → has_key k (with_set matching sha256 c s source_id generation e d id m set) ≡ true
    with_set_keeps s source_id generation e d id m none here = here
    with_set_keeps s source_id generation e d id m (some set) here =
        insert_keeps k (check_id_for matching sha256 c e d id)
          (compiled_check matching sha256 c s source_id generation e d set id) m here

    compile_sets_keeps :
        (s : SourceConfig) (source_id generation : String) (e : EntryRecord)
        (d : AssignmentDecision) (ids : List String) (m : Dict CompiledCheck)
        → has_key k m ≡ true
        → has_key k (compile_sets matching sha256 c s source_id generation e d ids m) ≡ true
    unfolding compile_sets
    compile_sets_keeps s source_id generation e d [] m here = here
    compile_sets_keeps s source_id generation e d (id ∷ ids) m here =
        compile_sets_keeps s source_id generation e d ids _
          (with_set_keeps s source_id generation e d id m (lookup id (target_sets_of c)) here)

    compile_entry_keeps :
        (s : SourceConfig) (source_id generation : String) (e : EntryRecord)
        (m : Dict CompiledCheck)
        → has_key k m ≡ true
        → has_key k (compile_entry matching sha256 c s source_id generation e m) ≡ true
    unfolding compile_entry
    compile_entry_keeps s source_id generation e m here =
        elim (Bool-cases (is_supported e.compatibility)) [
          | inl fit ↦ rw fit (
              compile_sets_keeps s source_id generation e (decision_for matching sha256 c s e)
                (decision_for matching sha256 c s e).target_set_ids m here)
          | inr unfit ↦ rw unfit here
        ]

    compile_entries_keeps :
        (s : SourceConfig) (source_id generation : String) (es : List EntryRecord)
        (m : Dict CompiledCheck)
        → has_key k m ≡ true
        → has_key k (compile_entries matching sha256 c s source_id generation es m) ≡ true
    unfolding compile_entries
    compile_entries_keeps s source_id generation [] m here = here
    compile_entries_keeps s source_id generation (e ∷ es) m here =
        compile_entries_keeps s source_id generation es _
          (compile_entry_keeps s source_id generation e m here)

    with_source_keeps :
        (id : String) (g : SourceGeneration) (m : Dict CompiledCheck) (s : Option SourceConfig)
        → has_key k m ≡ true
        → has_key k (with_source matching sha256 c id g m s) ≡ true
    with_source_keeps id g m none here = here
    with_source_keeps id g m (some s) here =
        compile_entries_keeps s id g.generation g.entries m here

    compile_sources_keeps :
        (gs : Dict SourceGeneration) (m : Dict CompiledCheck)
        → has_key k m ≡ true
        → has_key k (compile_sources matching sha256 c gs m) ≡ true
    unfolding compile_sources
    compile_sources_keeps [] m here = here
    compile_sources_keeps ((id, g) ∷ gs) m here =
        compile_sources_keeps gs _ (with_source_keeps id g m (lookup id (sources_of c)) here)

  -- The checks that a target set, an entry and a generation ask for.
  abbrev pub SetServed : EntryRecord → AssignmentDecision → Dict CompiledCheck → String → Type 0
  SetServed e d compiled id =
      (set : TargetSetConfig)
      → lookup id (target_sets_of c) ≡ some set
      → has_key (check_id_for matching sha256 c e d id) compiled ≡ true

  abbrev pub EntryServed : SourceConfig → Dict CompiledCheck → EntryRecord → Type 0
  EntryServed s compiled e =
      is_supported e.compatibility ≡ true
      → All (SetServed e (decision_for matching sha256 c s e) compiled)
          (decision_for matching sha256 c s e).target_set_ids

  abbrev pub GenerationServed : Dict CompiledCheck → String × SourceGeneration → Type 0
  GenerationServed compiled item =
      (s : SourceConfig)
      → lookup item.0 (sources_of c) ≡ some s
      → All (EntryServed s compiled) item.1.entries

  module _ (s : SourceConfig) (source_id generation : String) where
    with_set_has :
        (e : EntryRecord) (d : AssignmentDecision) (id : String) (m : Dict CompiledCheck)
        (set : TargetSetConfig) (o : Option TargetSetConfig)
        → o ≡ some set
        → has_key
            (check_id_for matching sha256 c e d id)
            (with_set matching sha256 c s source_id generation e d id m o)
          ≡ true
    with_set_has e d id m set none h = cc (h)
    with_set_has e d id m set (some found) h =
        insert_has (check_id_for matching sha256 c e d id)
          (compiled_check matching sha256 c s source_id generation e d found id) m

    compile_sets-SetServed :
        (e : EntryRecord) (d : AssignmentDecision) (ids : List String) (m : Dict CompiledCheck)
        → All (SetServed e d (compile_sets matching sha256 c s source_id generation e d ids m)) ids
    unfolding compile_sets
    compile_sets-SetServed e d [] m = tt
    compile_sets-SetServed e d (id ∷ ids) m =
        let m' =
          with_set matching sha256 c s source_id generation e d id m
            (lookup id (target_sets_of c)) in
        (
          λ set known.
              compile_sets_keeps (check_id_for matching sha256 c e d id) s source_id generation e d
                ids m' (with_set_has e d id m set (lookup id (target_sets_of c)) known),
          compile_sets-SetServed e d ids m',
        )

    compile_entry-EntryServed :
        (e : EntryRecord) (m : Dict CompiledCheck)
        → EntryServed s (compile_entry matching sha256 c s source_id generation e m) e
    unfolding compile_entry
    compile_entry-EntryServed e m fit = rw fit (
        compile_sets-SetServed e (decision_for matching sha256 c s e)
          (decision_for matching sha256 c s e).target_set_ids m)

    compile_entries-EntryServed :
        (es : List EntryRecord) (m : Dict CompiledCheck)
        → All (EntryServed s (compile_entries matching sha256 c s source_id generation es m)) es
    unfolding compile_entries
    compile_entries-EntryServed [] m = tt
    compile_entries-EntryServed (e ∷ es) m = (
      λ fit.
          map_All
            (SetServed e (decision_for matching sha256 c s e)
              (compile_entry matching sha256 c s source_id generation e m))
            _ (decision_for matching sha256 c s e).target_set_ids
            (λ id served set known.
              compile_entries_keeps _ s source_id generation es _ (served set known))
            (compile_entry-EntryServed e m fit),
      compile_entries-EntryServed es _,
    )

  EntryServed-later :
      (s : SourceConfig) (gs : Dict SourceGeneration) (m : Dict CompiledCheck) (e : EntryRecord)
      → EntryServed s m e
      → EntryServed s (compile_sources matching sha256 c gs m) e
  EntryServed-later s gs m e served fit =
      map_All (SetServed e (decision_for matching sha256 c s e) m) _
        (decision_for matching sha256 c s e).target_set_ids
        (λ id has set known. compile_sources_keeps _ gs m (has set known)) (served fit)

  with_source-EntryServed :
      (id : String) (g : SourceGeneration) (m : Dict CompiledCheck) (s : SourceConfig)
      (o : Option SourceConfig)
      → o ≡ some s
      → All (EntryServed s (with_source matching sha256 c id g m o)) g.entries
  with_source-EntryServed id g m s none h = cc (h)
  with_source-EntryServed id g m s (some found) h =
      let same : found ≡ s = cc (h) in
      subst
        (λ x.
          All (EntryServed x (compile_entries matching sha256 c found id g.generation g.entries m))
            g.entries)
        same (compile_entries-EntryServed found id g.generation g.entries m)

  compile_sources-GenerationServed :
      (gs : Dict SourceGeneration) (m : Dict CompiledCheck)
      → All (GenerationServed (compile_sources matching sha256 c gs m)) gs
  unfolding compile_sources
  compile_sources-GenerationServed [] m = tt
  compile_sources-GenerationServed ((id, g) ∷ gs) m =
      let m' = with_source matching sha256 c id g m (lookup id (sources_of c)) in
      (
        λ s known.
            map_All (EntryServed s m') _ g.entries (λ e served. EntryServed-later s gs m' e served)
              (with_source-EntryServed id g m s (lookup id (sources_of c)) known),
        compile_sources-GenerationServed gs m',
      )

  -- In an inventory that is returned, every supported entry of every given generation of a configured
  -- source has a check for every known target set that the decision on the entry names.
  pub compile_inventory_complete :
      (generations : Dict SourceGeneration) (d : Dict CompiledCheck)
      → compile_inventory matching sha256 c generations ≡ ok d
      → All (GenerationServed d) generations
  unfolding compile_inventory
  compile_inventory_complete generations d e =
      subst (λ x. All (GenerationServed x) generations)
        (within_limit-same matching sha256 c generations _
          (compile_sources matching sha256 c generations []) d e)
        (compile_sources-GenerationServed generations [])
