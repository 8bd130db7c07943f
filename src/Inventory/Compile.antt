-- ===== src/Inventory/Compile.antt =====
-- src/xray_e2e_prober/inventory.py: `compile_inventory`, with the check ids of identity.py.
use xray_e2e_prober.Base.{
  ℕ, String, ◌≡◌, ◌↔◌, Bool, true, false, ◌&&◌, Option, none, some, List, [], ◌∷◌, ◌++◌, any, keep,
  map, length, if◌then◌else◌, ltb, leb, ◌==◌, Eq, beq→eq, beq_refl, subst, string_eq, option_eq,
  add, Dict, lookup, insert, Result, ok, reject, ◌>>◌, arith,
}
use xray_e2e_prober.Models.States.{
  CheckMode, connection, profile, RuntimeLifecycle, fresh, persistent, Compatibility, supported,
}
use xray_e2e_prober.Models.Targets.{TargetSetConfig}
use xray_e2e_prober.Models.Config.{
  SourceConfig, EgressAssertionConfig, AppConfig, EntryRecord, SourceGeneration, CheckDefinition,
  default_lifecycle,
}
use xray_e2e_prober.Assignments.Resolve.{
  Matching, Rule, AssignmentDecision, resolve_assignment, text_or_empty,
}

pub data InventoryError : Type 0 where
  too_many_persistent no_slot_for_fresh : InventoryError

pub record CompiledCheck : Type 0 where
  pub definition : CheckDefinition
  pub entry : EntryRecord
  pub target_set : TargetSetConfig
  pub egress_assertions : List EgressAssertionConfig
  pub assignment_reason : Rule

abbrev pub mode_text : CheckMode → String
mode_text connection = "connection"
mode_text profile = "profile"

-- `{key(item): item for item in items}`
unfoldable pub dict_of : {V : Type 0} → (V → String) → Dict V → List V → Dict V
dict_of key d [] = d
dict_of key d (v ∷ vs) = dict_of key (insert (key v) v d) vs

abbrev pub sources_of : AppConfig → Dict SourceConfig
sources_of c = dict_of (λ s. s.source_id) [] c.sources

abbrev pub target_sets_of : AppConfig → Dict TargetSetConfig
target_sets_of c = dict_of (λ s. s.target_set_id) [] c.target_sets

abbrev pub assertions_of : AppConfig → Dict EgressAssertionConfig
assertions_of c = dict_of (λ a. a.assertion_id) [] c.egress_assertions

-- `tuple(assertions[item] for item in ids if item in assertions)`
unfoldable pub assertions_for :
    Dict EgressAssertionConfig → List String → List EgressAssertionConfig
assertions_for known [] = []
assertions_for known (id ∷ ids) =
    let rest = assertions_for known ids in
    elim (lookup id known) [ none ↦ rest | some a ↦ a ∷ rest ]

abbrev pub is_supported : Compatibility → Bool
is_supported supported = true
is_supported _ = false

-- `given or default`
abbrev pub or_tag : Option String → Option String → Option String
or_tag none default = default
or_tag (some tag) default = if tag == "" then default else some tag

-- `entry.model_copy(update={"tags": …})`
unfoldable pub effective_entry : SourceConfig → EntryRecord → EntryRecord
effective_entry s e = record e { tags = e.tags ++ s.tags }

module _ (matching : Matching) (sha256 : List String → String) (c : AppConfig) where
  -- `stable_check_id`; the texts are joined by NUL characters before they are hashed.
  unfoldable pub stable_check_id : String → CheckMode → String → Option String → String
  stable_check_id entry_id mode target_set_id selection_id =
      sha256
        ("check-v2" ∷ entry_id ∷ mode_text mode ∷ target_set_id ∷ text_or_empty selection_id ∷ [])

  unfoldable pub decision_for : SourceConfig → EntryRecord → AssignmentDecision
  unfolding effective_entry
  decision_for s e = resolve_assignment matching (effective_entry s e) c.assignments record {
    source_target_set_ids = s.target_set_ids;
    source_egress_assertion_ids = s.egress_assertion_ids;
    global_target_set_ids = c.default_target_set_ids;
    source_enabled = s.enabled && e.enabled;
  }

  abbrev pub check_id_for : EntryRecord → AssignmentDecision → String → String
  check_id_for e d set_id = stable_check_id e.entry_id d.mode set_id d.selection_id

  -- The check that an entry gets for a target set.
  unfoldable pub compiled_check :
      SourceConfig
      → String
      → String
      → EntryRecord
      → AssignmentDecision
      → TargetSetConfig
      → String
      → CompiledCheck
  unfolding effective_entry
  compiled_check s source_id generation e d set set_id = record {
    definition = default_lifecycle record {
      check_id = check_id_for e d set_id;
      entry_id = e.entry_id;
      source_id = source_id;
      target_set_id = set_id;
      mode = d.mode;
      generation = generation;
      outbound_tag = or_tag d.outbound_tag e.outbound_tag;
      inbound_tag = or_tag d.inbound_tag e.inbound_tag;
      runtime_lifecycle = d.runtime_lifecycle;
      egress_assertion_ids = d.egress_assertion_ids;
      enabled = s.enabled && e.enabled && d.enabled && set.enabled;
    };
    entry = effective_entry s e;
    target_set = set;
    egress_assertions = assertions_for (assertions_of c) d.egress_assertion_ids;
    assignment_reason = d.rule;
  }

  module _ (s : SourceConfig) (source_id generation : String) where
    abbrev pub with_set :
        EntryRecord
        → AssignmentDecision
        → String
        → Dict CompiledCheck
        → Option TargetSetConfig
        → Dict CompiledCheck
    with_set e d id compiled none = compiled
    with_set e d id compiled (some set) =
        insert (check_id_for e d id) (compiled_check s source_id generation e d set id) compiled

    -- The innermost loop, over the target sets of a decision.
    unfoldable pub compile_sets :
        EntryRecord → AssignmentDecision → List String → Dict CompiledCheck → Dict CompiledCheck
    compile_sets e d [] compiled = compiled
    compile_sets e d (id ∷ ids) compiled =
        compile_sets e d ids (with_set e d id compiled (lookup id (target_sets_of c)))

    unfoldable pub compile_entry : EntryRecord → Dict CompiledCheck → Dict CompiledCheck
    compile_entry e compiled =
        if is_supported e.compatibility
        then compile_sets e (decision_for s e) (decision_for s e).target_set_ids compiled
        else compiled

    unfoldable pub compile_entries : List EntryRecord → Dict CompiledCheck → Dict CompiledCheck
    compile_entries [] compiled = compiled
    compile_entries (e ∷ es) compiled = compile_entries es (compile_entry e compiled)

  abbrev pub with_source :
      String → SourceGeneration → Dict CompiledCheck → Option SourceConfig → Dict CompiledCheck
  with_source id g compiled none = compiled
  with_source id g compiled (some s) = compile_entries s id g.generation g.entries compiled

  -- The outer loop, over the generations.
  unfoldable pub compile_sources : Dict SourceGeneration → Dict CompiledCheck → Dict CompiledCheck
  compile_sources [] compiled = compiled
  compile_sources ((id, g) ∷ rest) compiled =
      compile_sources rest (with_source id g compiled (lookup id (sources_of c)))

-- What a persistent runtime serves.
pub record Profile : Type 0 where
  pub entry_id : String
  pub mode : String
  pub outbound_tag : Option String
  pub inbound_tag : Option String
  pub generation : String

abbrev profile_beq : Profile → Profile → Bool
profile_beq a b =
    a.entry_id == b.entry_id
    && a.mode == b.mode
    && a.outbound_tag == b.outbound_tag
    && a.inbound_tag == b.inbound_tag
    && a.generation == b.generation

profile_eq_of :
    (a b : Profile)
    → a.entry_id ≡ b.entry_id
    → a.mode ≡ b.mode
    → a.outbound_tag ≡ b.outbound_tag
    → a.inbound_tag ≡ b.inbound_tag
    → a.generation ≡ b.generation
    → a ≡ b
profile_eq_of a b h1 h2 h3 h4 h5 = λ i. record {
  entry_id = h1 i;
  mode = h2 i;
  outbound_tag = h3 i;
  inbound_tag = h4 i;
  generation = h5 i;
}

abbrev same_profile : (a : Profile) → profile_beq a a ≡ true
same_profile a = rw (
  beq_refl a.entry_id,
  beq_refl a.mode,
  beq_refl a.outbound_tag,
  beq_refl a.inbound_tag,
  beq_refl a.generation,
)

pub profile_beq_iff : (a b : Profile) → (profile_beq a b ≡ true) ↔ (a ≡ b)
profile_beq_iff a b = (
  λ h.
      profile_eq_of a b (beq→eq a.entry_id b.entry_id (ground (arith, h)))
        (beq→eq a.mode b.mode (ground (arith, h)))
        (beq→eq a.outbound_tag b.outbound_tag (ground (arith, h)))
        (beq→eq a.inbound_tag b.inbound_tag (ground (arith, h)))
        (beq→eq a.generation b.generation (ground (arith, h))),
  λ same. subst (λ x. profile_beq a x ≡ true) same (same_profile a),
)

instance abbrev pub profile_eq : Eq Profile
profile_eq = record { beq = profile_beq; beq_iff = profile_beq_iff }

abbrev pub profile_of : CompiledCheck → Profile
profile_of k = record {
  entry_id = k.definition.entry_id;
  mode = mode_text k.definition.mode;
  outbound_tag = k.definition.outbound_tag;
  inbound_tag = k.definition.inbound_tag;
  generation = k.definition.generation;
}

abbrev pub has_lifecycle : RuntimeLifecycle → Option RuntimeLifecycle → Bool
has_lifecycle persistent (some persistent) = true
has_lifecycle fresh (some fresh) = true
has_lifecycle _ _ = false

abbrev pub enabled_checks : Dict CompiledCheck → List CompiledCheck
enabled_checks compiled = keep (λ k. k.definition.enabled) (map (λ p. p.1) compiled)

unfoldable pub profile_set : List CompiledCheck → List Profile
profile_set [] = []
profile_set (k ∷ ks) =
    let rest = profile_set ks in
    if has_lifecycle persistent k.definition.runtime_lifecycle
    then add (profile_of k) rest
    else rest

abbrev pub persistent_profiles : Dict CompiledCheck → List Profile
persistent_profiles compiled = profile_set (enabled_checks compiled)

abbrev pub has_fresh : Dict CompiledCheck → Bool
has_fresh compiled =
    any (λ k. has_lifecycle fresh k.definition.runtime_lifecycle) (enabled_checks compiled)

-- The tests behind the loops.
unfoldable pub within_limit : ℕ → Dict CompiledCheck → Result InventoryError (Dict CompiledCheck)
within_limit limit compiled = do
  reject (ltb limit (length (persistent_profiles compiled))) too_many_persistent
  reject (has_fresh compiled && leb limit (length (persistent_profiles compiled))) no_slot_for_fresh
  ok compiled

unfoldable pub compile_inventory :
    Matching
    → (List String → String)
    → AppConfig
    → Dict SourceGeneration
    → Result InventoryError (Dict CompiledCheck)
unfolding compile_sources
compile_inventory matching sha256 c generations =
    within_limit c.scheduler.max_active_runtimes (compile_sources matching sha256 c generations [])
