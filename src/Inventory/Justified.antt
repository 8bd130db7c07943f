-- ===== src/Inventory/Justified.antt =====
-- Every check of an inventory follows from the configuration and an accepted generation.
use mathlib.Core.List.{Mem, mem-cons_of_mem, mem-cons_self, append_assoc}
use xray_e2e_prober.Base.{
  ℕ, String, ◌≡◌, refl, true, ◌&&◌, Option, none, some, List, [], ◌∷◌, ◌++◌, All, member-append,
  ltb, leb, length, ◌==◌, string_eq, member, beq_refl, Dict, lookup, insert, inl, inr, Bool-cases,
  reject, ok, >>=-eq-ok, subst, arith,
}
use xray_e2e_prober.Models.Targets.{TargetSetConfig}
use xray_e2e_prober.Models.Config.{SourceConfig, AppConfig, EntryRecord, SourceGeneration}
use xray_e2e_prober.Assignments.Resolve.{Matching}
use xray_e2e_prober.Inventory.Compile.{
  CompiledCheck, sources_of, target_sets_of, is_supported, decision_for, compiled_check,
  check_id_for, compile_sets, compile_entry, compile_entries, compile_sources, with_set,
  with_source, within_limit, compile_inventory, persistent_profiles, has_fresh, too_many_persistent,
  no_slot_for_fresh,
}

All-insert :
    {V : Type 0} (P : String × V → Type 0) (k : String) (v : V) (m : Dict V)
    → P (k, v)
    → All P m
    → All P (insert k v m)
unfolding insert
All-insert P k v [] hit all = (hit, tt)
All-insert P k v ((j, w) ∷ m) hit all = elim (Bool-cases (j == k)) [
  | inl same ↦ rw same (hit, all.1)
  | inr other ↦ rw other (all.0, All-insert P k v m hit all.1)
]

members_of : (front ids : List String) → All (λ id. member id (front ++ ids) ≡ true) ids
members_of front [] = tt
members_of front (id ∷ ids) = (
  ground (arith, member-append id front (id ∷ ids), beq_refl id),
  subst (λ all. All (λ x. member x all ≡ true) ids) (append_assoc front (id ∷ []) ids)
      (members_of (front ++ id ∷ []) ids),
)

members : (ids : List String) → All (λ id. member id ids ≡ true) ids
members ids = members_of [] ids

module _ (matching : Matching) (sha256 : List String → String) (c : AppConfig)
    (generations : Dict SourceGeneration) where
  -- The check under an id is the one for a supported entry of a generation of a configured source,
  -- and for a target set that the decision on that entry names.
  pub record IsJustified (item : String × CompiledCheck) : Type 0 where
    pub source : SourceConfig
    pub source_id : String
    pub generation : SourceGeneration
    pub entry : EntryRecord
    pub set : TargetSetConfig
    pub set_id : String
    pub accepted : Mem (source_id, generation) generations
    pub configured : lookup source_id (sources_of c) ≡ some source
    pub listed : Mem entry generation.entries
    pub compatible : is_supported entry.compatibility ≡ true
    pub named : member set_id (decision_for matching sha256 c source entry).target_set_ids ≡ true
    pub known : lookup set_id (target_sets_of c) ≡ some set
    pub key :
        item.0
        ≡ check_id_for matching sha256 c entry (decision_for matching sha256 c source entry) set_id
    pub check :
        item.1
        ≡ compiled_check matching sha256 c source source_id generation.generation entry
            (decision_for matching sha256 c source entry)
            set
            set_id

  abbrev AllJustified : Dict CompiledCheck → Type 0
  AllJustified compiled = All IsJustified compiled

  module _ (s : SourceConfig) (source_id : String) (g : SourceGeneration)
      (accepted : Mem (source_id, g) generations)
      (configured : lookup source_id (sources_of c) ≡ some s) where
    with_set-justified :
        (e : EntryRecord) (id : String) (compiled : Dict CompiledCheck)
        (set : Option TargetSetConfig)
        → Mem e g.entries
        → is_supported e.compatibility ≡ true
        → member id (decision_for matching sha256 c s e).target_set_ids ≡ true
        → lookup id (target_sets_of c) ≡ set
        → AllJustified compiled
        → AllJustified (
            with_set matching sha256 c s source_id g.generation e
              (decision_for matching sha256 c s e)
              id
              compiled
              set)
    with_set-justified e id compiled none listed fit named known all = all
    with_set-justified e id compiled (some set) listed fit named known all =
        All-insert IsJustified _ _ compiled
          record {
            source = s;
            source_id = source_id;
            generation = g;
            entry = e;
            set = set;
            set_id = id;
            accepted = accepted;
            configured = configured;
            listed = listed;
            compatible = fit;
            named = named;
            known = known;
            key = refl;
            check = refl;
          }
          all

    compile_sets-justified :
        (e : EntryRecord) (ids : List String) (compiled : Dict CompiledCheck)
        → Mem e g.entries
        → is_supported e.compatibility ≡ true
        → All (λ id. member id (decision_for matching sha256 c s e).target_set_ids ≡ true) ids
        → AllJustified compiled
        → AllJustified (
            compile_sets matching sha256 c s source_id g.generation e
              (decision_for matching sha256 c s e)
              ids
              compiled)
    unfolding compile_sets
    compile_sets-justified e [] compiled listed fit named all = all
    compile_sets-justified e (id ∷ ids) compiled listed fit named all =
        compile_sets-justified e ids _ listed fit named.1 (
          with_set-justified e id compiled (lookup id (target_sets_of c)) listed fit named.0 refl
            all)

    compile_entry-justified :
        (e : EntryRecord) (compiled : Dict CompiledCheck)
        → Mem e g.entries
        → AllJustified compiled
        → AllJustified (compile_entry matching sha256 c s source_id g.generation e compiled)
    unfolding compile_entry
    compile_entry-justified e compiled listed all =
        elim (Bool-cases (is_supported e.compatibility)) [
          | inr unfit ↦ rw unfit all
          | inl fit ↦ rw fit (
              compile_sets-justified e (decision_for matching sha256 c s e).target_set_ids compiled
                listed fit (members _) all)
        ]

    compile_entries-justified :
        (es : List EntryRecord) (compiled : Dict CompiledCheck)
        → ((e : EntryRecord) → Mem e es → Mem e g.entries)
        → AllJustified compiled
        → AllJustified (compile_entries matching sha256 c s source_id g.generation es compiled)
    unfolding compile_entries
    compile_entries-justified [] compiled within all = all
    compile_entries-justified (e ∷ es) compiled within all =
        compile_entries-justified es _ (λ x h. within x (mem-cons_of_mem _ h))
          (compile_entry-justified e compiled (within e mem-cons_self) all)

  with_source-justified :
      (id : String) (g : SourceGeneration) (compiled : Dict CompiledCheck) (s : Option SourceConfig)
      → Mem (id, g) generations
      → lookup id (sources_of c) ≡ s
      → AllJustified compiled
      → AllJustified (with_source matching sha256 c id g compiled s)
  with_source-justified id g compiled none accepted configured all = all
  with_source-justified id g compiled (some s) accepted configured all =
      compile_entries-justified s id g accepted configured g.entries compiled (λ e h. h) all

  compile_sources-justified :
      (gs : Dict SourceGeneration) (compiled : Dict CompiledCheck)
      → ((x : String × SourceGeneration) → Mem x gs → Mem x generations)
      → AllJustified compiled
      → AllJustified (compile_sources matching sha256 c gs compiled)
  unfolding compile_sources
  compile_sources-justified [] compiled within all = all
  compile_sources-justified ((id, g) ∷ gs) compiled within all =
      compile_sources-justified gs _ (λ x h. within x (mem-cons_of_mem _ h))
        (with_source-justified id g compiled (lookup id (sources_of c))
          (within (id, g) mem-cons_self) refl all)

  pub within_limit-same :
      (limit : ℕ) (compiled d : Dict CompiledCheck)
      → within_limit limit compiled ≡ ok d
      → compiled ≡ d
  unfolding within_limit
  within_limit-same limit compiled d e =
      let (_, _, e1) =
        >>=-eq-ok (reject (ltb limit (length (persistent_profiles compiled))) too_many_persistent) _
          e in
      let (_, _, e2) =
        >>=-eq-ok
          (reject (has_fresh compiled && leb limit (length (persistent_profiles compiled)))
            no_slot_for_fresh)
          _ e1 in
      ground (arith, e2)

  -- Every check of an inventory that is returned belongs to a supported entry of the given
  -- generation of a configured source and to a known target set that the decision on the entry
  -- names. It is the check compiled for these, and its key is its own stable id.
  pub compile_inventory-IsJustified :
      (d : Dict CompiledCheck)
      → compile_inventory matching sha256 c generations ≡ ok d
      → All IsJustified d
  unfolding compile_inventory
  compile_inventory-IsJustified d e =
      subst AllJustified
        (within_limit-same _ (compile_sources matching sha256 c generations []) d e)
        (compile_sources-justified generations [] (λ x h. h) tt)
