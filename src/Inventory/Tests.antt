-- ===== src/Inventory/Tests.antt =====
-- A small inventory.
use xray_e2e_prober.Base.{
  String, ◌≡◌, refl, map, true, false, none, some, List, [], ◌∷◌, All, Dict, lookup, insert, add,
  ok, err,
}
use xray_e2e_prober.Models.States.{persistent}
use xray_e2e_prober.Models.Targets.{get}
use xray_e2e_prober.Models.Config.{AppConfig, EntryRecord, SourceGeneration, default_lifecycle}
use xray_e2e_prober.Assignments.Resolve.{
  is_explicit, is_applicable, matches_filter, first, decision, resolve_assignment,
}
use xray_e2e_prober.Assignments.Tests.{whole, entry, rule_for}
use xray_e2e_prober.Inventory.Compile.{
  CompiledCheck, too_many_persistent, dict_of, effective_entry, assertions_for, stable_check_id,
  decision_for, compiled_check, compile_sets, compile_entry, compile_entries, compile_sources,
  profile_set, within_limit, compile_inventory,
}
use xray_e2e_prober.Inventory.Complete.{GenerationServed, compile_inventory_complete}
use xray_e2e_prober.Inventory.Justified.{IsJustified, compile_inventory-IsJustified}
use xray_e2e_prober.Inventory.Limits.{RuntimesFit, compile_inventory_fits}

-- One text of the five stands in for a hash of them.
abbrev pub entry_of : List String → String
entry_of (version ∷ entry_id ∷ rest) = entry_id
entry_of _ = ""

-- A configuration whose one rule keeps its runtimes.
abbrev pub config : AppConfig
config = record {
  instance_id = "prober";
  sources =
      record {
        source_id = "src";
        target_set_ids = [];
        egress_assertion_ids = [];
        enabled = true;
        tags = "eu" ∷ [];
      }
      ∷ [];
  target_sets =
      record {
        target_set_id = "set";
        targets =
            record {
              target_id = "web";
              url = "https://example.test/";
              method = get;
              expected_statuses = 200 ∷ [];
              timeout_ms = none;
              body = none;
              throughput = none;
              max_body_bytes = 65536;
              follow_redirects = false;
              max_redirects = 0;
              enabled = true;
            }
            ∷ [];
        quorum = 1;
        enabled = true;
      }
      ∷ [];
  assignments = record (rule_for "keep" none) { runtime_lifecycle = some persistent } ∷ [];
  egress_assertions = [];
  scheduler = record { interval_ms = 60000; request_timeout_ms = 10000; max_active_runtimes = 1 };
  default_target_set_ids = [];
}

abbrev pub generations : List EntryRecord → Dict SourceGeneration
generations entries = ("src", record { generation = "g1"; entries = entries }) ∷ []

abbrev pub one_entry : Dict SourceGeneration
one_entry = generations (entry ∷ [])

-- The checks that follow.
abbrev pub inventory : Dict CompiledCheck
inventory = compile_sources whole entry_of config one_entry []

pub compiles : compile_inventory whole entry_of config one_entry ≡ ok inventory
unfolding compile_inventory within_limit compile_sources compile_entries compile_entry compile_sets
    compiled_check decision_for stable_check_id effective_entry dict_of assertions_for profile_set
    default_lifecycle lookup insert add resolve_assignment first is_explicit is_applicable
    matches_filter decision
compiles = refl

-- The one check is found under its id.
one_check : map (λ p. p.0) inventory ≡ "e1" ∷ []
unfolding compile_inventory within_limit compile_sources compile_entries compile_entry compile_sets
    compiled_check decision_for stable_check_id effective_entry dict_of assertions_for profile_set
    default_lifecycle lookup insert add resolve_assignment first is_explicit is_applicable
    matches_filter decision
one_check = refl

-- Two entries need two runtimes, and one is allowed.
two_entries :
    compile_inventory whole entry_of config
      (generations (entry ∷ record entry { entry_id = "e2" } ∷ []))
    ≡ err too_many_persistent
unfolding compile_inventory within_limit compile_sources compile_entries compile_entry compile_sets
    compiled_check decision_for stable_check_id effective_entry dict_of assertions_for profile_set
    default_lifecycle lookup insert add resolve_assignment first is_explicit is_applicable
    matches_filter decision
two_entries = refl

compile_inventory-IsJustified_example : All (IsJustified whole entry_of config one_entry) inventory
compile_inventory-IsJustified_example =
    compile_inventory-IsJustified whole entry_of config one_entry inventory compiles

compile_inventory_fits_example : RuntimesFit 1 inventory
compile_inventory_fits_example =
    compile_inventory_fits whole entry_of config one_entry inventory compiles

compile_inventory_complete_example :
    All (GenerationServed whole entry_of config inventory) one_entry
compile_inventory_complete_example =
    compile_inventory_complete whole entry_of config one_entry inventory compiles
