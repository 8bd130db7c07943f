-- ===== src/Assignments/Tests.antt =====
-- Concrete assignments.
use xray_e2e_prober.Base.{
  String, ◌≡◌, refl, ◌⊎◌, ◌==◌, true, Option, none, some, List, [], ◌∷◌, string_eq,
}
use xray_e2e_prober.Models.States.{connection, supported}
use xray_e2e_prober.Models.Config.{AssignmentRule, EntryRecord}
use xray_e2e_prober.Assignments.Resolve.{
  Matching, Rule, is_explicit, decision, Defaults, matches_filter, first, is_applicable,
  resolve_assignment,
}
use xray_e2e_prober.Assignments.Precedence.{ByEntry, ByRule, ByDefault, resolve_precedence}

-- Matchers that compare whole texts.
abbrev pub whole : Matching
whole = record { casefold = λ t. t; fnmatchcase = λ t p. p == t; regex_search = λ p t. p == t }

abbrev pub entry : EntryRecord
entry = record {
  entry_id = "e1";
  source_id = "src";
  name = "alpha";
  mode = connection;
  outbound_tag = none;
  inbound_tag = none;
  generation = "g1";
  enabled = true;
  compatibility = supported;
  content = "";
  protocol = "vless";
  transport = some "tcp";
  tags = "eu" ∷ [];
}

abbrev pub rule_for : String → Option String → AssignmentRule
rule_for id entry_id = record {
  assignment_id = id;
  selection_id = none;
  entry_id = entry_id;
  source_id = some "src";
  filter = some record {
    name_glob = some "alpha";
    name_regex = none;
    protocol = none;
    transport = none;
    tags = "eu" ∷ [];
  };
  enabled = true;
  target_set_ids = "set" ∷ [];
  mode = none;
  runtime_lifecycle = none;
  outbound_tag = some "proxy";
  inbound_tag = none;
  egress_assertion_ids = [];
}

abbrev pub defaults : Defaults
defaults = record {
  source_target_set_ids = [];
  source_egress_assertion_ids = [];
  global_target_set_ids = "set" ∷ [];
  source_enabled = true;
}

-- A saved rule, then one that names the entry.
abbrev rules : List AssignmentRule
rules = rule_for "general" none ∷ rule_for "named" (some "e1") ∷ []

named_wins : (resolve_assignment whole entry rules defaults).rule ≡ Rule.entry "named"
unfolding resolve_assignment first is_explicit decision
named_wins = refl

saved_fits :
    (resolve_assignment whole entry (rule_for "general" none ∷ []) defaults).selection_id
    ≡ some "general"
unfolding resolve_assignment first is_explicit is_applicable matches_filter decision
saved_fits = refl

resolve_precedence_example :
    let a = resolve_assignment whole entry rules defaults in
    ByEntry whole entry rules defaults a
    ⊎ ByRule whole entry rules defaults a
    ⊎ ByDefault whole entry rules defaults a
resolve_precedence_example = resolve_precedence whole entry rules defaults
