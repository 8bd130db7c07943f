-- ===== src/Assignments/Resolve.antt =====
-- src/xray_e2e_prober/assignments.py: `matches_filter`, `resolve_assignment` and `_decision`.
use xray_e2e_prober.Base.{
  String, Bool, true, false, not, ◌&&◌, ◌||◌, Option, none, some, List, [], ◌∷◌, if◌then◌else◌,
  ◌==◌, string_eq, option_eq,
}
use xray_e2e_prober.Models.States.{CheckMode, RuntimeLifecycle}
use xray_e2e_prober.Models.Config.{AssignmentFilter, AssignmentRule, EntryRecord, subset}

-- What the code takes from Python: `str.casefold`, and the tests of a name against a glob and of an
-- expression against a name.
pub record Matching : Type 0 where
  pub casefold : String → String
  pub fnmatchcase : String → String → Bool
  pub regex_search : String → String → Bool

-- What chose a decision: the texts "entry:…", "rule:…", "source-default" and "global-default".
pub data Rule : Type 0 where
  entry rule : (assignment_id : String) → Rule
  source_default global_default : Rule

pub record AssignmentDecision : Type 0 where
  pub enabled : Bool
  pub target_set_ids : List String
  pub rule : Rule
  pub mode : CheckMode
  pub runtime_lifecycle : Option RuntimeLifecycle
  pub outbound_tag : Option String
  pub inbound_tag : Option String
  pub selection_id : Option String
  pub egress_assertion_ids : List String

-- `pattern and not test(pattern)`: an empty pattern excludes nothing.
abbrev pub pattern_fits : (String → Bool) → Option String → Bool
pattern_fits test none = true
pattern_fits test (some pattern) = pattern == "" || test pattern

abbrev pub text_or_empty : Option String → String
text_or_empty none = ""
text_or_empty (some t) = t

-- `_text(None)` is the text "None".
abbrev pub text_of : Option String → String
text_of none = "None"
text_of (some t) = t

abbrev pub field_fits : Option String → String → Bool
field_fits none actual = true
field_fits (some expected) actual = actual == expected

-- `matches_filter`
unfoldable pub matches_filter : Matching → EntryRecord → Option AssignmentFilter → Bool
matches_filter m e none = true
matches_filter m e (some f) =
    pattern_fits (λ p. m.fnmatchcase (m.casefold e.name) (m.casefold p)) f.name_glob
    && pattern_fits (λ p. m.regex_search p e.name) f.name_regex
    && field_fits f.protocol e.protocol
    && field_fits f.transport (text_of e.transport)
    && subset f.tags e.tags

-- `if value:` for an optional text.
abbrev pub truthy : Option String → Bool
truthy none = false
truthy (some t) = not (t == "")

abbrev pub is_given : Option String → Bool
is_given none = false
is_given (some t) = true

-- The test of the first loop: the rule names the entry.
unfoldable pub is_explicit : EntryRecord → AssignmentRule → Bool
is_explicit e r = r.entry_id == some e.entry_id

abbrev pub source_fits : Option String → EntryRecord → Bool
source_fits none e = true
source_fits (some id) e = id == "" || id == e.source_id

-- The tests of the second loop, up to its `return`.
unfoldable pub is_applicable : Matching → EntryRecord → AssignmentRule → Bool
is_applicable m e r =
    not (truthy r.entry_id) && source_fits r.source_id e && matches_filter m e r.filter

abbrev pub or_mode : Option CheckMode → CheckMode → CheckMode
or_mode none mode = mode
or_mode (some given) mode = given

abbrev pub selection : AssignmentRule → Option String → Option String
selection r (some id) = some id
selection r none =
    if is_given r.outbound_tag || is_given r.inbound_tag then some r.assignment_id else none

-- `_decision`
unfoldable pub decision : EntryRecord → AssignmentRule → Rule → AssignmentDecision
decision e r name = record {
  enabled = r.enabled;
  target_set_ids = r.target_set_ids;
  rule = name;
  mode = or_mode r.mode e.mode;
  runtime_lifecycle = r.runtime_lifecycle;
  outbound_tag = r.outbound_tag;
  inbound_tag = r.inbound_tag;
  selection_id = selection r r.selection_id;
  egress_assertion_ids = r.egress_assertion_ids;
}

-- The first rule that a loop returns for.
unfoldable pub first : (AssignmentRule → Bool) → List AssignmentRule → Option AssignmentRule
first p [] = none
first p (r ∷ rules) = let later = first p rules in if p r then some r else later

-- The keyword arguments that describe the source and the defaults.
pub record Defaults : Type 0 where
  pub source_target_set_ids : List String
  pub source_egress_assertion_ids : List String
  pub global_target_set_ids : List String
  pub source_enabled : Bool

abbrev pub by_default : EntryRecord → Defaults → Rule → List String → AssignmentDecision
by_default e d name sets = record {
  enabled = d.source_enabled;
  target_set_ids = sets;
  rule = name;
  mode = e.mode;
  runtime_lifecycle = none;
  outbound_tag = none;
  inbound_tag = none;
  selection_id = none;
  egress_assertion_ids = d.source_egress_assertion_ids;
}

abbrev pub default_for : EntryRecord → Defaults → List String → AssignmentDecision
default_for e d [] = by_default e d global_default d.global_target_set_ids
default_for e d sets = by_default e d source_default sets

abbrev pub saved : EntryRecord → Defaults → Option AssignmentRule → AssignmentDecision
saved e d none = default_for e d d.source_target_set_ids
saved e d (some r) = decision e r (Rule.rule r.assignment_id)

abbrev pub explicit :
    Matching
    → EntryRecord
    → List AssignmentRule
    → Defaults
    → Option AssignmentRule
    → AssignmentDecision
explicit m e rules d (some r) = decision e r (Rule.entry r.assignment_id)
explicit m e rules d none = saved e d (first (is_applicable m e) rules)

unfoldable pub resolve_assignment :
    Matching → EntryRecord → List AssignmentRule → Defaults → AssignmentDecision
resolve_assignment m e rules d = explicit m e rules d (first (is_explicit e) rules)
