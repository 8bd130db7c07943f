-- ===== src/Identity/Registry.antt =====
-- src/xray_e2e_prober/identity.py: the records, and grouping by a key.
use xray_e2e_prober.Base.{
  ℕ, ◌+◌, ◌-◌, String, Bool, true, false, ◌||◌, Option, none, some, List, [], ◌∷◌, ◌++◌, map, keep,
  length, if◌then◌else◌, Eq, ◌==◌, string_eq, Dict, lookup,
}

pub data IdentityError : Type 0 where
  candidates_not_unique mapping_not_exact entry_of_other_source invalid_entry_id : IdentityError
  no_entry_id : IdentityError

pub record ImportedEntry : Type 0 where
  pub candidate_id : String
  pub name : String
  pub identity_name : Option String
  pub connection_fingerprint : Option String
  pub external_id : Option String

pub record CandidateIdentity : Type 0 where
  pub candidate_id : String
  pub name_key : String
  pub connection_fingerprint : Option String
  pub external_id : Option String

abbrev name_or : Option String → String → String
name_or none default = default
name_or (some name) default = if name == "" then default else name

-- `CandidateIdentity.from_entry`; the normalization of a name is an argument.
unfoldable pub from_entry : (String → String) → ImportedEntry → CandidateIdentity
from_entry normalized_identity_name e = record {
  candidate_id = e.candidate_id;
  name_key = name_or e.identity_name (normalized_identity_name e.name);
  connection_fingerprint = e.connection_fingerprint;
  external_id = e.external_id;
}

pub record IdentityBinding : Type 0 where
  pub entry_id : String
  pub external_id : Option String
  pub name_key : Option String
  pub connection_fingerprint : Option String
  pub active : Bool

pub data Message : Type 0 where
  duplicate_external indistinct_semantics changed_entries indistinct_new : Message

pub record IdentityConflict : Type 0 where
  pub candidate_ids : List String
  pub possible_entry_ids : List String
  pub message : Message

pub record ReconciliationResult : Type 0 where
  pub source_id : String
  pub assignments : Dict String
  pub new_entry_ids : List String
  pub disappeared_entry_ids : List String
  pub conflicts : List IdentityConflict

abbrev pub Registry : Type 0
Registry = Dict (List IdentityBinding)

abbrev pub entry_ids : List IdentityBinding → List String
entry_ids bindings = map (λ b. b.entry_id) bindings

abbrev pub candidate_ids : List CandidateIdentity → List String
candidate_ids candidates = map (λ c. c.candidate_id) candidates

-- `self.sources.get(source_id, [])`
abbrev pub or_empty : {A : Type 0} → Option (List A) → List A
or_empty none = []
or_empty (some xs) = xs

unfoldable pub bindings_of : String → Registry → List IdentityBinding
bindings_of source_id registry = or_empty (lookup source_id registry)

-- `if value:`, as the value or nothing.
abbrev pub present : Option String → Option String
present none = none
present (some t) = if t == "" then none else some t

module _ {K A : Type 0} ⦃eq : Eq K⦄ where
  -- `groups.setdefault(key, []).append(item)`
  unfoldable pub append_to : K → A → List (K × List A) → List (K × List A)
  append_to k a [] = (k, a ∷ []) ∷ []
  append_to k a ((j, xs) ∷ groups) =
      if j == k then (j, xs ++ a ∷ []) ∷ groups else (j, xs) ∷ append_to k a groups

  abbrev pub append_if : Option K → A → List (K × List A) → List (K × List A)
  append_if none a groups = groups
  append_if (some k) a groups = append_to k a groups

  unfoldable pub group_by : (A → Option K) → List (K × List A) → List A → List (K × List A)
  group_by key groups [] = groups
  group_by key groups (a ∷ items) = group_by key (append_if (key a) a groups) items

  -- `groups.get(key, [])`
  unfoldable pub group_of : K → List (K × List A) → List A
  group_of k [] = []
  group_of k ((j, xs) ∷ groups) = if j == k then xs else group_of k groups

-- `prune_unmatchable_inactive`: the rows that stay, and the sources that still have one.
abbrev pub is_given : Option String → Bool
is_given none = false
is_given (some t) = true

abbrev pub is_matchable : IdentityBinding → Bool
is_matchable b =
    b.active || is_given b.external_id || is_given b.name_key || is_given b.connection_fingerprint

abbrev pub keep_source : String → List IdentityBinding → Registry × ℕ → Registry × ℕ
keep_source id [] rest = rest
keep_source id (b ∷ bs) (sources, removed) = ((id, b ∷ bs) ∷ sources, removed)

unfoldable pub prune_unmatchable_inactive : Registry → Registry × ℕ
prune_unmatchable_inactive [] = ([], 0)
prune_unmatchable_inactive ((id, bindings) ∷ sources) =
    let (kept, removed) = prune_unmatchable_inactive sources in
    keep_source id (keep is_matchable bindings)
      (kept, (length bindings - length (keep is_matchable bindings)) + removed)
