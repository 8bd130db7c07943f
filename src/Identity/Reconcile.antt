-- ===== src/Identity/Reconcile.antt =====
-- src/xray_e2e_prober/identity.py: `IdentityRegistry.reconcile`. Each loop over a dictionary of groups
-- is one phase, and what the phases write is a `Progress`.
use xray_e2e_prober.Base.{
  ℕ, suc, String, Bool, true, false, not, ◌&&◌, ◌||◌, Option, none, some, List, [], ◌∷◌, ◌++◌, map,
  keep, if◌then◌else◌, ◌==◌, string_eq, option_eq, pair_eq, member, unique, Dict, lookup, insert,
  has_key, Result, ok, err, ◌>>=◌, ◌>>◌, reject,
}
use xray_e2e_prober.Identity.Registry.{
  IdentityError, candidates_not_unique, no_entry_id, CandidateIdentity, IdentityBinding, Message,
  duplicate_external, indistinct_semantics, changed_entries, indistinct_new, IdentityConflict,
  ReconciliationResult, Registry, entry_ids, candidate_ids, bindings_of, present, group_by,
  group_of,
}

pub record Progress : Type 0 where
  pub assignments : Dict String
  pub used_entries : List String
  pub conflicts : List IdentityConflict
  pub blocked : List String

abbrev pub no_progress : Progress
no_progress = record { assignments = []; used_entries = []; conflicts = []; blocked = [] }

-- `available(items)`
unfoldable pub available : Progress → List IdentityBinding → List IdentityBinding
available p items = keep (λ b. not (member b.entry_id p.used_entries)) items

unfoldable pub assign : CandidateIdentity → IdentityBinding → Progress → Progress
assign c b p = record p {
  assignments = insert c.candidate_id b.entry_id p.assignments;
  used_entries = b.entry_id ∷ p.used_entries;
}

unfoldable pub conflict :
    Message → List CandidateIdentity → List IdentityBinding → Progress → Progress
conflict message group old p = record p {
  conflicts =
      p.conflicts
      ++ record {
        candidate_ids = candidate_ids group;
        possible_entry_ids = entry_ids old;
        message = message;
      }
        ∷ [];
  blocked = candidate_ids group ++ p.blocked;
}

-- What each phase does with a group of candidates and the old bindings of the same key.
abbrev pub Phase : Type 0
Phase = List CandidateIdentity → List IdentityBinding → Progress → Progress

unfoldable pub by_external_id : Phase
by_external_id [] old p = p
by_external_id (c ∷ []) [] p = p
by_external_id (c ∷ []) (b ∷ []) p = assign c b p
by_external_id group old p = conflict duplicate_external group old p

unfoldable pub by_name : Phase
by_name (c ∷ []) (b ∷ []) p = assign c b p
by_name group old p = p

unfoldable pub by_fingerprint : Phase
by_fingerprint group [] p = p
by_fingerprint (c ∷ []) (b ∷ []) p = assign c b p
by_fingerprint group old p = conflict indistinct_semantics group old p

unfoldable pub by_leftover_name : Phase
by_leftover_name group [] p = p
by_leftover_name group old p = conflict changed_entries group old p

unfoldable pub by_duplicate : List CandidateIdentity → Progress → Progress
by_duplicate (c ∷ d ∷ group) p = conflict indistinct_new (c ∷ d ∷ group) [] p
by_duplicate group p = p

-- The candidates that are neither assigned nor blocked.
unfoldable pub unresolved : List CandidateIdentity → Progress → List CandidateIdentity
unresolved candidates p =
    keep (λ c. not (has_key c.candidate_id p.assignments) && not (member c.candidate_id p.blocked))
      candidates

abbrev pub old_by :
    (IdentityBinding → Option String) → List IdentityBinding → List (String × List IdentityBinding)
old_by key previous = group_by (λ b. present (key b)) [] previous

-- The loop of the first phase looks at every old binding, the others at the available ones.
unfoldable pub match_all :
    List (String × List IdentityBinding)
    → List (String × List CandidateIdentity)
    → Progress
    → Progress
match_all old [] p = p
match_all old ((key, group) ∷ groups) p =
    match_all old groups (by_external_id group (group_of key old) p)

unfoldable pub match_available :
    Phase
    → List (String × List IdentityBinding)
    → List (String × List CandidateIdentity)
    → Progress
    → Progress
match_available phase old [] p = p
match_available phase old ((key, group) ∷ groups) p =
    match_available phase old groups (phase group (available p (group_of key old)) p)

unfoldable pub find_duplicates :
    {K : Type 0} → List (K × List CandidateIdentity) → Progress → Progress
find_duplicates [] p = p
find_duplicates ((key, group) ∷ groups) p = find_duplicates groups (by_duplicate group p)

module _ (previous : List IdentityBinding) (candidates : List CandidateIdentity) where
  unfoldable pub match_external_ids : Progress → Progress
  match_external_ids p =
      match_all (old_by (λ b. b.external_id) previous)
        (group_by (λ c. present c.external_id) [] candidates) p

  unfoldable pub match_names : Progress → Progress
  match_names p =
      match_available by_name (old_by (λ b. b.name_key) previous)
        (group_by (λ c. some c.name_key) [] (unresolved candidates p)) p

  unfoldable pub match_fingerprints : Progress → Progress
  match_fingerprints p =
      match_available by_fingerprint (old_by (λ b. b.connection_fingerprint) previous)
        (group_by (λ c. present c.connection_fingerprint) [] (unresolved candidates p)) p

  unfoldable pub match_leftover_names : Progress → Progress
  match_leftover_names p =
      match_available by_leftover_name (old_by (λ b. b.name_key) previous)
        (group_by (λ c. some c.name_key) [] (unresolved candidates p)) p

  unfoldable pub match_duplicates : Progress → Progress
  match_duplicates p =
      find_duplicates {K = String × Option String}
        (group_by (λ c. some (c.name_key, c.connection_fingerprint)) [] (unresolved candidates p)) p

  -- All phases that compare candidates with old bindings and with one another.
  unfoldable pub match_candidates : Progress
  match_candidates =
      match_duplicates
        (match_leftover_names (match_fingerprints (match_names (match_external_ids no_progress))))

-- The loop that draws new ids: the assignments, and the ids in order.
unfoldable pub assign_new :
    (ℕ → String)
    → ℕ
    → List CandidateIdentity
    → List String
    → Dict String
    → Dict String × List String
assign_new fresh n [] blocked assignments = (assignments, [])
assign_new fresh n (c ∷ candidates) blocked assignments =
    let passed = assign_new fresh n candidates blocked assignments in
    let drawn =
      assign_new fresh (suc n) candidates blocked (insert c.candidate_id (fresh n) assignments) in
    if has_key c.candidate_id assignments || member c.candidate_id blocked
    then passed
    else (drawn.0, fresh n ∷ drawn.1)

abbrev pub rebound : CandidateIdentity → IdentityBinding → IdentityBinding
rebound c b = record {
  entry_id = b.entry_id;
  external_id = c.external_id;
  name_key = some c.name_key;
  connection_fingerprint = c.connection_fingerprint;
  active = true;
}

abbrev pub new_binding : String → CandidateIdentity → IdentityBinding
new_binding entry_id c = record {
  entry_id = entry_id;
  external_id = c.external_id;
  name_key = some c.name_key;
  connection_fingerprint = c.connection_fingerprint;
  active = true;
}

-- The binding of `by_entry`, the last one with the id, takes the candidate's keys; without one, a
-- binding is appended.
unfoldable pub bind : String → CandidateIdentity → List IdentityBinding → List IdentityBinding
bind entry_id c [] = new_binding entry_id c ∷ []
bind entry_id c (b ∷ bindings) =
    let later = b ∷ bind entry_id c bindings in
    if b.entry_id == entry_id && not (member entry_id (entry_ids bindings))
    then rebound c b ∷ bindings
    else later

abbrev pub deactivate : List IdentityBinding → List IdentityBinding
deactivate bindings = map {A = IdentityBinding} (λ b. record b { active = false }) bindings

abbrev pub bind_to :
    Option String
    → CandidateIdentity
    → List IdentityBinding
    → Result IdentityError (List IdentityBinding)
bind_to none c bindings = err no_entry_id
bind_to (some id) c bindings = ok (bind id c bindings)

-- The loop that applies the assignments; a candidate without one is a KeyError.
unfoldable pub bind_all :
    Dict String
    → List CandidateIdentity
    → List IdentityBinding
    → Result IdentityError (List IdentityBinding)
bind_all assignments [] bindings = ok bindings
bind_all assignments (c ∷ candidates) bindings =
    bind_to (lookup c.candidate_id assignments) c bindings >>= bind_all assignments candidates

abbrev pub has_conflict : List IdentityConflict → Bool
has_conflict [] = false
has_conflict (c ∷ cs) = true

abbrev pub disappeared : List IdentityBinding → List String → List String
disappeared previous used =
    entry_ids (keep (λ b. b.active && not (member b.entry_id used)) previous)

module _ (fresh : ℕ → String) (source_id : String) (candidates : List CandidateIdentity) where
  unfoldable pub result_of : List IdentityBinding → ReconciliationResult
  result_of previous =
      let p = match_candidates previous candidates in
      let (assignments, new_ids) = assign_new fresh 0 candidates p.blocked p.assignments in
      record {
        source_id = source_id;
        assignments = assignments;
        new_entry_ids = new_ids;
        disappeared_entry_ids = disappeared previous p.used_entries;
        conflicts = p.conflicts;
      }

  unfoldable pub apply_result :
      ReconciliationResult → Registry → Result IdentityError (Registry × ReconciliationResult)
  apply_result r registry = do
    bindings ← bind_all r.assignments candidates (deactivate (bindings_of source_id registry))
    ok (insert source_id bindings registry, r)

  -- `reconcile`
  unfoldable pub reconcile :
      Bool → Registry → Result IdentityError (Registry × ReconciliationResult)
  reconcile applied registry = do
    reject (not (unique (candidate_ids candidates))) candidates_not_unique
    let r = result_of (bindings_of source_id registry)
    if applied && not (has_conflict r.conflicts) then apply_result r registry else ok (registry, r)
