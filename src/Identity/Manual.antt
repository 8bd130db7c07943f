-- ===== src/Identity/Manual.antt =====
-- src/xray_e2e_prober/identity.py: `apply_manual_mapping`. The pattern of a valid id is an argument,
-- and the mapping is a dictionary: none of its keys stands twice.
use xray_e2e_prober.Base.{
  String, Bool, not, ◌&&◌, ◌||◌, List, [], ◌∷◌, ◌++◌, all, any, keep, if◌then◌else◌, ◌==◌,
  string_eq, member, unique, Dict, keys, values, insert, Result, ok, ◌>>=◌, ◌>>◌, reject,
}
use xray_e2e_prober.Identity.Registry.{
  IdentityError, mapping_not_exact, entry_of_other_source, invalid_entry_id, CandidateIdentity,
  IdentityBinding, ReconciliationResult, Registry, entry_ids, candidate_ids, bindings_of,
}
use xray_e2e_prober.Identity.Reconcile.{bind_all, deactivate}

-- Two lists as sets.
abbrev pub within : List String → List String → Bool
within xs ys = all (λ x. member x ys) xs

abbrev pub same_set : List String → List String → Bool
same_set xs ys = within xs ys && within ys xs

-- The entry ids of the other sources.
unfoldable pub other_source_ids : String → Registry → List String
other_source_ids source_id [] = []
other_source_ids source_id ((id, bindings) ∷ sources) =
    let rest = other_source_ids source_id sources in
    if id == source_id then rest else entry_ids bindings ++ rest

module _ (is_id : String → Bool) (source_id : String) (candidates : List CandidateIdentity) where
  abbrev pub is_bad_id : List String → String → Bool
  is_bad_id known entry_id = not (member entry_id known) && not (is_id entry_id)

  abbrev pub manual_result : Dict String → List String → List IdentityBinding → ReconciliationResult
  manual_result mapping known bindings = record {
    source_id = source_id;
    assignments = mapping;
    new_entry_ids = keep (λ id. not (member id known)) (values mapping);
    disappeared_entry_ids = keep (λ id. not (member id (values mapping))) (entry_ids bindings);
    conflicts = [];
  }

  unfoldable pub apply_manual_mapping :
      Dict String → Registry → Result IdentityError (Registry × ReconciliationResult)
  apply_manual_mapping mapping registry = do
    let known = entry_ids (bindings_of source_id registry)
    reject
        (not (same_set (keys mapping) (candidate_ids candidates)) || not (unique (values mapping)))
        mapping_not_exact
    reject (any (λ id. member id (other_source_ids source_id registry)) (values mapping))
        entry_of_other_source
    reject (any (is_bad_id known) (values mapping)) invalid_entry_id
    bindings ← bind_all mapping candidates (deactivate (bindings_of source_id registry))
    ok (insert source_id bindings registry, manual_result mapping known bindings)
