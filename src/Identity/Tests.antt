-- ===== src/Identity/Tests.antt =====
-- A source of two entries that is refreshed, mapped by hand and pruned.
use xray_e2e_prober.Base.{
  ℕ, zero, suc, ◌+◌, ◌≡◌, refl, ap, String, Bool, true, false, ◌⊎◌, none, some, List, [], ◌∷◌, ◌==◌,
  string_eq, unique, beq→eq, Bool-cases, inl, inr, ok, err, Dict, lookup, insert, has_key, Result,
  arith,
}
use xray_e2e_prober.Identity.Registry.{
  IdentityError, CandidateIdentity, IdentityBinding, ReconciliationResult, Registry, entry_ids,
  bindings_of, group_by, group_of, append_to, prune_unmatchable_inactive,
}
use xray_e2e_prober.Identity.Reconcile.{
  reconcile, apply_result, result_of, match_candidates, match_external_ids, match_names,
  match_fingerprints, match_leftover_names, match_duplicates, match_all, match_available,
  find_duplicates, by_external_id, by_name, by_fingerprint, by_leftover_name, by_duplicate,
  unresolved, available, assign, conflict, assign_new, bind_all, bind,
}
use xray_e2e_prober.Identity.Manual.{apply_manual_mapping}
use xray_e2e_prober.Identity.Assigned.{IsFresh}
use xray_e2e_prober.Identity.Stable.{Outcome, reconcile_exact}
use xray_e2e_prober.Identity.Mapped.{IsAllowed, IsTaken, manual_mapping_outcome}
use xray_e2e_prober.Identity.Pruned.{rows, Prunes, prune_exact}

-- Ids of a growing length, longer than those in use.
size : String → ℕ
size String.[] = 0
size (String.◌∷◌ c s) = suc (size s)

long : ℕ → String
long zero = "new"
long (suc n) = String.◌∷◌ "-" (long n)

size-long : (n : ℕ) → size (long n) ≡ n + 3
unfolding size long
size-long zero = refl
size-long (suc n) = omega (arith, size-long n)

long-new : (n : ℕ) (s : String) → size s ≡ 2 → (s == long n) ≡ false
long-new n s two = elim (Bool-cases (s == long n)) [
  | inr other ↦ other
  | inl same ↦ absurd (omega (arith, ap size (beq→eq s (long n) same), size-long n, two))
]

abbrev binding : String → String → Bool → IdentityBinding
binding id name active = record {
  entry_id = id;
  external_id = none;
  name_key = some name;
  connection_fingerprint = some "f";
  active = active;
}

abbrev candidate : String → String → CandidateIdentity
candidate id name = record {
  candidate_id = id;
  name_key = name;
  connection_fingerprint = some "g";
  external_id = none;
}

abbrev registry : Registry
registry =
    ("s1", binding "e1" "Oslo" true ∷ binding "e2" "Rome" true ∷ [])
    ∷ ("s2", binding "e3" "Bonn" true ∷ [])
    ∷ []

abbrev candidates : List CandidateIdentity
candidates = candidate "c1" "Oslo" ∷ candidate "c2" "Cork" ∷ []

long-IsFresh : IsFresh long (entry_ids (bindings_of "s1" registry))
unfolding bindings_of size lookup
long-IsFresh = record {
  distinct = λ i j e. omega (arith, ap size e, size-long i, size-long j);
  unknown = λ i. ground (arith, long-new i "e1" refl, long-new i "e2" refl);
}

ids_distinct : unique (entry_ids (bindings_of "s1" registry)) ≡ true
unfolding bindings_of lookup
ids_distinct = refl

abbrev assignments_of : Result IdentityError (Registry × ReconciliationResult) → Dict String
assignments_of (ok (after, r)) = r.assignments
assignments_of (err e) = []

-- The known name keeps its entry id, the other one gets the first new one.
reconciled :
    assignments_of (reconcile long "s1" candidates true registry)
    ≡ ("c1", "e1") ∷ ("c2", "new") ∷ []
unfolding reconcile apply_result result_of match_candidates match_external_ids match_names
    match_fingerprints match_leftover_names match_duplicates match_all match_available
    find_duplicates by_external_id by_name by_fingerprint by_leftover_name by_duplicate unresolved
    available assign conflict assign_new bind_all bind bindings_of group_by group_of append_to
    lookup insert has_key long
reconciled = refl

reconcile_exact_example :
    (registry' : Registry) × (r : ReconciliationResult) × (reconcile long "s1" candidates true
        registry
      ≡ ok (registry', r))
    × Outcome long "s1" candidates true registry registry' r
reconcile_exact_example =
    reconcile_exact long "s1" candidates true registry refl ids_distinct long-IsFresh

manual_mapping_outcome_example :
    ((registry' : Registry) × (r : ReconciliationResult) × (apply_manual_mapping
          (λ id. false)
          "s1"
          candidates
          (("c1", "e2") ∷ ("c2", "e1") ∷ [])
          registry
        ≡ ok (registry', r))
      × IsTaken
          (λ id. false)
          "s1"
          candidates
          (("c1", "e2") ∷ ("c2", "e1") ∷ [])
          registry
          registry'
          r)
    ⊎ ((e : IdentityError) × (apply_manual_mapping
            (λ id. false)
            "s1"
            candidates
            (("c1", "e2") ∷ ("c2", "e1") ∷ [])
            registry
          ≡ err e)
        × ¬ IsAllowed (λ id. false) "s1" candidates (("c1", "e2") ∷ ("c2", "e1") ∷ []) registry)
manual_mapping_outcome_example =
    manual_mapping_outcome (λ id. false) "s1" candidates (("c1", "e2") ∷ ("c2", "e1") ∷ []) registry
      ids_distinct

abbrev bare : String → IdentityBinding
bare id = record {
  entry_id = id;
  external_id = none;
  name_key = none;
  connection_fingerprint = none;
  active = false;
}

abbrev stale : Registry
stale = ("s1", bare "e0" ∷ binding "e1" "Oslo" false ∷ []) ∷ ("s2", bare "e2" ∷ []) ∷ []

prune_exact_example :
    Prunes (bindings_of "s1" stale) (bindings_of "s1" (prune_unmatchable_inactive stale).0)
    × (rows stale
        ≡ rows (prune_unmatchable_inactive stale).0 + (prune_unmatchable_inactive stale).1)
prune_exact_example = prune_exact stale "s1" refl
