-- ===== src/Identity/Mapped.antt =====
-- A mapping by hand is taken exactly if it is allowed.
use xray_e2e_prober.Base.{
  String, ◌≡◌, refl, Bool, true, false, not, ◌||◌, List, [], ◌∷◌, map, map_All, All, any, all-All,
  any-All, member-append, ◌≢◌, beq→eq, beq_refl, if◌then◌else◌, ◌==◌, string_eq, member, unique,
  Dict, keys, values, lookup, insert, lookup-insert, has_key-member, Bool-cases, inl, inr, ◌⊎◌, ok,
  err, arith,
}
use xray_e2e_prober.Identity.Registry.{
  CandidateIdentity, ReconciliationResult, Registry, IdentityError, mapping_not_exact,
  entry_of_other_source, invalid_entry_id, entry_ids, candidate_ids, bindings_of,
}
use xray_e2e_prober.Identity.Reconcile.{deactivate}
use xray_e2e_prober.Identity.Manual.{
  same_set, other_source_ids, is_bad_id, manual_result, apply_manual_mapping,
}
use xray_e2e_prober.Identity.Stable.{bind_all_total, entry_ids-deactivate, bindings_of-insert}

-- Another source than the given one has a row with the id, active or not.
abbrev pub IsForeign : String → String → Registry → Type 0
IsForeign source_id id [] = ⊥
IsForeign source_id id ((other, bindings) ∷ sources) =
    ((other ≢ source_id) × (member id (entry_ids bindings) ≡ true)) ⊎ IsForeign source_id id sources

foreign_member :
    (source_id id : String) (registry : Registry)
    → IsForeign source_id id registry
    → member id (other_source_ids source_id registry) ≡ true
unfolding other_source_ids
foreign_member source_id id [] h = elim h [ ]
foreign_member source_id id ((other, bindings) ∷ sources) (inl (apart, there)) =
    elim (Bool-cases (other == source_id)) [
      | inl same ↦ absurd (apart (beq→eq other source_id same))
      | inr differs ↦
          rw (differs, member-append id (entry_ids bindings) (other_source_ids source_id sources))
            (ground (arith, there))
    ]
foreign_member source_id id ((other, bindings) ∷ sources) (inr later) =
    let there = foreign_member source_id id sources later in
    elim (Bool-cases (other == source_id)) [
      | inl same ↦ rw same there
      | inr differs ↦
          rw (differs, member-append id (entry_ids bindings) (other_source_ids source_id sources))
            (ground (arith, there))
    ]

member-IsForeign :
    (source_id id : String) (registry : Registry)
    → member id (other_source_ids source_id registry) ≡ true
    → IsForeign source_id id registry
unfolding other_source_ids
member-IsForeign source_id id [] h = cc (h)
member-IsForeign source_id id ((other, bindings) ∷ sources) h =
    elim (Bool-cases (other == source_id)) [
      | inl same ↦ inr (member-IsForeign source_id id sources (rw same at h))
      | inr differs ↦
          let split =
            rw (differs, member-append id (entry_ids bindings) (other_source_ids source_id sources))
              at h in
          elim (Bool-cases (member id (entry_ids bindings))) [
            | inl there ↦ inl (λ e. cc (rw (e, beq_refl source_id) at differs), there)
            | inr absent ↦
                inr (member-IsForeign source_id id sources (ground (arith, split, absent)))
          ]
    ]

own_id :
    (source_id : String) (registry : Registry) (id : String)
    → member id (other_source_ids source_id registry) ≡ false
    → ¬ IsForeign source_id id registry
own_id source_id registry id h f = cc (h, foreign_member source_id id registry f)

own_member :
    (source_id : String) (registry : Registry) (id : String)
    → ¬ IsForeign source_id id registry
    → member id (other_source_ids source_id registry) ≡ false
own_member source_id registry id apart =
    elim (Bool-cases (member id (other_source_ids source_id registry))) [
      | inl there ↦ absurd (apart (member-IsForeign source_id id registry there))
      | inr absent ↦ absent
    ]

module _ (is_id : String → Bool) (source_id : String) (candidates : List CandidateIdentity) where
  -- The mapping names every candidate and nothing else, maps no two to one id, takes no id of another
  -- source, and every id is known to the source or well-formed.
  pub record IsAllowed (mapping : Dict String) (registry : Registry) : Type 0 where
    pub named : All (λ k. member k (candidate_ids candidates) ≡ true) (keys mapping)
    pub mapped : All (λ k. member k (keys mapping) ≡ true) (candidate_ids candidates)
    pub distinct : unique (values mapping) ≡ true
    pub own : All (λ id. ¬ IsForeign source_id id registry) (values mapping)
    pub valid :
        All
          (λ id. (member id (entry_ids (bindings_of source_id registry)) || is_id id) ≡ true)
          (values mapping)

  -- What a taken mapping leaves: the mapping as the assignments, the source's ids distinct, and the
  -- other sources as they were.
  pub record IsTaken (mapping : Dict String) (registry registry' : Registry)
      (r : ReconciliationResult) : Type 0 where
    pub allowed : IsAllowed mapping registry
    pub assigned : r.assignments ≡ mapping
    pub unrelated :
        (other : String)
        → (if source_id == other then lookup other registry else lookup other registry')
          ≡ lookup other registry
    pub ids : unique (entry_ids (bindings_of source_id registry')) ≡ true

  abbrev exact_test : Dict String → Bool
  exact_test mapping =
      not (same_set (keys mapping) (candidate_ids candidates)) || not (unique (values mapping))

  abbrev foreign_test : Dict String → Registry → Bool
  foreign_test mapping registry =
      any (λ id. member id (other_source_ids source_id registry)) (values mapping)

  abbrev bad_test : Dict String → Registry → Bool
  bad_test mapping registry =
      any (is_bad_id is_id source_id candidates (entry_ids (bindings_of source_id registry)))
        (values mapping)

  IsAllowed-of :
      (mapping : Dict String) (registry : Registry)
      → exact_test mapping ≡ false
      → foreign_test mapping registry ≡ false
      → bad_test mapping registry ≡ false
      → IsAllowed mapping registry
  IsAllowed-of mapping registry e f b = record {
    named =
        (all-All (λ k. member k (candidate_ids candidates)) (keys mapping)).0 (ground (arith, e));
    mapped =
        (all-All (λ k. member k (keys mapping)) (candidate_ids candidates)).0 (ground (arith, e));
    distinct = ground (arith, e);
    own =
        map_All (λ id. member id (other_source_ids source_id registry) ≡ false)
          (λ id. ¬ IsForeign source_id id registry) (values mapping) (own_id source_id registry)
          ((any-All (λ id. member id (other_source_ids source_id registry)) (values mapping)).0 f);
    valid =
        map_All
          (λ id.
            is_bad_id is_id source_id candidates (entry_ids (bindings_of source_id registry)) id
            ≡ false)
          _ (values mapping) (λ id h. ground (arith, h))
          ((any-All
              (is_bad_id is_id source_id candidates (entry_ids (bindings_of source_id registry)))
              (values mapping)).0
            b);
  }

  tests-of :
      (mapping : Dict String) (registry : Registry)
      → IsAllowed mapping registry
      → (exact_test mapping ≡ false)
        × (foreign_test mapping registry ≡ false)
        × (bad_test mapping registry ≡ false)
  tests-of mapping registry v =
      let n = (all-All (λ k. member k (candidate_ids candidates)) (keys mapping)).1 v.named in
      let m = (all-All (λ k. member k (keys mapping)) (candidate_ids candidates)).1 v.mapped in
      (
        ground (arith, n, m, v.distinct),
        (any-All (λ id. member id (other_source_ids source_id registry)) (values mapping)).1 (
            map_All (λ id. ¬ IsForeign source_id id registry) _ (values mapping)
              (own_member source_id registry) v.own),
        (any-All (is_bad_id is_id source_id candidates (entry_ids (bindings_of source_id registry)))
              (values mapping)).1
            (map_All
              (λ id. (member id (entry_ids (bindings_of source_id registry)) || is_id id) ≡ true) _
              (values mapping) (λ id h. ground (arith, h)) v.valid),
      )

All-map :
    {A B : Type 0} (f : A → B) (P : B → Type 0) (xs : List A)
    → All P (map f xs)
    → All (λ x. P (f x)) xs
All-map f P [] h = tt
All-map f P (x ∷ xs) h = (h.0, All-map f P xs h.1)

module _ (is_id : String → Bool) (source_id : String) (candidates : List CandidateIdentity) where
  -- Where the entry ids of the source are distinct: a mapping is either taken, and then it is allowed,
  -- becomes the assignments, leaves the other sources as they are and the source's entry ids distinct,
  -- or it is refused, and then it is not allowed.
  pub manual_mapping_outcome :
      (mapping : Dict String) (registry : Registry)
      → unique (entry_ids (bindings_of source_id registry)) ≡ true
      → ((registry' : Registry) × (r : ReconciliationResult) × (apply_manual_mapping is_id source_id
              candidates mapping registry
            ≡ ok (registry', r))
          × IsTaken is_id source_id candidates mapping registry registry' r)
        ⊎ ((e : IdentityError) × (apply_manual_mapping is_id source_id candidates mapping registry
              ≡ err e)
            × ¬ IsAllowed is_id source_id candidates mapping registry)
  unfolding apply_manual_mapping
  manual_mapping_outcome mapping registry u =
      elim (Bool-cases (exact_test is_id source_id candidates mapping)) [
        | inl e ↦ inr (
          mapping_not_exact,
          rw e refl,
          λ v. cc (e, (tests-of is_id source_id candidates mapping registry v).0),
        )
        | inr e ↦ elim (Bool-cases (foreign_test is_id source_id candidates mapping registry)) [
          | inl f ↦ inr (
            entry_of_other_source,
            rw (e, f) refl,
            λ v. cc (f, (tests-of is_id source_id candidates mapping registry v).1),
          )
          | inr f ↦ elim (Bool-cases (bad_test is_id source_id candidates mapping registry)) [
            | inl b ↦ inr (
              invalid_entry_id,
              rw (e, f, b) refl,
              λ v. cc (b, (tests-of is_id source_id candidates mapping registry v).2),
            )
            | inr b ↦
                let v = IsAllowed-of is_id source_id candidates mapping registry e f b in
                let previous = bindings_of source_id registry in
                let (bs, found, u') =
                  bind_all_total mapping candidates (deactivate previous)
                    (map_All (λ c. member c.candidate_id (keys mapping) ≡ true) _ candidates
                      (λ c h. rw (has_key-member c.candidate_id mapping) h)
                      (All-map (λ c. c.candidate_id) (λ k. member k (keys mapping) ≡ true)
                        candidates v.mapped))
                    (rw (entry_ids-deactivate previous) u) in
                inl (
                  insert source_id bs registry,
                  manual_result is_id source_id candidates mapping (entry_ids previous) bs,
                  rw (e, f, b, found) refl,
                  record {
                    allowed = v;
                    assigned = refl;
                    unrelated = λ other. ground (arith, lookup-insert source_id other bs registry);
                    ids = rw (bindings_of-insert source_id bs registry) u';
                  },
                )
          ]
        ]
      ]
