-- ===== src/Identity/Stable.antt =====
-- A reconciliation that is applied, and one that is refused: what happens to the registry.
use xray_e2e_prober.Base.{
  ℕ, String, ◌≡◌, refl, sym, ap, subst, Bool, true, false, not, ◌&&◌, List, [], ◌∷◌, All, string_eq,
  Option-cases, beq_refl, unique, Dict, values, lookup, insert, lookup-insert, has_key, Bool-cases,
  inl, inr, ◌⊎◌, ok, eq_iff, arith,
}
use xray_e2e_prober.Identity.Registry.{
  CandidateIdentity, IdentityBinding, IdentityConflict, ReconciliationResult, Registry, entry_ids,
  candidate_ids, bindings_of,
}
use xray_e2e_prober.Identity.Reconcile.{
  bind, bind_all, deactivate, has_conflict, result_of, apply_result, reconcile, match_candidates,
  assign_new,
}
use xray_e2e_prober.Identity.Groups.{with_last, unique-with_last}
use xray_e2e_prober.Identity.Assigned.{
  IsFresh, match_candidates-Sound, assign_new-unique, assign_new_total, recorded-Drawn,
}

-- Binding an id adds it at the end, unless it is there.
entry_ids-bind :
    (id : String) (c : CandidateIdentity) (bindings : List IdentityBinding)
    → entry_ids (bind id c bindings) ≡ with_last id (entry_ids bindings)
unfolding bind
entry_ids-bind id c [] = refl
entry_ids-bind id c (b ∷ bindings) =
    ground (arith, entry_ids-bind id c bindings, eq_iff b.entry_id id)

pub entry_ids-deactivate :
    (bindings : List IdentityBinding) → entry_ids (deactivate bindings) ≡ entry_ids bindings
entry_ids-deactivate [] = refl
entry_ids-deactivate (b ∷ bindings) = ap (λ ids. b.entry_id ∷ ids) (entry_ids-deactivate bindings)

pub bind_all_total :
    (assignments : Dict String) (candidates : List CandidateIdentity)
    (bindings : List IdentityBinding)
    → All (λ c. has_key c.candidate_id assignments ≡ true) candidates
    → unique (entry_ids bindings) ≡ true
    → (bs : List IdentityBinding) × (bind_all assignments candidates bindings ≡ ok bs)
      × (unique (entry_ids bs) ≡ true)
unfolding bind_all has_key
bind_all_total assignments [] bindings has u = (bindings, refl, u)
bind_all_total assignments (c ∷ candidates) bindings has u =
    elim (Option-cases (lookup c.candidate_id assignments)) [
      | inl absent ↦ cc (rw absent at has.0)
      | inr (id, found) ↦ rw found (
          bind_all_total assignments candidates (bind id c bindings) has.1
            (rw (entry_ids-bind id c bindings) (unique-with_last id (entry_ids bindings) u)))
    ]

pub bindings_of-insert :
    (source_id : String) (bindings : List IdentityBinding) (registry : Registry)
    → bindings_of source_id (insert source_id bindings registry) ≡ bindings
unfolding bindings_of
bindings_of-insert source_id bindings registry =
    rw (lookup-insert source_id source_id bindings registry, beq_refl source_id) refl

no_conflict : (cs : List IdentityConflict) → has_conflict cs ≡ false → cs ≡ []
no_conflict [] h = refl
no_conflict (c ∷ cs) h = cc (h)

module _ (fresh : ℕ → String) (source_id : String) (candidates : List CandidateIdentity) where
  -- What a result without a conflict says of the candidates.
  pub record IsExact (r : ReconciliationResult) : Type 0 where
    pub distinct : unique (values r.assignments) ≡ true
    pub covered : All (λ c. has_key c.candidate_id r.assignments ≡ true) candidates

  result_of-IsExact :
      (previous : List IdentityBinding)
      → unique (entry_ids previous) ≡ true
      → IsFresh fresh (entry_ids previous)
      → has_conflict (result_of fresh source_id candidates previous).conflicts ≡ false
      → IsExact (result_of fresh source_id candidates previous)
  unfolding result_of
  result_of-IsExact previous u f h =
      let p = match_candidates previous candidates in
      let v = match_candidates-Sound previous candidates u in
      let free = v.free (no_conflict p.conflicts h) in
      record {
        distinct =
            assign_new-unique fresh (entry_ids previous) f 0 candidates p.blocked p.assignments
              v.distinct
              (recorded-Drawn fresh (entry_ids previous) f p.assignments
                (λ e m. v.known e (v.recorded e m)));
        covered =
            subst
              (λ blocked.
                All
                  (λ c.
                    has_key c.candidate_id (assign_new fresh 0 candidates blocked p.assignments).0
                    ≡ true)
                  candidates)
              (sym free) (assign_new_total fresh 0 candidates p.assignments);
      }

  -- The outcome of a reconciliation: refused or not applied, or applied with an exact result.
  abbrev pub Outcome : Bool → Registry → Registry → ReconciliationResult → Type 0
  Outcome applied registry registry' r =
      (((applied && not (has_conflict r.conflicts)) ≡ false) × (registry' ≡ registry))
      ⊎ ((applied ≡ true)
          × (has_conflict r.conflicts ≡ false)
          × IsExact r
          × (unique (entry_ids (bindings_of source_id registry')) ≡ true))

  -- A reconciliation of candidates with distinct ids against a source whose entry ids are distinct,
  -- with ids drawn that repeat none, returns. Either the registry is as before, because there is a
  -- conflict or the result is not to be applied; or it is to be applied, there is no conflict, every candidate has an
  -- entry id, no two have the same one, and the entry ids of the source stay distinct.
  pub reconcile_exact :
      (applied : Bool) (registry : Registry)
      → unique (candidate_ids candidates) ≡ true
      → unique (entry_ids (bindings_of source_id registry)) ≡ true
      → IsFresh fresh (entry_ids (bindings_of source_id registry))
      → (registry' : Registry) × (r : ReconciliationResult) × (reconcile fresh source_id candidates
            applied registry
          ≡ ok (registry', r))
        × Outcome applied registry registry' r
  unfolding reconcile apply_result
  reconcile_exact applied registry uc u f =
      let previous = bindings_of source_id registry in
      let r = result_of fresh source_id candidates previous in
      elim (Bool-cases (applied && not (has_conflict r.conflicts))) [
        | inr kept ↦ (registry, r, rw (uc, kept) refl, inl (kept, refl))
        | inl go ↦
            let h : has_conflict r.conflicts ≡ false = ground (arith, go) in
            let exact = result_of-IsExact previous u f h in
            let (bs, e, u') =
              bind_all_total r.assignments candidates (deactivate previous) exact.covered
                (rw (entry_ids-deactivate previous) u) in
            (
              insert source_id bs registry,
              r,
              rw (uc, go, e) refl,
              inr (ground (arith, go), h, exact, rw (bindings_of-insert source_id bs registry) u'),
            )
      ]
