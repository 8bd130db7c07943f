-- ===== src/Identity/Assigned.antt =====
-- All phases together, and the loop that draws new ids: no entry id is given to two candidates.
use xray_e2e_prober.Base.{
  ℕ, suc, ◌≤◌, String, ◌≡◌, refl, sym, subst, pair_eq, option_eq, true, false, ◌||◌, Option, some,
  List, [], ◌∷◌, All, map_All, members_map, ◌==◌, string_eq, beq→eq, member, unique, Dict, values,
  insert, has_key, insert_has, insert_keeps, Bool-cases, inl, inr, arith,
}
use xray_e2e_prober.Identity.Registry.{
  CandidateIdentity, IdentityBinding, entry_ids, present, group_by, group_of,
}
use xray_e2e_prober.Identity.Reconcile.{
  by_name, by_fingerprint, by_leftover_name, unresolved, old_by, match_external_ids, match_names,
  match_fingerprints, match_leftover_names, match_duplicates, match_candidates, no_progress,
  assign_new,
}
use xray_e2e_prober.Identity.Groups.{values-insert, unique-values-insert, group_by-Grouped}
use xray_e2e_prober.Identity.Progress.{
  Sound, IsKnown, KnownGroups, by_name-Sound, by_fingerprint-Sound, by_leftover_name-Sound,
  match_available-Sound, find_duplicates-Sound,
}
use xray_e2e_prober.Identity.External.{match_external_ids-Sound}

-- The groups of the old bindings hold old bindings.
old_by-KnownGroups :
    (key : IdentityBinding → Option String) (previous : List IdentityBinding)
    → KnownGroups (entry_ids previous) (old_by key previous)
unfolding KnownGroups group_of
old_by-KnownGroups key previous k =
    let ids = entry_ids previous in
    map_All (λ b. (present (key b) ≡ some k) × IsKnown ids b) (IsKnown ids)
      (group_of k (old_by key previous)) (λ b h. h.1)
      (group_by-Grouped (λ b. present (key b)) (IsKnown ids) previous []
        (members_map (λ b. b.entry_id) previous) (λ j. tt) k)

pub match_candidates-Sound :
    (previous : List IdentityBinding) (candidates : List CandidateIdentity)
    → unique (entry_ids previous) ≡ true
    → Sound (entry_ids previous) (match_candidates previous candidates)
unfolding match_candidates match_names match_fingerprints match_leftover_names match_duplicates
match_candidates-Sound previous candidates u =
    let ids = entry_ids previous in
    let p1 = match_external_ids previous candidates no_progress in
    let v1 = match_external_ids-Sound previous u candidates in
    let v2 =
      match_available-Sound ids by_name (old_by (λ b. b.name_key) previous)
        (group_by (λ c. some c.name_key) [] (unresolved candidates p1)) p1 (by_name-Sound ids)
        (old_by-KnownGroups (λ b. b.name_key) previous) v1 in
    let p2 = match_names previous candidates p1 in
    let v3 =
      match_available-Sound ids by_fingerprint (old_by (λ b. b.connection_fingerprint) previous)
        (group_by (λ c. present c.connection_fingerprint) [] (unresolved candidates p2)) p2
        (by_fingerprint-Sound ids) (old_by-KnownGroups (λ b. b.connection_fingerprint) previous)
        v2 in
    let p3 = match_fingerprints previous candidates p2 in
    let v4 =
      match_available-Sound ids by_leftover_name (old_by (λ b. b.name_key) previous)
        (group_by (λ c. some c.name_key) [] (unresolved candidates p3)) p3
        (by_leftover_name-Sound ids) (old_by-KnownGroups (λ b. b.name_key) previous) v3 in
    find_duplicates-Sound ids
      (group_by {K = String × Option String} (λ c. some (c.name_key, c.connection_fingerprint)) []
        (unresolved candidates (match_leftover_names previous candidates p3)))
      _ v4

-- Ids that no draw repeats and no old binding has.
pub record IsFresh (fresh : ℕ → String) (ids : List String) : Type 0 where
  pub distinct : (i j : ℕ) → fresh i ≡ fresh j → i ≡ j
  pub unknown : (i : ℕ) → member (fresh i) ids ≡ false

module _ (fresh : ℕ → String) (ids : List String) (v : IsFresh fresh ids) where
  -- Every value is an old id or was drawn before.
  abbrev pub Drawn : ℕ → Dict String → Type 0
  Drawn n m = (i : ℕ) → n ≤ i → member (fresh i) (values m) ≡ false

  Drawn-insert :
      (n : ℕ) (c : String) (m : Dict String) → Drawn n m → Drawn (suc n) (insert c (fresh n) m)
  Drawn-insert n c m d i le = elim (Bool-cases (member (fresh i) (values (insert c (fresh n) m)))) [
    | inr new ↦ new
    | inl old ↦ elim (Bool-cases (fresh n == fresh i)) [
      | inl same ↦ absurd (omega (arith, v.distinct n i (beq→eq (fresh n) (fresh i) same)))
      | inr apart ↦
          ground (arith, apart, d i (omega arith), values-insert c (fresh n) (fresh i) m old)
    ]
  ]

  -- The drawn assignments are distinct, and what was assigned or blocked stays as it was.
  pub assign_new-unique :
      (n : ℕ) (candidates : List CandidateIdentity) (blocked : List String) (m : Dict String)
      → unique (values m) ≡ true
      → Drawn n m
      → unique (values (assign_new fresh n candidates blocked m).0) ≡ true
  unfolding assign_new
  assign_new-unique n [] blocked m u d = u
  assign_new-unique n (c ∷ candidates) blocked m u d =
      elim (Bool-cases (has_key c.candidate_id m || member c.candidate_id blocked)) [
        | inl skip ↦ rw skip (assign_new-unique n candidates blocked m u d)
        | inr draw ↦ rw draw (
            assign_new-unique (suc n) candidates blocked (insert c.candidate_id (fresh n) m)
              (unique-values-insert c.candidate_id (fresh n) m u (d n (omega arith)))
              (Drawn-insert n c.candidate_id m d))
      ]

  -- Ids that were not drawn are unknown.
  pub recorded-Drawn :
      (m : Dict String)
      → ((e : String) → member e (values m) ≡ true → member e ids ≡ true)
      → Drawn 0 m
  recorded-Drawn m known i le = elim (Bool-cases (member (fresh i) (values m))) [
    | inr new ↦ new
    | inl old ↦ cc (known (fresh i) old, v.unknown i)
  ]

module _ (fresh : ℕ → String) where
  assign_new_keeps :
      (n : ℕ) (candidates : List CandidateIdentity) (blocked : List String) (m : Dict String)
      (k : String)
      → has_key k m ≡ true
      → has_key k (assign_new fresh n candidates blocked m).0 ≡ true
  unfolding assign_new
  assign_new_keeps n [] blocked m k h = h
  assign_new_keeps n (c ∷ candidates) blocked m k h =
      elim (Bool-cases (has_key c.candidate_id m || member c.candidate_id blocked)) [
        | inl skip ↦ rw skip (assign_new_keeps n candidates blocked m k h)
        | inr draw ↦ rw draw (
            assign_new_keeps (suc n) candidates blocked (insert c.candidate_id (fresh n) m) k
              (insert_keeps k c.candidate_id (fresh n) m h))
      ]

  -- One round of the loop, where nothing is blocked.
  assign_new_skip :
      (n : ℕ) (c : CandidateIdentity) (candidates : List CandidateIdentity) (m : Dict String)
      → has_key c.candidate_id m ≡ true
      → (assign_new fresh n (c ∷ candidates) [] m).0 ≡ (assign_new fresh n candidates [] m).0
  unfolding assign_new
  assign_new_skip n c candidates m old = rw old refl

  assign_new_draw :
      (n : ℕ) (c : CandidateIdentity) (candidates : List CandidateIdentity) (m : Dict String)
      → has_key c.candidate_id m ≡ false
      → (assign_new fresh n (c ∷ candidates) [] m).0
        ≡ (assign_new fresh (suc n) candidates [] (insert c.candidate_id (fresh n) m)).0
  unfolding assign_new
  assign_new_draw n c candidates m new = rw new refl

  -- Where nothing is blocked, every candidate has an entry id in the end.
  pub assign_new_total :
      (n : ℕ) (candidates : List CandidateIdentity) (m : Dict String)
      → All (λ c. has_key c.candidate_id (assign_new fresh n candidates [] m).0 ≡ true) candidates
  assign_new_total n [] m = tt
  assign_new_total n (c ∷ candidates) m = elim (Bool-cases (has_key c.candidate_id m)) [
    | inl old ↦
        subst (λ a. All (λ x. has_key x.candidate_id a ≡ true) (c ∷ candidates))
          (sym (assign_new_skip n c candidates m old))
          (assign_new_keeps n candidates [] m c.candidate_id old, assign_new_total n candidates m)
    | inr new ↦
        let m' = insert c.candidate_id (fresh n) m in
        subst (λ a. All (λ x. has_key x.candidate_id a ≡ true) (c ∷ candidates))
          (sym (assign_new_draw n c candidates m new))
          (
            assign_new_keeps (suc n) candidates [] m' c.candidate_id
                (insert_has c.candidate_id (fresh n) m),
            assign_new_total (suc n) candidates m',
          )
  ]
