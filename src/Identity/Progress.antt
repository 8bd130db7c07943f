-- ===== src/Identity/Progress.antt =====
-- The phases of a reconciliation give every entry id to one candidate at most.
use xray_e2e_prober.Base.{
  String, ◌≡◌, ◌≢◌, refl, true, false, List, [], ◌∷◌, ◌++◌, All, string_eq, member, unique, values,
  Bool-cases, inl, inr, eq_iff, arith,
}
use xray_e2e_prober.Identity.Registry.{CandidateIdentity, IdentityBinding, group_of, Message}
use xray_e2e_prober.Identity.Reconcile
use xray_e2e_prober.Identity.Reconcile.{
  Progress, no_progress, available, assign, conflict, by_external_id, by_name, by_fingerprint,
  by_leftover_name, by_duplicate, unresolved, old_by, match_all, match_available, find_duplicates,
  match_external_ids, match_names, match_fingerprints, match_leftover_names, match_duplicates,
  match_candidates,
}
use xray_e2e_prober.Identity.Groups.{values-insert, unique-values-insert}

-- Nothing is shared, nothing is made up, and a candidate is blocked only by a conflict.
pub record Sound (ids : List String) (p : Progress) : Type 0 where
  pub distinct : unique (values p.assignments) ≡ true
  pub recorded :
      (e : String) → member e (values p.assignments) ≡ true → member e p.used_entries ≡ true
  pub known : (e : String) → member e p.used_entries ≡ true → member e ids ≡ true
  pub free : p.conflicts ≡ [] → p.blocked ≡ []

-- A binding that may still be given away.
abbrev pub IsUsable : List String → Progress → IdentityBinding → Type 0
IsUsable ids p b = (member b.entry_id p.used_entries ≡ false) × (member b.entry_id ids ≡ true)

pub no_progress-Sound : (ids : List String) → Sound ids no_progress
no_progress-Sound ids = record {
  distinct = refl;
  recorded = λ e h. cc (h);
  known = λ e h. cc (h);
  free = λ h. refl;
}

assign-Sound :
    (ids : List String) (c : CandidateIdentity) (b : IdentityBinding) (p : Progress)
    → IsUsable ids p b
    → Sound ids p
    → Sound ids (assign c b p)
unfolding assign
assign-Sound ids c b p (new, known) v =
    let unused = v.recorded b.entry_id in
    record {
      distinct =
          unique-values-insert c.candidate_id b.entry_id p.assignments v.distinct
            (ground (arith, new, unused));
      recorded = λ e h.
          ground (arith, values-insert c.candidate_id b.entry_id e p.assignments h, v.recorded e);
      known = λ e h. ground (arith, h, v.known e, known, eq_iff b.entry_id e);
      free = v.free;
    }

append_nonempty : {A : Type 0} (xs : List A) (x : A) → xs ++ x ∷ [] ≢ []
append_nonempty [] x h = cc (h)
append_nonempty (y ∷ xs) x h = cc (h)

conflict-Sound :
    (ids : List String) (m : Message) (group : List CandidateIdentity) (old : List IdentityBinding)
    (p : Progress)
    → Sound ids p
    → Sound ids (conflict m group old p)
unfolding conflict
conflict-Sound ids m group old p v = record {
  distinct = v.distinct;
  recorded = v.recorded;
  known = v.known;
  free = λ h. absurd (append_nonempty p.conflicts _ h);
}

abbrev IsSoundPhase : List String → Reconcile.Phase → Type 0
IsSoundPhase ids phase =
    (group : List CandidateIdentity) (old : List IdentityBinding) (p : Progress)
    → All (IsUsable ids p) old
    → Sound ids p
    → Sound ids (phase group old p)

pub by_external_id-Sound : (ids : List String) → IsSoundPhase ids by_external_id
unfolding by_external_id
by_external_id-Sound ids [] old p usable v = v
by_external_id-Sound ids (c ∷ []) [] p usable v = v
by_external_id-Sound ids (c ∷ []) (b ∷ []) p usable v = assign-Sound ids c b p usable.0 v
by_external_id-Sound ids (c ∷ []) (b ∷ b' ∷ old) p usable v =
    conflict-Sound ids _ (c ∷ []) (b ∷ b' ∷ old) p v
by_external_id-Sound ids (c ∷ d ∷ group) old p usable v =
    conflict-Sound ids _ (c ∷ d ∷ group) old p v

pub by_name-Sound : (ids : List String) → IsSoundPhase ids by_name
unfolding by_name
by_name-Sound ids [] old p usable v = v
by_name-Sound ids (c ∷ []) [] p usable v = v
by_name-Sound ids (c ∷ []) (b ∷ []) p usable v = assign-Sound ids c b p usable.0 v
by_name-Sound ids (c ∷ []) (b ∷ b' ∷ old) p usable v = v
by_name-Sound ids (c ∷ d ∷ group) old p usable v = v

pub by_fingerprint-Sound : (ids : List String) → IsSoundPhase ids by_fingerprint
unfolding by_fingerprint
by_fingerprint-Sound ids group [] p usable v = v
by_fingerprint-Sound ids [] (b ∷ old) p usable v = conflict-Sound ids _ [] (b ∷ old) p v
by_fingerprint-Sound ids (c ∷ []) (b ∷ []) p usable v = assign-Sound ids c b p usable.0 v
by_fingerprint-Sound ids (c ∷ []) (b ∷ b' ∷ old) p usable v =
    conflict-Sound ids _ (c ∷ []) (b ∷ b' ∷ old) p v
by_fingerprint-Sound ids (c ∷ d ∷ group) (b ∷ old) p usable v =
    conflict-Sound ids _ (c ∷ d ∷ group) (b ∷ old) p v

pub by_leftover_name-Sound : (ids : List String) → IsSoundPhase ids by_leftover_name
unfolding by_leftover_name
by_leftover_name-Sound ids group [] p usable v = v
by_leftover_name-Sound ids group (b ∷ old) p usable v = conflict-Sound ids _ group (b ∷ old) p v

by_duplicate-Sound :
    (ids : List String) (group : List CandidateIdentity) (p : Progress)
    → Sound ids p
    → Sound ids (by_duplicate group p)
unfolding by_duplicate
by_duplicate-Sound ids [] p v = v
by_duplicate-Sound ids (c ∷ []) p v = v
by_duplicate-Sound ids (c ∷ d ∷ group) p v = conflict-Sound ids _ (c ∷ d ∷ group) [] p v

-- The bindings of a group are those of the registry, and the available ones are unused.
abbrev pub IsKnown : List String → IdentityBinding → Type 0
IsKnown ids b = member b.entry_id ids ≡ true

available-IsUsable :
    (ids : List String) (p : Progress) (items : List IdentityBinding)
    → All (IsKnown ids) items
    → All (IsUsable ids p) (available p items)
unfolding available
available-IsUsable ids p [] known = tt
available-IsUsable ids p (b ∷ items) known = elim (Bool-cases (member b.entry_id p.used_entries)) [
  | inl used ↦ rw used (available-IsUsable ids p items known.1)
  | inr new ↦ rw new ((new, known.0), available-IsUsable ids p items known.1)
]

unfoldable pub KnownGroups : List String → List (String × List IdentityBinding) → Type 0
KnownGroups ids old = (k : String) → All (IsKnown ids) (group_of k old)

pub match_available-Sound :
    (ids : List String) (phase : Reconcile.Phase) (old : List (String × List IdentityBinding))
    (groups : List (String × List CandidateIdentity)) (p : Progress)
    → IsSoundPhase ids phase
    → KnownGroups ids old
    → Sound ids p
    → Sound ids (match_available phase old groups p)
unfolding match_available KnownGroups
match_available-Sound ids phase old [] p step known v = v
match_available-Sound ids phase old ((key, group) ∷ groups) p step known v =
    match_available-Sound ids phase old groups _ step known (
      step group (available p (group_of key old)) p
        (available-IsUsable ids p (group_of key old) (known key)) v)

pub find_duplicates-Sound :
    {K : Type 0} (ids : List String) (groups : List (K × List CandidateIdentity)) (p : Progress)
    → Sound ids p
    → Sound ids (find_duplicates groups p)
unfolding find_duplicates
find_duplicates-Sound ids [] p v = v
find_duplicates-Sound ids ((key, group) ∷ groups) p v =
    find_duplicates-Sound ids groups _ (by_duplicate-Sound ids group p v)
