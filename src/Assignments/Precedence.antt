-- ===== src/Assignments/Precedence.antt =====
-- The order in which the rules decide.
use xray_e2e_prober.Base.{
  ◌≡◌, refl, ap, ◌⊎◌, inl, inr, Bool, true, false, Option, none, some, List, [], ◌∷◌, ◌++◌, All,
  Bool-cases,
}
use xray_e2e_prober.Models.Config.{AssignmentRule, EntryRecord}
use xray_e2e_prober.Assignments.Resolve
use xray_e2e_prober.Assignments.Resolve.{
  Matching, Rule, AssignmentDecision, is_explicit, is_applicable, decision, first, Defaults,
  default_for, resolve_assignment,
}

-- `r` passes a test that no rule before it passes.
pub record IsFirst (p : AssignmentRule → Bool) (rules : List AssignmentRule) (r : AssignmentRule)
    : Type 0 where
  pub front : List AssignmentRule
  pub back : List AssignmentRule
  pub place : front ++ r ∷ back ≡ rules
  pub passes : p r ≡ true
  pub none_before : All (λ q. p q ≡ false) front

abbrev Found : (AssignmentRule → Bool) → List AssignmentRule → Option AssignmentRule → Type 0
Found p rules none = All (λ q. p q ≡ false) rules
Found p rules (some r) = IsFirst p rules r

Found-later :
    (p : AssignmentRule → Bool) (q : AssignmentRule) (rules : List AssignmentRule)
    (r : Option AssignmentRule)
    → p q ≡ false
    → Found p rules r
    → Found p (q ∷ rules) r
Found-later p q rules none misses found = (misses, found)
Found-later p q rules (some r) misses found = record {
  front = q ∷ found.front;
  back = found.back;
  place = ap (λ t. q ∷ t) found.place;
  passes = found.passes;
  none_before = (misses, found.none_before);
}

first-Found :
    (p : AssignmentRule → Bool) (rules : List AssignmentRule) → Found p rules (first p rules)
unfolding first
first-Found p [] = tt
first-Found p (q ∷ rules) = elim (Bool-cases (p q)) [
  | inl hits ↦
      rw hits (record { front = []; back = rules; place = refl; passes = hits; none_before = tt })
  | inr misses ↦ rw misses (Found-later p q rules (first p rules) misses (first-Found p rules))
]

module _ (m : Matching) (e : EntryRecord) (rules : List AssignmentRule) (d : Defaults) where
  abbrev pub ByEntry : AssignmentDecision → Type 0
  ByEntry a =
      (r : AssignmentRule) × IsFirst (is_explicit e) rules r
      × (a ≡ decision e r (Rule.entry r.assignment_id))

  abbrev pub ByRule : AssignmentDecision → Type 0
  ByRule a =
      All (λ q. is_explicit e q ≡ false) rules
      × ((r : AssignmentRule) × IsFirst (is_applicable m e) rules r
          × (a ≡ decision e r (Rule.rule r.assignment_id)))

  abbrev pub ByDefault : AssignmentDecision → Type 0
  ByDefault a =
      All (λ q. is_explicit e q ≡ false) rules
      × All (λ q. is_applicable m e q ≡ false) rules
      × (a ≡ default_for e d d.source_target_set_ids)

  by_saved :
      (r : Option AssignmentRule)
      → All (λ q. is_explicit e q ≡ false) rules
      → Found (is_applicable m e) rules r
      → ByRule (Resolve.saved e d r) ⊎ ByDefault (Resolve.saved e d r)
  by_saved (some r) unnamed found = inl (unnamed, (r, found, refl))
  by_saved none unnamed found = inr (unnamed, found, refl)

  by_explicit :
      (r : Option AssignmentRule)
      → Found (is_explicit e) rules r
      → let a = Resolve.explicit m e rules d r in ByEntry a ⊎ ByRule a ⊎ ByDefault a
  by_explicit (some r) found = inl (r, found, refl)
  by_explicit none found = inr (by_saved _ found (first-Found (is_applicable m e) rules))

  -- The first rule that names the entry decides. Without one, the first saved rule whose source and
  -- filter fit the entry decides, and without that the defaults of the source or else the global ones.
  pub resolve_precedence :
      let a = resolve_assignment m e rules d in ByEntry a ⊎ ByRule a ⊎ ByDefault a
  unfolding resolve_assignment
  resolve_precedence = by_explicit _ (first-Found (is_explicit e) rules)
