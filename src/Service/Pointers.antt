-- ===== src/Service/Pointers.antt =====
-- Equality of what a pointer of the store leads to, as the comparison of two pydantic models.
use xray_e2e_prober.Base.{
  String, List, Bool, true, false, ◌≡◌, ◌↔◌, refl, ◌==◌, string_eq, Bool-cases, inl, inr, beq→eq,
  beq_refl,
}
use xray_e2e_prober.Models.Config.{EntryRecord, SourceGeneration}
use xray_e2e_prober.Models.States.{CheckMode, Compatibility}
use xray_e2e_prober.Identity.Registry.{IdentityBinding}

String-discrete : Discrete String
String-discrete a b = elim (Bool-cases (a == b)) [
  | inl same ↦ yes (beq→eq a b same)
  | inr other ↦ no (λ e. cc (rw e at other, beq_refl b))
]

of_decision {ℓ} : {A : Type ℓ} (d : Discrete A) (a b : A) → Bool
of_decision d a b = elim (d a b) [ yes h ↦ true | no h ↦ false ]

of_decision_iff {ℓ} : {A : Type ℓ} (d : Discrete A) (a b : A) → (of_decision d a b ≡ true) ↔ (a ≡ b)
unfolding of_decision
of_decision_iff d a b =
    elim (d a b) as (λ r. ((elim r [ yes h ↦ true | no h ↦ false ]) ≡ true) ↔ (a ≡ b)) [
      | yes h ↦ (λ e. h, λ e. refl)
      | no h ↦ (λ e. cc (e), λ e. absurd (h e))
    ]

CheckMode-discrete : Discrete CheckMode
CheckMode-discrete = hlevel

Compatibility-discrete : Discrete Compatibility
Compatibility-discrete = hlevel

EntryRecord-discrete : Discrete EntryRecord
EntryRecord-discrete = hlevel (String-discrete, CheckMode-discrete, Compatibility-discrete)

SourceGeneration-discrete : Discrete SourceGeneration
SourceGeneration-discrete = hlevel (String-discrete, EntryRecord-discrete)

IdentityBinding-discrete : Discrete IdentityBinding
IdentityBinding-discrete = hlevel (String-discrete)

-- A generation with its bindings.
abbrev pub Pointer : Type 0
Pointer = SourceGeneration × List IdentityBinding

Pointer-discrete : Discrete (SourceGeneration × List IdentityBinding)
Pointer-discrete = hlevel (SourceGeneration-discrete, IdentityBinding-discrete)

pub same_pointer : Pointer → Pointer → Bool
same_pointer = of_decision Pointer-discrete

pub same_pointer_iff : (a b : Pointer) → (same_pointer a b ≡ true) ↔ (a ≡ b)
unfolding same_pointer
same_pointer_iff = of_decision_iff Pointer-discrete
