-- ===== src/Inventory/Limits.antt =====
-- An inventory that is returned fits the runtimes that the scheduler may keep alive.
use xray_e2e_prober.Base.{
  subst, ℕ, String, ◌≤◌, ◌<◌, ◌≡◌, refl, true, ◌&&◌, List, [], ◌∷◌, All, ltb, leb, beq_refl, length,
  member, unique, add, member-add, Dict, inl, inr, Bool-cases, reject, ok, >>=-eq-ok, arith,
}
use xray_e2e_prober.Models.States.{persistent}
use xray_e2e_prober.Models.Config.{AppConfig, SourceGeneration}
use xray_e2e_prober.Assignments.Resolve.{Matching}
use xray_e2e_prober.Inventory.Compile.{
  too_many_persistent, no_slot_for_fresh, CompiledCheck, compile_sources, Profile, profile_eq,
  profile_of, has_lifecycle, enabled_checks, profile_set, persistent_profiles, has_fresh,
  within_limit, compile_inventory,
}

-- A persistent check's profile is one of those counted.
abbrev pub IsCounted : List Profile → CompiledCheck → Type 0
IsCounted ps k =
    has_lifecycle persistent k.definition.runtime_lifecycle ≡ true → member (profile_of k) ps ≡ true

unique-add : (p : Profile) (ps : List Profile) → unique ps ≡ true → unique (add p ps) ≡ true
unfolding add
unique-add p ps alone = elim (Bool-cases (member p ps)) [
  | inl old ↦ rw old alone
  | inr new ↦ rw (new, new) alone
]

profile_set-unique : (ks : List CompiledCheck) → unique (profile_set ks) ≡ true
unfolding profile_set
profile_set-unique [] = refl
profile_set-unique (k ∷ ks) =
    elim (Bool-cases (has_lifecycle persistent k.definition.runtime_lifecycle)) [
      | inl h ↦ rw h (unique-add (profile_of k) (profile_set ks) (profile_set-unique ks))
      | inr h ↦ rw h (profile_set-unique ks)
    ]

IsCounted-more :
    (p : Profile) (ps : List Profile) (ks : List CompiledCheck)
    → All (IsCounted ps) ks
    → All (IsCounted (add p ps)) ks
IsCounted-more p ps [] all = tt
IsCounted-more p ps (k ∷ ks) all =
    (λ h. ground (arith, member-add p (profile_of k) ps, all.0 h), IsCounted-more p ps ks all.1)

profile_set-counts : (ks : List CompiledCheck) → All (IsCounted (profile_set ks)) ks
unfolding profile_set
profile_set-counts [] = tt
profile_set-counts (k ∷ ks) =
    elim (Bool-cases (has_lifecycle persistent k.definition.runtime_lifecycle)) [
      | inl h ↦
          let step : add (profile_of k) (profile_set ks) ≡ profile_set (k ∷ ks) = rw h refl in
          subst (λ ps. All (IsCounted ps) (k ∷ ks)) step
            (
              λ _. ground (
                arith,
                member-add (profile_of k) (profile_of k) (profile_set ks),
                beq_refl (profile_of k),
              ),
              IsCounted-more (profile_of k) (profile_set ks) ks (profile_set-counts ks),
            )
      | inr h ↦
          let step : profile_set ks ≡ profile_set (k ∷ ks) = rw h refl in
          subst (λ ps. All (IsCounted ps) (k ∷ ks)) step
            (λ good. cc (good, h), profile_set-counts ks)
    ]

-- The distinct profiles of the enabled persistent checks fit the limit, with a slot to spare if an
-- enabled check is fresh.
pub record RuntimesFit (limit : ℕ) (d : Dict CompiledCheck) : Type 0 where
  pub distinct : unique (persistent_profiles d) ≡ true
  pub counted : All (IsCounted (persistent_profiles d)) (enabled_checks d)
  pub fits : length (persistent_profiles d) ≤ limit
  pub slot : has_fresh d ≡ true → length (persistent_profiles d) < limit

within_limit-RuntimesFit :
    (limit : ℕ) (compiled d : Dict CompiledCheck)
    → within_limit limit compiled ≡ ok d
    → RuntimesFit limit d
unfolding within_limit
within_limit-RuntimesFit limit compiled d e =
    let (_, few, e1) =
      >>=-eq-ok (reject (ltb limit (length (persistent_profiles compiled))) too_many_persistent) _
        e in
    let (_, room, e2) =
      >>=-eq-ok
        (reject (has_fresh compiled && leb limit (length (persistent_profiles compiled)))
          no_slot_for_fresh)
        _ e1 in
    let same : compiled ≡ d = ground (arith, e2) in
    subst (RuntimesFit limit) same record {
      distinct = profile_set-unique (enabled_checks compiled);
      counted = profile_set-counts (enabled_checks compiled);
      fits = ground (arith, few);
      slot = λ h. ground (arith, room, h);
    }

-- In an inventory that is returned, the profiles of the enabled persistent checks, each counted
-- once, are at most `max_active_runtimes`, and fewer if an enabled check is fresh.
pub compile_inventory_fits :
    (matching : Matching) (sha256 : List String → String) (c : AppConfig)
    (generations : Dict SourceGeneration) (d : Dict CompiledCheck)
    → compile_inventory matching sha256 c generations ≡ ok d
    → RuntimesFit c.scheduler.max_active_runtimes d
unfolding compile_inventory
compile_inventory_fits matching sha256 c generations d e =
    within_limit-RuntimesFit _ (compile_sources matching sha256 c generations []) d e
