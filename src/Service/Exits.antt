-- ===== src/Service/Exits.antt =====
-- The exit code of `run_checks` against what it says of the results.
use xray_e2e_prober.Base.{
  ◌≡◌, refl, Bool, false, ◌||◌, List, [], ◌∷◌, any, All, any-All, map_All, both_All, inl, inr, ◌⊎◌,
  ◌↔◌, arith,
}
use xray_e2e_prober.Models.States.{ReachabilityState, EgressState, EgressResult, RunResult}
use xray_e2e_prober.Service.Results.{
  is_undecided, is_failed, is_open, is_mismatch, some_egress, exit_code,
}

-- The check succeeded, and the egress of each profile is the expected one where it is compared.
abbrev pub IsAccepted : EgressResult → Type 0
IsAccepted e = (e.state ≡ EgressState.match) ⊎ (e.state ≡ EgressState.disabled)

abbrev pub IsGood : RunResult → Type 0
IsGood r = (r.state ≡ ReachabilityState.success) × All IsAccepted r.egress_results

abbrev pub IsSome : {A : Type 0} → List A → Type 0
IsSome [] = ⊥
IsSome (x ∷ xs) = Unit

state_good :
    (s : ReachabilityState)
    → is_undecided s ≡ false
    → is_failed s ≡ false
    → s ≡ ReachabilityState.success
state_good ReachabilityState.success u f = refl
state_good ReachabilityState.failure u f = cc (f)
state_good ReachabilityState.unknown u f = cc (u)
state_good ReachabilityState.error u f = cc (u)
state_good ReachabilityState.stale u f = cc (u)
state_good ReachabilityState.disabled u f = cc (u)

egress_good :
    (s : EgressState)
    → is_open s ≡ false
    → is_mismatch s ≡ false
    → (s ≡ EgressState.match) ⊎ (s ≡ EgressState.disabled)
egress_good EgressState.match o m = inl refl
egress_good EgressState.disabled o m = inr refl
egress_good EgressState.mismatch o m = cc (m)
egress_good EgressState.unknown o m = cc (o)
egress_good EgressState.error o m = cc (o)
egress_good EgressState.stale o m = cc (o)

accepted_closed :
    (e : EgressResult) → IsAccepted e → (is_open e.state ≡ false) × (is_mismatch e.state ≡ false)
accepted_closed e (inl h) = (rw h refl, rw h refl)
accepted_closed e (inr h) = (rw h refl, rw h refl)

abbrev is_bad : RunResult → Bool
is_bad r =
    is_undecided r.state
    || is_failed r.state
    || any (λ e. is_open e.state) r.egress_results
    || any (λ e. is_mismatch e.state) r.egress_results

bad-IsGood : (r : RunResult) → (is_bad r ≡ false) ↔ IsGood r
bad-IsGood r = (
  λ h. (
    state_good r.state (ground (arith, h)) (ground (arith, h)),
    map_All (λ e. (is_open e.state ≡ false) × (is_mismatch e.state ≡ false)) IsAccepted
        r.egress_results (λ e b. egress_good e.state b.0 b.1)
        (both_All _ _ r.egress_results
          ((any-All (λ e. is_open e.state) r.egress_results).0 (ground (arith, h)))
          ((any-All (λ e. is_mismatch e.state) r.egress_results).0 (ground (arith, h)))),
  ),
  λ g.
      let closed = (any-All (λ e. is_open e.state) r.egress_results).1 (
        map_All IsAccepted (λ e. is_open e.state ≡ false) r.egress_results
          (λ e h. (accepted_closed e h).0) g.1) in
      let matched = (any-All (λ e. is_mismatch e.state) r.egress_results).1 (
        map_All IsAccepted (λ e. is_mismatch e.state ≡ false) r.egress_results
          (λ e h. (accepted_closed e h).1) g.1) in
      rw (g.0, closed, matched) refl,
)

any_bad :
    (rs : List RunResult)
    → any is_bad rs ≡ (
        any (λ r. is_undecided r.state) rs
        || some_egress is_open rs
        || any (λ r. is_failed r.state) rs
        || some_egress is_mismatch rs)
any_bad [] = refl
any_bad (r ∷ rs) = ground (arith, any_bad rs)

-- The exit code is 0 exactly if there are results, each of them a success, and each egress in them
-- is the expected one or not compared.
pub exit_code_success : (rs : List RunResult) → (exit_code rs ≡ 0) ↔ (IsSome rs × All IsGood rs)
unfolding exit_code
exit_code_success [] = (λ h. omega (arith, h), λ h. elim h.0 [ ])
exit_code_success (r ∷ rs) = (
  λ h. (
    tt,
    map_All (λ x. is_bad x ≡ false) IsGood (r ∷ rs) (λ x. (bad-IsGood x).0)
        ((any-All is_bad (r ∷ rs)).0 (ground (arith, h, any_bad (r ∷ rs)))),
  ),
  λ h.
      let fine =
        (any-All is_bad (r ∷ rs)).1
          (map_All IsGood (λ x. is_bad x ≡ false) (r ∷ rs) (λ x. (bad-IsGood x).1) h.1) in
      ground (arith, fine, any_bad (r ∷ rs)),
)
