-- ===== src/Models/Overall.antt =====
-- The overall state of a cycle against the states that it combines.
use xray_e2e_prober.Base.{◌≡◌, refl, ◌↔◌, Bool, true, false, not, ◌||◌, List, [], ◌∷◌, all, arith}
use xray_e2e_prober.Models.States.{
  ReachabilityState, EgressState, is_success, is_unknown, is_failure, is_error, is_stale,
  egress_error, egress_stale, egress_unknown, egress_mismatch_state, some_egress, EgressResult,
  CycleResult, overall_state,
}

-- An assertion that holds up a cycle in no way: its answer matched, or it is turned off.
abbrev pub passes : EgressState → Bool
passes EgressState.match = true
passes EgressState.disabled = true
passes _ = false

abbrev all_pass : List EgressResult → Bool
all_pass es = all (λ item. passes item.state) es

abbrev troubled : EgressState → Bool
troubled s = egress_error s || egress_stale s || egress_unknown s || egress_mismatch_state s

passes-eq : (s : EgressState) → passes s ≡ not (troubled s)
passes-eq EgressState.match = refl
passes-eq EgressState.disabled = refl
passes-eq EgressState.mismatch = refl
passes-eq EgressState.unknown = refl
passes-eq EgressState.error = refl
passes-eq EgressState.stale = refl

all_pass-eq :
    (es : List EgressResult)
    → all_pass es
      ≡ not (
          some_egress egress_error es
          || some_egress egress_stale es
          || some_egress egress_unknown es
          || some_egress egress_mismatch_state es)
all_pass-eq [] = refl
all_pass-eq (x ∷ es) = ground (arith, all_pass-eq es, passes-eq x.state)

succeeds_by_itself :
    (s : ReachabilityState)
    → is_success s ≡ true
    → (is_error s ≡ false) × (is_stale s ≡ false) × (is_unknown s ≡ false) × (is_failure s ≡ false)
succeeds_by_itself ReachabilityState.success e = (refl, refl, refl, refl)
succeeds_by_itself ReachabilityState.failure e = cc (e)
succeeds_by_itself ReachabilityState.unknown e = cc (e)
succeeds_by_itself ReachabilityState.error e = cc (e)
succeeds_by_itself ReachabilityState.stale e = cc (e)
succeeds_by_itself ReachabilityState.disabled e = cc (e)

-- A cycle succeeds overall exactly if its reachability succeeds and each of its assertions matches
-- or is disabled.
pub overall_success :
    (c : CycleResult)
    → (is_success (overall_state c) ≡ true) ↔ (
        (is_success c.reachability.state ≡ true)
        × (all (λ item. passes item.state) c.egress ≡ true))
unfolding overall_state
overall_success c = (
  λ e. ground (arith, e, all_pass-eq c.egress),
  λ h. ground (arith, h.0, h.1, all_pass-eq c.egress, succeeds_by_itself c.reachability.state h.0),
)
