-- ===== src/Checker/Verdict.antt =====
-- The verdict of `check_target_set`, in terms of the checks of its reachability targets.
use mathlib.Core.List.{map}
use xray_e2e_prober.Base.{
  ℕ, String, ◌≡◌, refl, ◌==◌, true, false, some, List, [], ◌∷◌, keep, count, All, if◌then◌else◌,
  string_eq, member, unique, Dict, lookup, eq_iff, arith,
}
use xray_e2e_prober.Models.States.{is_success, TargetResult}
use xray_e2e_prober.Models.Targets.{TargetConfig, TargetSetConfig}
use xray_e2e_prober.Checker.TargetSet
use xray_e2e_prober.Checker.TargetSet.{
  Runner, fresh_result, Cycle, select, value_of, collect, results_of, enabled_targets,
  is_reachability, health_targets, health_ids, health_results,
}
use xray_e2e_prober.Checker.Quorum.{Entry, entries, Absent, fresh}

abbrev ids : List TargetConfig → List String
ids = map (λ t. t.target_id)

-- Whether an id is that of a reachability target, for a list of targets with different ids.
absent-keep :
    (id : String) (ts : List TargetConfig)
    → member id (ids ts) ≡ false
    → member id (ids (keep is_reachability ts)) ≡ false
absent-keep id [] e = refl
absent-keep id (t ∷ ts) e = ground (arith, e, absent-keep id ts)

abbrev Told : List String → List TargetConfig → Type 0
Told hs = All (λ t. member t.target_id hs ≡ is_reachability t)

Told-cons :
    (u : TargetConfig) (ks ts : List TargetConfig)
    → member u.target_id (ids ts) ≡ false
    → Told (ids ks) ts
    → Told (ids (if is_reachability u then u ∷ ks else ks)) ts
Told-cons u ks [] e h = tt
Told-cons u ks (t ∷ ts) e h = (
  ground (arith, e, h.0, eq_iff u.target_id t.target_id, eq_iff t.target_id u.target_id),
  Told-cons u ks ts (ground (arith, e)) h.1,
)

told : (ts : List TargetConfig) → unique (ids ts) ≡ true → Told (ids (keep is_reachability ts)) ts
told [] u = tt
told (t ∷ ts) u =
    let apart : member t.target_id (ids ts) ≡ false = ground (arith, u) in
    (
      ground (arith, eq_iff t.target_id t.target_id, absent-keep t.target_id ts apart),
      Told-cons t (keep is_reachability ts) ts apart (told ts (ground (arith, u))),
    )

module _ (c : Cycle) (check : TargetConfig → TargetResult)
    (own : (t : TargetConfig) → (check t).target_id ≡ t.target_id) where
  -- Every lookup of the last loop succeeds, and the results of the reachability targets are those
  -- of their checks.
  collected :
      (cached fresh_results : Dict TargetResult) (hs : List String) (ts : List TargetConfig)
      → All (Entry c check own cached fresh_results) ts
      → Told hs ts
      → (rs : List TargetResult) × (collect cached fresh_results ts ≡ some rs)
        × (keep (λ r. member r.target_id hs) rs ≡ map check (keep is_reachability ts))
  unfolding collect
  collected cached fresh_results hs [] e h = ([], refl, refl)
  collected cached fresh_results hs (t ∷ ts) e h =
      let (rs, all_found, kept) = collected cached fresh_results hs ts e.1 h.1 in
      let first = e.0 in
      (
        first.result ∷ rs,
        rw (first.found, all_found) refl,
        ground (arith, kept, first.named, first.checked, h.0),
      )

  Absent-nil :
      (due : Dict ℕ) (ts : List TargetConfig)
      → Absent c check own (TargetSet.start_selection due) ts
  unfolding lookup
  Absent-nil due [] = tt
  Absent-nil due (t ∷ ts) = (refl, Absent-nil due ts)

  pub results_found :
      (due : Dict ℕ) (s : TargetSetConfig)
      → unique (ids (enabled_targets s)) ≡ true
      → (rs : List TargetResult) × (results_of c check due s ≡ some rs)
        × (health_results s rs ≡ map check (health_targets s))
  unfolding results_of
  results_found due s u =
      let ts = enabled_targets s in
      let sel = select c (TargetSet.start_selection due) ts in
      collected sel.cached (fresh c check own sel) (health_ids s) ts
        (entries c check own ts (TargetSet.start_selection due) u (Absent-nil due ts)) (told ts u)

-- A target that is run has an id.
abbrev Named : List TargetConfig → Type 0
Named ts = All (λ t. (t.target_id == "") ≡ false) ts

module _ (r : Runner) where
  -- The result under the target's own id, which it has anyway where that is not empty.
  abbrev owned : TargetConfig → TargetResult
  owned t = record (fresh_result r t) { target_id = t.target_id }

  -- The fresh checks of the reachability targets that succeed.
  abbrev pub successes : TargetSetConfig → ℕ
  successes s = count (λ x. is_success x.state) (map (fresh_result r) (health_targets s))
