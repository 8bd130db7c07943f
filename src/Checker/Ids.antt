-- ===== src/Checker/Ids.antt =====
-- The result of a target with an id has that id.
use xray_e2e_prober.Base.{
  ℕ, ◌≡◌, refl, ap, sym, ◌∙◌, Bool, false, ◌==◌, string_eq, Option, Result, ok, err, Result-cases,
  inl, inr, >>=-eq-ok, arith,
}
use xray_e2e_prober.Models.States.{TargetResult}
use xray_e2e_prober.Models.Targets.{TargetConfig}
use xray_e2e_prober.Checker.Failures.{Failure, target_error_result}
use xray_e2e_prober.Checker.Request.{Client, ResponseData, request}
use xray_e2e_prober.Checker.Target.{
  Outside, redirect_url, validate_target, plan_of, match_result, measured, judge, attempt, caught,
  check_target, out_of_rounds,
}

judge_id :
    (t : TargetConfig) (now elapsed : ℕ) (d : ResponseData) (m : Bool) (tp : Option ℕ)
    → (judge t now elapsed d m tp).target_id ≡ t.target_id
unfolding judge
judge_id t now elapsed d m tp = ground arith

module _ (out : Outside) (client : Client) (t : TargetConfig) (now elapsed : ℕ) where
  attempt_id :
      (x : TargetResult) → attempt out client t now elapsed ≡ ok x → x.target_id ≡ t.target_id
  unfolding attempt
  attempt_id x e =
      let (d, _, e1) =
        >>=-eq-ok (out_of_rounds (request client (redirect_url out) (plan_of out t) t.url)) _ e in
      let (m, _, e2) = >>=-eq-ok (match_result out t d) _ e1 in
      let (tp, _, e3) = >>=-eq-ok (measured out client t d m) _ e2 in
      let same : judge t now elapsed d m tp ≡ x = ground (arith, e3) in
      ap (λ y. y.target_id) (sym same) ∙ judge_id t now elapsed d m tp

  caught_id :
      (r : Result Failure TargetResult)
      → attempt out client t now elapsed ≡ r
      → (caught out client t now elapsed r).target_id ≡ t.target_id
  unfolding target_error_result
  caught_id (ok x) e = attempt_id x e
  caught_id (err problem) e = refl

  pub check_target_id :
      (t.target_id == "") ≡ false → (check_target out client t now elapsed).target_id ≡ t.target_id
  unfolding check_target target_error_result
  check_target_id h = elim (Result-cases (validate_target out t)) [
    | inr (e, bad) ↦ rw (bad, h) refl
    | inl (u, valid) ↦ rw valid (caught_id (attempt out client t now elapsed) refl)
  ]
