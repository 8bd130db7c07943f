-- ===== src/Checker/EgressVerdict.antt =====
-- What a verdict of `check_egress` rests on.
use xray_e2e_prober.Base.{
  ℕ, ◌≤◌, ◌≢◌, ◌⊎◌, none, [], ◌∷◌, String, ◌≡◌, refl, ap, ◌∙◌, sym, Bool, true, false, some, List,
  Bool-cases, inl, inr, Result, ok, reject, Result-cases, >>=-eq-ok, subst, arith,
}
use xray_e2e_prober.Models.States.{EgressState, EgressResult}
use xray_e2e_prober.Models.Config.{EgressAssertionConfig}
use xray_e2e_prober.Checker.Failures.{Failure, plain as bare, configuration}
use xray_e2e_prober.Checker.Request.{Client, ResponseData, Plan, request}
use xray_e2e_prober.Checker.Bounds.{IsBounded, Promised, request_returns}
use xray_e2e_prober.Checker.Target.{redirect_url, Outside, absolute_http_url, out_of_rounds}
use xray_e2e_prober.Checker.Success.{was_answered}
use xray_e2e_prober.Checker.Valid.{IsHttpUrl, absolute-IsHttpUrl}
use xray_e2e_prober.Checker.Observed.{IsObserved, IsContained, observe-IsObserved, expected_iff}
use xray_e2e_prober.Checker.Egress.{
  Parsers, networks_of, observe, is_expected, observed_result, egress_error, egress_plan,
  no_networks, attempt_egress, check_egress,
}

-- The states that judge an address.
abbrev pub is_judged : EgressState → Bool
is_judged EgressState.match = true
is_judged EgressState.mismatch = true
is_judged _ = false

-- One request for a body of status 200 within the limit, without a redirect.
abbrev pub direct_plan : ℕ → Plan
direct_plan limit = record {
  body_limit = limit;
  follow_redirects = false;
  max_redirects = 0;
  accepted_statuses = 200 ∷ [];
  read_body = true;
  retain_body = true;
  expected_body_bytes = none;
}

answer-IsBounded :
    (client : Client) (redirect_url : String → String → Result Failure String) (p : Plan)
    (url : String) (d : ResponseData)
    → request client redirect_url p url ≡ some (ok d)
    → IsBounded client redirect_url p d
answer-IsBounded client redirect_url p url d e =
    let (r, returned, promised) = request_returns client redirect_url p url in
    let same : r ≡ ok d = cc (returned, e) in subst (Promised client redirect_url p) same promised

module _ {Address Network : Type 0} (parsers : Parsers Address Network) (out : Outside)
    (client : Client) (egress_body_limit : ℕ) (a : EgressAssertionConfig) (elapsed : ℕ) where
  -- Match exactly if a configured network contains the address.
  abbrev pub Says : EgressState → Address → Type 0
  Says state observed =
      ((state ≡ EgressState.match) × IsContained parsers a.expected_cidrs observed)
      ⊎ ((state ≡ EgressState.mismatch) × ¬ IsContained parsers a.expected_cidrs observed)

  -- What a verdict rests on.
  pub record IsJudged (r : EgressResult) : Type 0 where
    pub url : IsHttpUrl out a.url
    pub some_network : a.expected_cidrs ≢ []
    pub response : ResponseData
    pub answered :
        request client (redirect_url out) (direct_plan egress_body_limit) a.url ≡ some (ok response)
    pub bounded : (response.redirect_count ≡ 0) × (response.bytes_read ≤ egress_body_limit)
    pub observed : Address
    pub read : IsObserved parsers a response observed
    pub state : Says r.state observed
    pub observed_ip : r.observed_ip ≡ some (parsers.text_of_address observed)

  no_cidrs :
      (networks : List Network)
      → networks_of parsers a.expected_cidrs ≡ ok networks
      → no_networks networks ≡ false
      → a.expected_cidrs ≢ []
  unfolding networks_of
  no_cidrs [] e h = cc (h)
  no_cidrs (n ∷ networks) e h = λ none_there. cc (rw none_there at e)

  judged_as :
      (networks : List Network) (observed : Address)
      → networks_of parsers a.expected_cidrs ≡ ok networks
      → Says
          (observed_result parsers a elapsed observed (is_expected parsers networks observed)).state
          observed
  judged_as networks observed e =
      let agrees = expected_iff parsers a.expected_cidrs networks observed e in
      elim (Bool-cases (is_expected parsers networks observed)) [
        | inl inside ↦ inl (rw inside refl, agrees.0 inside)
        | inr outside ↦ inr (rw outside refl, λ h. cc (agrees.1 h, outside))
      ]

  attempt_egress-IsJudged :
      (r : EgressResult)
      → attempt_egress parsers out client egress_body_limit a elapsed ≡ ok r
      → IsJudged r
  unfolding attempt_egress
  attempt_egress-IsJudged r e =
      let (url, valid, e1) = >>=-eq-ok (absolute_http_url out a.url) _ e in
      let (networks, configured, e2) = >>=-eq-ok (networks_of parsers a.expected_cidrs) _ e1 in
      let (u, several, e3) = >>=-eq-ok (reject (no_networks networks) (bare configuration)) _ e2 in
      let (response, answered, e4) =
        >>=-eq-ok
          (out_of_rounds (request client (redirect_url out) (egress_plan egress_body_limit) url)) _
          e3 in
      let (observed, read, e5) = >>=-eq-ok (observe parsers a response) _ e4 in
      let same : observed_result parsers a elapsed observed (is_expected parsers networks observed)
          ≡ r =
        ground (arith, e5) in
      let (url_same, http) = absolute-IsHttpUrl out a.url url valid in
      let asked : request client (redirect_url out) (direct_plan egress_body_limit) a.url
          ≡ some (ok response) =
        ap (request client (redirect_url out) (direct_plan egress_body_limit)) url_same
        ∙ was_answered _ response answered in
      let bounded = answer-IsBounded client (redirect_url out) _ a.url response asked in
      record {
        url = http;
        some_network = no_cidrs networks configured (ground (arith, several));
        response = response;
        answered = asked;
        bounded = (omega (arith, bounded.redirects), bounded.bytes);
        observed = observed;
        read = observe-IsObserved parsers a response observed read;
        state =
            subst (λ (x : EgressResult). Says x.state observed) same
              (judged_as networks observed configured);
        observed_ip = ap (λ x. x.observed_ip) (sym same);
      }

  -- A result of `check_egress` that says match or mismatch is one of an enabled assertion with at
  -- least one network and an absolute HTTP URL. One response of status 200 was read from that URL
  -- without a redirect and within the body limit. Its decoded body, or where the format is JSON the
  -- text at the configured field of it, is an address, and the result says match exactly if one of the
  -- configured networks has the version of this address and contains it.
  pub check_egress-IsJudged :
      is_judged (check_egress parsers out client egress_body_limit a elapsed).state ≡ true
      → (a.enabled ≡ true) × IsJudged (check_egress parsers out client egress_body_limit a elapsed)
  unfolding check_egress egress_error
  check_egress-IsJudged judged = elim (Bool-cases a.enabled) [
    | inr off ↦ cc (rw off at judged)
    | inl on ↦ elim (Result-cases (attempt_egress parsers out client egress_body_limit a elapsed)) [
      | inr (e, bad) ↦ cc (rw (bad, on) at judged)
      | inl (r, done) ↦
          let same : r ≡ check_egress parsers out client egress_body_limit a elapsed =
            rw (done, on) refl in
          (on, subst IsJudged same (attempt_egress-IsJudged r done))
    ]
  ]
