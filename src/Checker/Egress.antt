-- ===== src/Checker/Egress.antt =====
-- src/xray_e2e_prober/checker.py: `check_egress`. The parsers of addresses, networks, JSON and text
-- are arguments, as is the membership of an address in a network. An assertion is the typed
-- configuration, and the semaphore only delays the request.
use xray_e2e_prober.Base.{
  ℕ, String, Bool, true, false, not, ◌&&◌, Option, none, some, List, [], ◌∷◌, any, if◌then◌else◌,
  ◌==◌, nat_eq, string_eq, Result, ok, err, reject, ◌>>=◌, ◌>>◌,
}
use xray_e2e_prober.Models.States.{EgressState, egress_mismatch, response_invalid, EgressResult}
use xray_e2e_prober.Models.Config.{EgressAssertionConfig, plain, json}
use xray_e2e_prober.Checker.Failures.{
  Kind, Failure, plain as bare, configuration, value_error, classify_exception,
}
use xray_e2e_prober.Checker.Request.{Client, ResponseData, Plan, request}
use xray_e2e_prober.Checker.Target.{redirect_url, Outside, absolute_http_url, out_of_rounds}

-- What `json.loads` returns, as far as the code looks at it.
mutual
  pub data Json : Type 0 where
    text : String → Json
    object : Members → Json
    other : Json

  pub data Members : Type 0 where
    no_members : Members
    with_member : String → Json → Members → Members

pub record Parsers (Address Network : Type 0) : Type 0 where
  pub ip_network : String → Option Network
  pub ip_address : String → Option Address
  pub network_version : Network → ℕ
  pub address_version : Address → ℕ
  pub contains : Network → Address → Bool
  pub text_of_address : Address → String
  pub loads : String → Option Json
  pub strip : String → String
  pub split_dots : String → List String
  pub decode : List ℕ → Option String → Option String

unfoldable pub member_value : String → Members → Option Json
member_value name no_members = none
member_value name (with_member key value rest) =
    if key == name then some value else member_value name rest

abbrev pub field_value : String → Json → Option Json
field_value part (object members) = member_value part members
field_value part _ = none

-- `raise ValueError(…)` where there is no value.
abbrev pub or_raise : {A : Type 0} → Kind → Option A → Result Failure A
or_raise kind none = err (bare kind)
or_raise kind (some a) = ok a

-- The loop over the parts of the field's name.
unfoldable pub json_path : List String → Json → Result Failure Json
json_path [] candidate = ok candidate
json_path (part ∷ parts) candidate =
    or_raise value_error (field_value part candidate) >>= json_path parts

abbrev pub named_field : Option String → Result Failure String
named_field none = err (bare configuration)
named_field (some name) = if name == "" then err (bare configuration) else ok name

abbrev pub as_text : Json → Result Failure String
as_text (text t) = ok t
as_text _ = err (bare value_error)

module _ {Address Network : Type 0} (parsers : Parsers Address Network) where
  -- The configured networks.
  unfoldable pub networks_of : List String → Result Failure (List Network)
  networks_of [] = ok []
  networks_of (cidr ∷ cidrs) = do
    network ← or_raise configuration (parsers.ip_network cidr)
    networks ← networks_of cidrs
    ok (network ∷ networks)

  abbrev pub json_text : EgressAssertionConfig → String → Result Failure String
  json_text a body = do
    name ← named_field a.json_field
    document ← or_raise value_error (parsers.loads body)
    candidate ← json_path (parsers.split_dots name) document
    as_text candidate

  -- The text that should be an address.
  unfoldable pub candidate_of : EgressAssertionConfig → String → Result Failure String
  candidate_of a body = elim a.response_format [
    | plain ↦ ok (parsers.strip body)
    | json ↦ json_text a body
  ]

  -- What follows the request, up to the observed address.
  unfoldable pub observe : EgressAssertionConfig → ResponseData → Result Failure Address
  observe a d = do
    reject (not (d.status_code == 200)) (bare value_error)
    body ← or_raise value_error (parsers.decode d.body d.encoding)
    candidate ← candidate_of a body
    or_raise value_error (parsers.ip_address (parsers.strip candidate))

  -- `any(observed.version == network.version and observed in network …)`
  unfoldable pub is_expected : List Network → Address → Bool
  is_expected networks observed =
      any
        (λ network.
          parsers.address_version observed == parsers.network_version network
          && parsers.contains network observed)
        networks

  abbrev pub observed_result : EgressAssertionConfig → ℕ → Address → Bool → EgressResult
  observed_result a elapsed observed expected = record {
    assertion_id = a.assertion_id;
    state = if expected then EgressState.match else EgressState.mismatch;
    reason = if expected then none else some egress_mismatch;
    observed_ip = some (parsers.text_of_address observed);
    duration = some elapsed;
  }

abbrev pub is_value_error : Kind → Bool
is_value_error value_error = true
is_value_error _ = false

unfoldable pub egress_error : String → ℕ → Failure → EgressResult
egress_error id elapsed e = record {
  assertion_id = id;
  state = EgressState.error;
  reason = some (if is_value_error e.kind then response_invalid else classify_exception e);
  observed_ip = none;
  duration = some elapsed;
}

abbrev pub disabled_egress : String → EgressResult
disabled_egress id = record {
  assertion_id = id;
  state = EgressState.disabled;
  reason = none;
  observed_ip = none;
  duration = none;
}

-- The keyword arguments of `_request`.
abbrev pub egress_plan : ℕ → Plan
egress_plan egress_body_limit = record {
  body_limit = egress_body_limit;
  follow_redirects = false;
  max_redirects = 0;
  accepted_statuses = 200 ∷ [];
  read_body = true;
  retain_body = true;
  expected_body_bytes = none;
}

abbrev pub no_networks : {N : Type 0} → List N → Bool
no_networks [] = true
no_networks _ = false

module _ {Address Network : Type 0} (parsers : Parsers Address Network) (out : Outside)
    (client : Client) (egress_body_limit : ℕ) where
  unfoldable pub attempt_egress : EgressAssertionConfig → ℕ → Result Failure EgressResult
  attempt_egress a elapsed = do
    url ← absolute_http_url out a.url
    networks ← networks_of parsers a.expected_cidrs
    reject (no_networks networks) (bare configuration)
    response ← out_of_rounds (request client (redirect_url out) (egress_plan egress_body_limit) url)
    observed ← observe parsers a response
    ok (observed_result parsers a elapsed observed (is_expected parsers networks observed))

  abbrev pub caught_egress : EgressAssertionConfig → ℕ → Result Failure EgressResult → EgressResult
  caught_egress a elapsed (ok r) = r
  caught_egress a elapsed (err e) =
      egress_error (if a.assertion_id == "" then "invalid-assertion" else a.assertion_id) elapsed e

  unfoldable pub check_egress : EgressAssertionConfig → ℕ → EgressResult
  check_egress a elapsed =
      if not a.enabled
      then disabled_egress a.assertion_id
      else caught_egress a elapsed (attempt_egress a elapsed)
