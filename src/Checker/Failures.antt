-- ===== src/Checker/Failures.antt =====
-- src/xray_e2e_prober/checker.py: exceptions and how they are classified. An exception is the chain
-- that `_exception_chain` builds: its own kind, then those of its causes.
use xray_e2e_prober.Base.{
  ℕ, String, Bool, true, false, Option, none, some, List, [], ◌∷◌, any, if◌then◌else◌,
}
use xray_e2e_prober.Models.States.{
  ReachabilityState, Reason, connect, proxy, dns, timeout, tls, http_status, body_mismatch,
  response_invalid, config_invalid, internal, TargetResult, expected_success,
}

pub data Kind : Type 0 where
  request_timeout ssl_error name_resolution too_many_redirects : Kind
  invalid_url unsupported_protocol connect_error network_error proxy_error : Kind
  decoding_error remote_protocol_error invalid_response : Kind
  body_too_large : (bytes_read : ℕ) → Kind
  configuration http_error other value_error : Kind

pub record Failure : Type 0 where
  pub kind : Kind
  pub causes : List Kind

abbrev pub plain : Kind → Failure
plain k = record { kind = k; causes = [] }

abbrev pub is_ssl : Kind → Bool
is_ssl ssl_error = true
is_ssl _ = false

abbrev pub is_gaierror : Kind → Bool
is_gaierror name_resolution = true
is_gaierror _ = false

-- The tests of `_classify_exception` behind those of the chain, by the exception's own class.
abbrev pub reason_of_kind : Kind → Reason
reason_of_kind request_timeout = timeout
reason_of_kind ssl_error = tls
reason_of_kind name_resolution = dns
reason_of_kind too_many_redirects = response_invalid
reason_of_kind invalid_url = config_invalid
reason_of_kind unsupported_protocol = config_invalid
reason_of_kind connect_error = proxy
reason_of_kind network_error = proxy
reason_of_kind proxy_error = proxy
reason_of_kind decoding_error = response_invalid
reason_of_kind remote_protocol_error = response_invalid
reason_of_kind invalid_response = response_invalid
reason_of_kind (body_too_large n) = response_invalid
reason_of_kind configuration = config_invalid
reason_of_kind http_error = connect
reason_of_kind other = internal
reason_of_kind value_error = internal

abbrev is_timeout : Kind → Bool
is_timeout request_timeout = true
is_timeout _ = false

abbrev pub chain : Failure → List Kind
chain e = e.kind ∷ e.causes

-- `_classify_exception`
unfoldable pub classify_exception : Failure → Reason
classify_exception e =
    if is_timeout e.kind
    then timeout
    else if any is_ssl (chain e)
    then tls
    else if any is_gaierror (chain e)
    then dns
    else reason_of_kind e.kind

-- `_network_failure`
unfoldable pub network_failure : Reason → Bool
network_failure connect = true
network_failure proxy = true
network_failure dns = true
network_failure timeout = true
network_failure tls = true
network_failure http_status = true
network_failure body_mismatch = true
network_failure response_invalid = true
network_failure _ = false

abbrev pub failed_state : Reason → ReachabilityState
failed_state reason =
    if network_failure reason then ReachabilityState.failure else ReachabilityState.error

abbrev pub bytes_of : Kind → Option ℕ
bytes_of (body_too_large n) = some n
bytes_of _ = none

-- A result with no more than its state: the validator fills `success`.
abbrev pub bare_result : String → ReachabilityState → TargetResult
bare_result target_id state = record {
  target_id = target_id;
  state = state;
  success = expected_success state;
  reason = none;
  http_status = none;
  duration = none;
  ttfb = none;
  bytes_read = none;
  bytes_written = none;
  transfer = none;
  throughput = none;
  measured_at = none;
}

-- `_target_error_result`
unfoldable pub target_error_result : String → Failure → Option ℕ → TargetResult
target_error_result target_id e duration =
    let reason = classify_exception e in
    record (bare_result target_id (failed_state reason)) {
      reason = some reason;
      duration = duration;
      bytes_read = bytes_of e.kind;
    }
