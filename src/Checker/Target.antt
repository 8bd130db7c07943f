-- ===== src/Checker/Target.antt =====
-- src/xray_e2e_prober/checker.py: `_validate_target`, `_redirect_limit`, `_decode_and_match` and
-- `check_target`. A target is the typed configuration, so the tests of Python types that its model
-- has made are not repeated. The semaphores only delay a request, and the deadline is an exception
-- that the client raises.
use xray_e2e_prober.Base.{
  ℕ, ◌*◌, ◌/◌, String, Bool, true, false, not, ◌&&◌, ◌||◌, Option, none, some, List, [], ◌∷◌, any,
  if◌then◌else◌, ltb, ◌==◌, nat_eq, string_eq, member, Result, ok, err, ◌>>=◌, ◌>>◌, reject,
}
use xray_e2e_prober.Models.States.{ReachabilityState, http_status, body_mismatch, TargetResult}
use xray_e2e_prober.Models.Targets.{
  Method, get, exact, regex, BodyMatcher, ThroughputConfig, TargetConfig, SplitUrl, is_some',
  is_upload, expected_method, same_method,
}
use xray_e2e_prober.Checker.Failures.{
  Failure, plain, configuration, other, invalid_response, bare_result, target_error_result,
}
use xray_e2e_prober.Checker.Request.{Client, ResponseData, Plan, request}

-- What the code takes from Python, httpx and the isolated regex process.
pub record Outside : Type 0 where
  pub urlsplit : String → SplitUrl
  pub hostname : String → Option String
  pub urljoin : String → String → Option String
  pub is_parsable : String → Bool
  pub casefold : String → String
  pub decode : List ℕ → Option String → String
  pub regex_search : String → String → Result Failure Bool

-- `_redirect_limit`
unfoldable pub redirect_limit : TargetConfig → ℕ
redirect_limit t = if t.follow_redirects && t.max_redirects == 0 then 5 else t.max_redirects

abbrev pub empty_list : List ℕ → Bool
empty_list [] = true
empty_list _ = false

abbrev pub wanted_method : Option ThroughputConfig → Method
wanted_method none = get
wanted_method (some tp) = expected_method tp.direction

abbrev pub uploads : Option ThroughputConfig → Bool
uploads none = false
uploads (some tp) = is_upload tp.direction

-- The size of the body that a download target expects, that an upload target sends.
abbrev pub download_bytes : Option ThroughputConfig → Option ℕ
download_bytes none = none
download_bytes (some tp) = if is_upload tp.direction then none else some tp.expected_bytes

module _ (out : Outside) where
  -- `_absolute_http_url`
  unfoldable pub absolute_http_url : String → Result Failure String
  absolute_http_url value = do
    let parsed = out.urlsplit value
    reject
        (not (member parsed.scheme ("http" ∷ "https" ∷ [])) || not (is_some' (out.hostname value)))
        (plain configuration)
    reject (is_some' parsed.username || is_some' parsed.password) (plain configuration)
    ok value

  -- `_redirect_url`: a URL that does not parse and one of another kind are invalid responses.
  abbrev pub accept_redirect : Option String → Result Failure String
  accept_redirect none = err (plain invalid_response)
  accept_redirect (some candidate) = do
    let parsed = out.urlsplit candidate
    reject (not (out.is_parsable candidate)) (plain invalid_response)
    reject
        (not (member (out.casefold parsed.scheme) ("http" ∷ "https" ∷ []))
          || not (is_some' (out.hostname candidate)))
        (plain invalid_response)
    reject (is_some' parsed.username || is_some' parsed.password) (plain invalid_response)
    ok candidate

  unfoldable pub redirect_url : String → String → Result Failure String
  redirect_url base location = accept_redirect (out.urljoin base location)

  -- `_validate_target`
  unfoldable pub validate_target : TargetConfig → Result Failure (Unit {0})
  unfolding absolute_http_url
  validate_target t = do
    reject (t.target_id == "") (plain configuration)
    url ← absolute_http_url t.url
    reject (empty_list t.expected_statuses || any (λ s. ltb s 100 || ltb 599 s) t.expected_statuses)
        (plain configuration)
    reject (not (same_method t.method (wanted_method t.throughput))) (plain configuration)
    reject (ltb 0 (redirect_limit t) && not t.follow_redirects) (plain configuration)
    reject (is_some' t.throughput && is_some' t.body) (plain configuration)
    reject (uploads t.throughput && t.follow_redirects) (plain configuration)

  abbrev pub or_else : Option ℕ → ℕ → ℕ
  or_else none default = default
  or_else (some n) default = n

  -- The arguments of `_request` in `check_target`.
  unfoldable pub plan_of : TargetConfig → Plan
  unfolding redirect_limit
  plan_of t = record {
    body_limit = or_else (download_bytes t.throughput) t.max_body_bytes;
    follow_redirects = t.follow_redirects;
    max_redirects = redirect_limit t;
    accepted_statuses = t.expected_statuses;
    read_body = is_some' t.body || is_some' (download_bytes t.throughput);
    retain_body = is_some' t.body;
    expected_body_bytes = download_bytes t.throughput;
  }

  -- `_decode_and_match`
  unfoldable pub decode_and_match : BodyMatcher → ResponseData → Result Failure Bool
  decode_and_match m d = elim m.kind [
    | exact ↦ ok (out.decode d.body d.encoding == m.value)
    | regex ↦ out.regex_search m.value (out.decode d.body d.encoding)
  ]

  abbrev pub matched_by : Option BodyMatcher → ResponseData → Result Failure Bool
  matched_by none d = ok true
  matched_by (some m) d = decode_and_match m d

  -- Whether the body matches, asked only where the status is expected.
  unfoldable pub match_result : TargetConfig → ResponseData → Result Failure Bool
  match_result t d =
      if member d.status_code t.expected_statuses then matched_by t.body d else ok true

abbrev pub out_of_rounds : Option (Result Failure ResponseData) → Result Failure ResponseData
out_of_rounds none = err (plain other)
out_of_rounds (some r) = r

-- Thousandths of Mbit/s of so many bytes in so many nanoseconds.
unfoldable pub mbps : ℕ → ℕ → ℕ
mbps bytes time = bytes * 8000000 / time

abbrev pub transferred : ThroughputConfig → ResponseData → ℕ
transferred tp d = if is_upload tp.direction then d.bytes_written else d.bytes_read

-- The measured throughput; a transfer without a duration is an invalid response.
unfoldable pub measure : Option ThroughputConfig → ResponseData → Result Failure (Option ℕ)
unfolding mbps
measure none d = ok none
measure (some tp) d = elim d.transfer [
  | none ↦ err (plain invalid_response)
  | some time ↦
      if time == 0 then err (plain invalid_response) else ok (some (mbps (transferred tp d) time))
]

abbrev pub stamp : Option ThroughputConfig → ℕ → Option ℕ
stamp none now = none
stamp (some tp) now = some now

-- What the results of an answered request have in common.
abbrev pub answered_result : TargetConfig → ReachabilityState → ℕ → ResponseData → TargetResult
answered_result t state elapsed d = record (bare_result t.target_id state) {
  http_status = some d.status_code;
  duration = some elapsed;
  bytes_read = some d.bytes_read;
}

unfoldable pub judge : TargetConfig → ℕ → ℕ → ResponseData → Bool → Option ℕ → TargetResult
judge t now elapsed d matched throughput =
    if not (member d.status_code t.expected_statuses)
    then record (answered_result t ReachabilityState.failure elapsed d) {
      reason = some http_status;
      bytes_written = some d.bytes_written;
      transfer = d.transfer;
      measured_at = stamp t.throughput now;
    }
    else if not matched
    then record (answered_result t ReachabilityState.failure elapsed d) {
      reason = some body_mismatch;
    }
    else record (answered_result t ReachabilityState.success elapsed d) {
      bytes_written = some d.bytes_written;
      transfer = d.transfer;
      throughput = throughput;
      measured_at = stamp t.throughput now;
    }

module _ (out : Outside) (client : Client) where
  -- The throughput is computed only for a response that is expected and matches.
  unfoldable pub measured : TargetConfig → ResponseData → Bool → Result Failure (Option ℕ)
  measured t d matched =
      if member d.status_code t.expected_statuses && matched
      then measure t.throughput d
      else ok none

  -- The part of `check_target`'s `try` behind the validation.
  unfoldable pub attempt : TargetConfig → ℕ → ℕ → Result Failure TargetResult
  attempt t now elapsed = do
    d ← out_of_rounds (request client (redirect_url out) (plan_of out t) t.url)
    matched ← match_result out t d
    throughput ← measured t d matched
    ok (judge t now elapsed d matched throughput)

  -- The `except` clause, without and with the settings of a throughput target at hand.
  abbrev pub invalid : TargetConfig → ℕ → Failure → TargetResult
  invalid t elapsed e =
      target_error_result (if t.target_id == "" then "invalid-target" else t.target_id) e
        (some elapsed)

  abbrev pub caught : TargetConfig → ℕ → ℕ → Result Failure TargetResult → TargetResult
  caught t now elapsed (ok r) = r
  caught t now elapsed (err e) = record (target_error_result t.target_id e (some elapsed)) {
    measured_at = stamp t.throughput now;
  }

  abbrev pub checked : TargetConfig → ℕ → ℕ → Result Failure (Unit {0}) → TargetResult
  checked t now elapsed (ok u) = caught t now elapsed (attempt t now elapsed)
  checked t now elapsed (err e) = invalid t elapsed e

  unfoldable pub check_target : TargetConfig → ℕ → ℕ → TargetResult
  check_target t now elapsed = checked t now elapsed (validate_target out t)
