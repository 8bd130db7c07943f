-- ===== src/Checker/Tests.antt =====
-- Concrete checks.
use xray_e2e_prober.Base.{
  if◌then◌else◌, ◌==◌, ℕ, String, ◌≡◌, refl, true, false, Option, none, some, [], ◌∷◌, ok,
  string_eq, nat_eq,
}
use xray_e2e_prober.Models.States.{ReachabilityState}
use xray_e2e_prober.Models.Targets.{TargetConfig, TargetSetConfig, get, download}
use xray_e2e_prober.Checker.Failures.{
  bare_result, target_error_result, classify_exception, network_failure,
}
use xray_e2e_prober.Checker.Request.{
  Response, responded, Client, read_chunks, check_declared, read_response, finish, request_loop,
  request,
}
use xray_e2e_prober.Checker.Target.{
  redirect_url, Outside, redirect_limit, absolute_http_url, validate_target, plan_of, match_result,
  mbps, measure, judge, measured, attempt, check_target,
}
use xray_e2e_prober.Models.Config.{EgressAssertionConfig, json}
use xray_e2e_prober.Checker.Egress.{
  text, object, no_members, with_member, Parsers, member_value, json_path, networks_of,
  candidate_of, observe, is_expected, attempt_egress, check_egress,
}
use xray_e2e_prober.Checker.EgressVerdict.{is_judged, IsJudged, check_egress-IsJudged}
use xray_e2e_prober.Checker.TargetSet.{Runner, Cycle}

abbrev web : TargetConfig
web = record {
  target_id = "web";
  url = "https://example.test/";
  method = get;
  expected_statuses = 200 ∷ [];
  body = none;
  timeout_ms = none;
  max_body_bytes = 65536;
  follow_redirects = true;
  max_redirects = 2;
  throughput = none;
  enabled = true;
}

abbrev speed : TargetConfig
speed = record web {
  target_id = "speed";
  follow_redirects = false;
  max_redirects = 0;
  throughput = some record { direction = download; expected_bytes = 3; interval_ms = 900000 };
}

abbrev outside : Outside
outside = record {
  urlsplit =
      λ u. record { scheme = "https"; netloc = "example.test"; username = none; password = none };
  hostname = λ u. some "example.test";
  urljoin = λ base location. some location;
  is_parsable = λ u. true;
  casefold = λ t. t;
  decode = λ body encoding. "";
  regex_search = λ pattern text. ok false;
}

abbrev answer : ℕ → Option String → Response
answer status location = record {
  status = status;
  url = "https://example.test/";
  location = location;
  encoding = none;
  declared_length = some 3;
  is_identity = true;
  chunks = (1 ∷ 2 ∷ []) ∷ (3 ∷ []) ∷ [];
  bytes_written = 0;
  upload_time = none;
  read_time = 2000;
}

abbrev serves : Client
serves n url = responded (answer 200 none)

abbrev loops : Client
loops n url = responded (answer 302 (some "https://example.test/"))

-- The speed target's body is read to its last byte: 24 bits in two microseconds.
speed_succeeds : (check_target outside serves speed 0 0).throughput ≡ some 12000
unfolding check_target redirect_url validate_target absolute_http_url redirect_limit attempt request
    request_loop finish read_response read_chunks check_declared plan_of match_result measured
    measure mbps judge
speed_succeeds = refl

-- A loop of redirects ends in an error result.
loop_fails : (check_target outside loops web 0 0).state ≡ ReachabilityState.failure
unfolding check_target redirect_url validate_target absolute_http_url redirect_limit attempt request
    request_loop finish read_response read_chunks check_declared plan_of match_result measured
    measure mbps judge target_error_result classify_exception network_failure
loop_fails = refl

abbrev cycle : Cycle
cycle = record {
  force_throughput = false;
  schedule_id = none;
  digest = λ key. 0;
  now = 1000;
  previous = record (bare_result "speed" ReachabilityState.success) { measured_at = some 900 } ∷ [];
  socks_is_loopback = true;
  socks_port = 1080;
}

-- Each check takes no time, through a client that serves.
abbrev runner : Runner
runner = record { out = outside; client = ok serves; failed_at = 0; now = λ t. 0; elapsed = λ t. 0 }

abbrev set : TargetSetConfig
set = record { target_set_id = "set"; targets = web ∷ speed ∷ []; quorum = 1; enabled = true }

-- Addresses are numbers written as their last digit, a network is one address.
abbrev parsers : Parsers ℕ ℕ
parsers = record {
  ip_network = λ t. if t == "7" then some 7 else none;
  ip_address = λ t. if t == "7" then some 7 else none;
  network_version = λ n. 4;
  address_version = λ n. 4;
  contains = λ n a. n == a;
  text_of_address = λ n. "7";
  loads = λ t. some (object (with_member "ip" (text "7") no_members));
  strip = λ t. t;
  split_dots = λ t. t ∷ [];
  decode = λ body encoding. some "body";
}

abbrev assertion : EgressAssertionConfig
assertion = record {
  assertion_id = "ip";
  url = "https://example.test/ip";
  expected_cidrs = "7" ∷ [];
  response_format = json;
  json_field = some "ip";
  enabled = true;
}

egress_judged : is_judged (check_egress parsers outside serves 10 assertion 0).state ≡ true
unfolding check_egress attempt_egress absolute_http_url networks_of request request_loop finish
    read_response read_chunks check_declared observe candidate_of json_path member_value is_expected
egress_judged = refl

check_egress-IsJudged_example :
    (assertion.enabled ≡ true)
    × IsJudged parsers outside serves 10 assertion 0
        (check_egress parsers outside serves 10 assertion 0)
check_egress-IsJudged_example =
    check_egress-IsJudged parsers outside serves 10 assertion 0 egress_judged
