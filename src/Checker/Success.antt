-- ===== src/Checker/Success.antt =====
-- What a successful result of `check_target` rests on.
use xray_e2e_prober.Base.{
  ℕ, ◌*◌, ◌/◌, ◌≢◌, ◌⊎◌, ◌&&◌, ◌≡◌, ap, true, Option, none, some, if◌then◌else◌, ◌==◌, nat_eq,
  string_eq, member, Result, ok,
}
use xray_e2e_prober.Models.States.{TargetResult}
use xray_e2e_prober.Models.Targets.{
  upload, download, exact, regex, BodyMatcher, ThroughputConfig, TargetConfig,
}
use xray_e2e_prober.Checker.Failures.{Failure}
use xray_e2e_prober.Checker.Request.{Client, ResponseData, Plan, request}
use xray_e2e_prober.Checker.Target.{redirect_url, Outside, out_of_rounds}

pub was_answered :
    (x : Option (Result Failure ResponseData)) (d : ResponseData)
    → out_of_rounds x ≡ ok d
    → x ≡ some (ok d)
was_answered none d e = cc (e)
was_answered (some r) d e = ap some e

-- How much of a body is read: what a download expects, to the last byte, and else at most the limit.
abbrev pub IsLimited : Option ThroughputConfig → TargetConfig → Plan → Type 0
IsLimited none t p = (p.body_limit ≡ t.max_body_bytes) × (p.expected_body_bytes ≡ none)
IsLimited (some tp) t p =
    ((tp.direction ≡ download)
      × (p.body_limit ≡ tp.expected_bytes)
      × (p.expected_body_bytes ≡ some tp.expected_bytes)
      × (p.read_body ≡ true))
    ⊎ ((tp.direction ≡ upload) × (p.body_limit ≡ t.max_body_bytes) × (p.expected_body_bytes ≡ none))

-- A request of a target, as its settings say; redirects that are followed are five by default.
pub record IsPlanOf (t : TargetConfig) (p : Plan) : Type 0 where
  pub follows : p.follow_redirects ≡ t.follow_redirects
  pub redirects :
      p.max_redirects ≡ (if t.follow_redirects && t.max_redirects == 0 then 5 else t.max_redirects)
  pub accepted : p.accepted_statuses ≡ t.expected_statuses
  pub limited : IsLimited t.throughput t p
  pub body_kept : t.body ≢ none → (p.read_body ≡ true) × (p.retain_body ≡ true)

-- The decoded body is the configured text, or the configured expression is found in it.
abbrev pub Matches : Outside → Option BodyMatcher → ResponseData → Type 0
Matches out none d = Unit {0}
Matches out (some m) d =
    ((m.kind ≡ exact) × (out.decode d.body d.encoding ≡ m.value))
    ⊎ ((m.kind ≡ regex) × (out.regex_search m.value (out.decode d.body d.encoding) ≡ ok true))

-- The bytes of the direction, in a time that is not zero, as thousandths of Mbit/s.
abbrev pub Measures : Option ThroughputConfig → ResponseData → Option ℕ → Type 0
Measures none d speed = speed ≡ none
Measures (some tp) d speed =
    (time : ℕ) × (d.transfer ≡ some time)
    × (time ≢ 0)
    × (((tp.direction ≡ download) × (speed ≡ some (d.bytes_read * 8000000 / time)))
        ⊎ ((tp.direction ≡ upload) × (speed ≡ some (d.bytes_written * 8000000 / time))))

module _ (out : Outside) (client : Client) (t : TargetConfig) (now elapsed : ℕ) where
  -- What a success rests on: a request as the settings say, and its response.
  pub record Succeeds (r : TargetResult) : Type 0 where
    pub plan : Plan
    pub asked : IsPlanOf t plan
    pub response : ResponseData
    pub answered : request client (redirect_url out) plan t.url ≡ some (ok response)
    pub status : member response.status_code t.expected_statuses ≡ true
    pub body : Matches out t.body response
    pub speed : Measures t.throughput response r.throughput
