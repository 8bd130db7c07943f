-- ===== src/Checker/TargetSet.antt =====
-- src/xray_e2e_prober/checker.py: `check_target_set`. What it keeps between cycles is the time at
-- which each throughput target is first due. Times are nanoseconds since the epoch; `digest` is the
-- first eight bytes of the hash of a schedule id. The egress checks see none of this function's
-- state and are left out.
use xray_e2e_prober.Base.{
  ℕ, ◌+◌, ◌-◌, ◌*◌, ◌/◌, ◌^◌, String, Bool, true, false, not, ◌&&◌, ◌||◌, Option, none, some, List,
  [], ◌∷◌, ◌++◌, map, keep, any, count, if◌then◌else◌, ltb, leb, ◌==◌, nat_eq, string_eq, member,
  Dict, lookup, insert, erase, Result, ok, err, length,
}
use xray_e2e_prober.Models.States.{
  ReachabilityState, is_success, is_error, TargetResult, ReachabilityResult,
}
use xray_e2e_prober.Models.Targets.{ThroughputConfig, TargetConfig, TargetSetConfig, is_some'}
use xray_e2e_prober.Checker.Failures.{
  Failure, plain, configuration, other, bare_result, target_error_result,
}
use xray_e2e_prober.Checker.Request.{Client}
use xray_e2e_prober.Checker.Target.{Outside, stamp, check_target}

-- `{parsed.target_id: parsed …}`: the last result of an id counts.
unfoldable pub by_target : Dict TargetResult → List TargetResult → Dict TargetResult
by_target m [] = m
by_target m (r ∷ rs) = by_target (insert r.target_id r m) rs

-- A cached throughput result stays good for the target's interval.
abbrev pub is_fresh : ℕ → ThroughputConfig → Option ℕ → Bool
is_fresh now tp none = false
is_fresh now tp (some at) = leb at now && ltb (now - at) (tp.interval_ms * 1000000)

-- The first due time: the next point of the target's own grid of intervals.
unfoldable pub first_due : ℕ → ℕ → ℕ → ℕ
first_due now interval digest =
    let offset = digest * interval / 2 ^ 64 in ((now - offset) / interval + 1) * interval + offset

abbrev pub due_or : Option ℕ → ℕ → ℕ
due_or none fresh = fresh
due_or (some due) fresh = due

abbrev pub measured_of : Option TargetResult → Option ℕ
measured_of none = none
measured_of (some r) = r.measured_at

-- What a cycle decides for one target.
pub data Choice : Type 0 where
  run : Choice
  reuse : TargetResult → Choice
  wait : (due : ℕ) → Choice

abbrev pub cached_or : Option TargetResult → Choice → Choice
cached_or none c = c
cached_or (some r) c = reuse r

-- A target that was never measured waits for its first due time, where cycles are scheduled.
abbrev pub await_due : ℕ → ℕ → Choice
await_due now due = if ltb now due then wait due else run

abbrev pub first_wait : Bool → ℕ → ThroughputConfig → Option ℕ → ℕ → Option ℕ → Choice
first_wait scheduled now tp due digest (some at) = run
first_wait false now tp due digest none = run
first_wait true now tp due digest none =
    await_due now (due_or due (first_due now (tp.interval_ms * 1000000) digest))

abbrev pub choose_throughput :
    Bool → ℕ → ThroughputConfig → Option TargetResult → Option ℕ → ℕ → Choice
choose_throughput scheduled now tp previous due digest =
    if is_fresh now tp (measured_of previous)
    then cached_or previous run
    else first_wait scheduled now tp due digest (measured_of previous)

-- The body of the loop over the targets.
unfoldable pub choose :
    (force scheduled : Bool)
    → ℕ
    → Option ThroughputConfig
    → Option TargetResult
    → Option ℕ
    → ℕ
    → Choice
unfolding first_due
choose force scheduled now none previous due digest = run
choose true scheduled now (some tp) previous due digest = run
choose false scheduled now (some tp) previous due digest =
    choose_throughput scheduled now tp previous due digest

-- What the cycle is given.
pub record Cycle : Type 0 where
  pub force_throughput : Bool
  pub schedule_id : Option (String → String)
  pub digest : String → ℕ
  pub now : ℕ
  pub previous : List TargetResult
  pub socks_is_loopback : Bool
  pub socks_port : ℕ

abbrev pub due_key : Option (String → String) → String → String
due_key none id = id
due_key (some key) id = key id

abbrev pub previous_of : Cycle → String → Option TargetResult
previous_of c id = lookup id (by_target [] c.previous)

unfoldable pub choice_for : Cycle → Dict ℕ → TargetConfig → Choice
choice_for c due t =
    let key = due_key c.schedule_id t.target_id in
    choose c.force_throughput (is_some' c.schedule_id) c.now t.throughput
      (previous_of c t.target_id) (lookup key due) (c.digest key)

-- The due time is kept while the target waits, and dropped when it is run for the first time.
abbrev pub waits_first : Cycle → TargetConfig → Bool
waits_first c t =
    (is_some' t.throughput && not c.force_throughput)
    && (is_some' c.schedule_id && not (is_some' (measured_of (previous_of c t.target_id))))

abbrev pub due_after : Cycle → TargetConfig → Choice → Dict ℕ → Dict ℕ
due_after c t (reuse r) due = due
due_after c t (wait at) due = insert (due_key c.schedule_id t.target_id) at due
due_after c t run due =
    if waits_first c t then erase (due_key c.schedule_id t.target_id) due else due

-- The variables of the loop over the targets.
pub record Selection : Type 0 where
  pub cached : Dict TargetResult
  pub to_run : List TargetConfig
  pub due : Dict ℕ

abbrev pub apply : Cycle → TargetConfig → Selection → Choice → Selection
apply c t sel run = record sel { to_run = sel.to_run ++ t ∷ []; due = due_after c t run sel.due }
apply c t sel (reuse r) = record sel { cached = insert t.target_id r sel.cached }
apply c t sel (wait at) = record sel {
  cached = insert t.target_id (bare_result t.target_id ReachabilityState.unknown) sel.cached;
  due = due_after c t (wait at) sel.due;
}

unfoldable pub select : Cycle → Selection → List TargetConfig → Selection
select c sel [] = sel
select c sel (t ∷ ts) = select c (apply c t sel (choice_for c sel.due t)) ts

-- `cached_results.get(id) or fresh_by_id[id]`; `none` is a KeyError.
abbrev pub cached_first : Option TargetResult → Option TargetResult → Option TargetResult
cached_first none fresh = fresh
cached_first (some r) fresh = some r

unfoldable pub value_of : Dict TargetResult → Dict TargetResult → String → Option TargetResult
value_of cached fresh id = cached_first (lookup id cached) (lookup id fresh)

abbrev pub cons? : Option TargetResult → Option (List TargetResult) → Option (List TargetResult)
cons? (some r) (some rs) = some (r ∷ rs)
cons? _ _ = none

unfoldable pub collect :
    Dict TargetResult → Dict TargetResult → List TargetConfig → Option (List TargetResult)
collect cached fresh [] = some []
collect cached fresh (t ∷ ts) = cons? (value_of cached fresh t.target_id) (collect cached fresh ts)

-- The verdict over the results of the health targets.
unfoldable pub verdict : ℕ → List TargetResult → ReachabilityState
verdict quorum results =
    if leb quorum (count (λ r. is_success r.state) results)
    then ReachabilityState.success
    else if any (λ r. is_error r.state) results
    then ReachabilityState.error
    else ReachabilityState.failure

abbrev pub enabled_targets : TargetSetConfig → List TargetConfig
enabled_targets s = keep (λ t. t.enabled) s.targets

abbrev pub is_reachability : TargetConfig → Bool
is_reachability t = not (is_some' t.throughput)

abbrev pub health_targets : TargetSetConfig → List TargetConfig
health_targets s = keep is_reachability (enabled_targets s)

abbrev pub health_ids : TargetSetConfig → List String
health_ids s = map (λ t. t.target_id) (health_targets s)

abbrev pub health_results : TargetSetConfig → List TargetResult → List TargetResult
health_results s results = keep (λ r. member r.target_id (health_ids s)) results

abbrev pub invalid_quorum : TargetSetConfig → Bool
invalid_quorum s = ltb s.quorum 1 || ltb (length (health_targets s)) s.quorum

abbrev pub disabled_result : TargetSetConfig → ReachabilityResult
disabled_result s = record {
  state = ReachabilityState.disabled;
  success_count = 0;
  quorum = s.quorum;
  targets = [];
}

abbrev pub summary : TargetSetConfig → List TargetResult → ReachabilityResult
summary s results = record {
  state = verdict s.quorum (health_results s results);
  success_count = count (λ r. is_success r.state) (health_results s results);
  quorum = s.quorum;
  targets = results;
}

-- What runs a target: `_make_client`, which may raise, and the two times of each target's check.
pub record Runner : Type 0 where
  pub out : Outside
  pub client : Result Failure Client
  pub failed_at : ℕ
  pub now : TargetConfig → ℕ
  pub elapsed : TargetConfig → ℕ

abbrev pub checked_with : Runner → Result Failure Client → TargetConfig → TargetResult
checked_with r (ok client) t = check_target r.out client t (r.now t) (r.elapsed t)
checked_with r (err e) t = record (target_error_result t.target_id e none) {
  measured_at = stamp t.throughput r.failed_at;
}

-- The result of a target that is run: without a client, the one of that exception.
unfoldable pub fresh_result : Runner → TargetConfig → TargetResult
fresh_result r t = checked_with r r.client t

unfoldable pub fresh_by_id : (TargetConfig → TargetResult) → List TargetConfig → Dict TargetResult
fresh_by_id check targets = by_target [] (map check targets)

abbrev pub start_selection : Dict ℕ → Selection
start_selection due = record { cached = []; to_run = []; due = due }

unfoldable pub results_of :
    Cycle → (TargetConfig → TargetResult) → Dict ℕ → TargetSetConfig → Option (List TargetResult)
unfolding fresh_by_id
results_of c check due s =
    let sel = select c (start_selection due) (enabled_targets s) in
    collect sel.cached (fresh_by_id check sel.to_run) (enabled_targets s)

abbrev pub summary? :
    TargetSetConfig → Option (List TargetResult) → Result Failure ReachabilityResult
summary? s none = err (plain other)
summary? s (some results) = ok (summary s results)

-- `_target_id` raises for a target without an id.
abbrev pub has_nameless : TargetSetConfig → Bool
has_nameless s = any (λ t. t.target_id == "") (enabled_targets s)

-- `_proxy_url` takes a loopback address, which its parser tells, and a port.
unfoldable pub invalid_proxy : Cycle → Bool
invalid_proxy c = not c.socks_is_loopback || (ltb c.socks_port 1 || ltb 65535 c.socks_port)

-- `check_target_set`, its reachability part.
unfoldable pub check_target_set :
    Runner → Cycle → Dict ℕ → TargetSetConfig → Result Failure ReachabilityResult
check_target_set r c due s =
    if invalid_quorum s
    then err (plain configuration)
    else if not s.enabled
    then ok (disabled_result s)
    else if has_nameless s || invalid_proxy c
    then err (plain configuration)
    else summary? s (results_of c (fresh_result r) due s)
