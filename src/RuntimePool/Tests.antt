-- ===== src/RuntimePool/Tests.antt =====
-- Three failures in a row.
use xray_e2e_prober.Base.{
  ◌≤◌, ◌+◌, ◌-◌, min, String, ◌≡◌, refl, ◌↔◌, ◌==◌, false, string_eq, option_eq, none, some, ok,
}
use xray_e2e_prober.Base.{[], true, Result, err, count, length, pair_eq}
use xray_e2e_prober.RuntimePool.Slots
use xray_e2e_prober.RuntimePool.Slots.{
  Key, key_of, Check, Pool, open_pool, request, take_slot, succeed, begin_close, close_key,
  locked_keys, find, pop, take_start, remove_locked,
}
use xray_e2e_prober.RuntimePool.Slots.{requests, takes_slot, succeeds, begins_close, closes_key}
use xray_e2e_prober.RuntimePool.Accounts.{times}
use xray_e2e_prober.RuntimePool.Balance.{keys_of, has_slot, slots_used}
use xray_e2e_prober.RuntimePool.Ownership.{Reach-slots, closed_pool_empty}
use xray_e2e_prober.Inventory.Compile.{Profile, profile_eq}
use xray_e2e_prober.RuntimePool.Backoff.{
  RestartBackoff, RuntimePool, PoolError, new_pool, next_backoff, init, record_restart_failure,
  enforce_restart_backoff, Reach, here, next, fails,
}
use xray_e2e_prober.RuntimePool.Delays.{doubled, restart_delay, failure_delays_start}

abbrev profile : String → Profile
profile id = record {
  entry_id = id;
  mode = "connection";
  outbound_tag = none;
  inbound_tag = none;
  generation = "g1";
}

abbrev new : RuntimePool
new = new_pool 4 1000 3000

new-init : init 4 1000 3000 5000 30000 ≡ ok new
unfolding init
new-init = refl

abbrev failed : RuntimePool
failed =
    record_restart_failure (profile "e1") 30
      (record_restart_failure (profile "e1") 20 (record_restart_failure (profile "e1") 10 new))

to_failed : Reach new failed
to_failed =
    next (next (next here (fails (profile "e1") 10)) (fails (profile "e1") 20))
      (fails (profile "e1") 30)

abbrev third : RestartBackoff
third = record { failures = 3; delay = 3000; retry_at = 3030 }

third_found : failed.restart_backoffs (profile "e1") ≡ some third
unfolding record_restart_failure
third_found = refl

restart_delay_example :
    (1 ≤ third.failures) × (third.delay ≡ min 3000 (doubled 1000 (third.failures - 1)))
restart_delay_example =
    restart_delay 4 1000 3000 5000 30000 new failed (profile "e1") third new-init to_failed
      third_found

failure_delays_start_example :
    ((enforce_restart_backoff (profile "e1") 500 (record_restart_failure (profile "e1") 10 new)
        ≡ ok tt)
      ↔ (10 + (next_backoff new 10 none).delay ≤ 500))
    × ((profile "e1" == profile "e2") ≡ false
        → enforce_restart_backoff (profile "e2") 500 (record_restart_failure (profile "e1") 10 new)
          ≡ enforce_restart_backoff (profile "e2") 500 new)
failure_delays_start_example = failure_delays_start new (profile "e1") (profile "e2") 10 500

-- A runtime that is published and then removed by `close`, in a pool with one slot.
abbrev pool_of : Result PoolError Pool → Pool
pool_of (ok s) = s
pool_of (err e) = open_pool new

abbrev check : Check
check = record { profile = profile "e1"; is_persistent = true }

abbrev key : Key
key = key_of (profile "e1")

abbrev requested : Pool
requested = pool_of (request 1 check 0 (open_pool new))

abbrev started : Pool
started = pool_of (take_slot 1 requested)

abbrev published_pool : Pool
published_pool = pool_of (succeed 1 7 5 started)

abbrev closed_pool : Pool
closed_pool = pool_of (close_key 9 (begin_close published_pool))

run_facts :
    (request 1 check 0 (open_pool new) ≡ ok requested)
    × (take_slot 1 requested ≡ ok started)
    × (succeed 1 7 5 started ≡ ok published_pool)
    × (close_key 9 (begin_close published_pool) ≡ ok closed_pool)
unfolding request take_slot succeed close_key begin_close enforce_restart_backoff locked_keys find
    pop take_start remove_locked
run_facts = (refl, refl, refl, refl)

to_published : Slots.Reach (open_pool new) published_pool
to_published =
    Slots.next
      (Slots.next (Slots.next Slots.here (requests 1 check 0 (run_facts.0)))
        (takes_slot 1 (run_facts.1)))
      (succeeds 1 7 5 (run_facts.2))

to_closed : Slots.Reach (open_pool new) closed_pool
to_closed = Slots.next (Slots.next to_published begins_close) (closes_key 9 (run_facts.3))

closed_facts : (closed_pool.closed ≡ true) × (closed_pool.closing ≡ [])
unfolding request take_slot succeed close_key begin_close enforce_restart_backoff locked_keys find
    pop take_start remove_locked
closed_facts = (refl, refl)

Reach-slots_example :
    (published_pool.slots + slots_used published_pool ≡ 4)
    × (times key (locked_keys published_pool.starts) + times key (keys_of published_pool) ≤ 1)
Reach-slots_example = Reach-slots new published_pool key to_published

closed_pool_empty_example :
    (keys_of closed_pool ≡ [])
    × (closed_pool.slots + count has_slot closed_pool.starts + length closed_pool.fresh ≡ 4)
closed_pool_empty_example =
    closed_pool_empty new closed_pool to_closed closed_facts.0 closed_facts.1
