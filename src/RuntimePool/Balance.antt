-- ===== src/RuntimePool/Balance.antt =====
-- No slot of the pool is lost or given twice, and no key has two runtimes.
use xray_e2e_prober.Base.{
  ℕ, ◌+◌, ◌-◌, ◌≤◌, ◌≡◌, refl, subst, Bool, true, false, not, ◌&&◌, ◌||◌, some, List, ◌∷◌, map,
  count, if◌then◌else◌, ◌==◌, nat_eq, string_eq, option_eq, pair_eq, member, length, is_some,
  Option-cases, inl, inr, ok, ◌>>=◌, ◌>>◌, reject, >>=-eq-ok, arith,
}
use xray_e2e_prober.RuntimePool.Backoff.{
  pool_closed, not_current, not_ready, enforce_restart_backoff, record_restart_failure,
}
use xray_e2e_prober.RuntimePool.Slots
use xray_e2e_prober.RuntimePool.Slots.{
  Key, key_of, Check, Persistent, Phase, waiting, starting, discarding, Start, Pool, find, pop,
  locked_keys, is_locked, is_obsolete, take_start, the_start, is_waiting_start, is_starting,
  is_discarding, place, take_task,
}
use xray_e2e_prober.RuntimePool.Accounts.{
  times, take_start-count, take_start-times, length-take_task, times_taken,
}

abbrev pub keys_of : Pool → List Key
keys_of s = map (λ item. item.0) s.persistent

abbrev pub has_slot : Start → Bool
has_slot st = not (is_waiting_start st.phase)

-- The slots that runtimes have: published ones, starts past the wait, fresh ones in use.
abbrev pub slots_used : Pool → ℕ
slots_used s = length s.persistent + count has_slot s.starts + length s.fresh

pub record IsBalanced (limit : ℕ) (s : Pool) : Type 0 where
  pub slots : s.slots + slots_used s ≡ limit
  pub apart : (k : Key) → times k (locked_keys s.starts) + times k (keys_of s) ≤ 1
  pub listed : s.closed ≡ true → (k : Key) → member k (keys_of s) ≡ true → member k s.closing ≡ true

found_start :
    (task : ℕ) (starts : List Start) {found : Start × List Start}
    → the_start (take_start task starts) ≡ ok found
    → take_start task starts ≡ some found
found_start task starts e = elim (Option-cases (take_start task starts)) [
  | inl absent ↦ cc (rw absent at e)
  | inr (found', there) ↦ ground (arith, there, rw there at e)
]

-- What an operation on the start of a task finds and leaves.
pub start_step :
    (task : ℕ) (starts : List Start) (bad : Start → Bool) (after : Start × List Start → Pool)
    {t : Pool}
    → (the_start (take_start task starts) >>= λ found.
        reject (bad found.0) not_ready >> ok (after found))
      ≡ ok t
    → (found : Start × List Start) × (take_start task starts ≡ some found)
      × (bad found.0 ≡ false)
      × (after found ≡ t)
start_step task starts bad after e =
    let (found, there, e1) = >>=-eq-ok (the_start (take_start task starts)) _ e in
    let (_, fine, e2) = >>=-eq-ok (reject (bad found.0) not_ready) _ e1 in
    (found, found_start task starts there, ground (arith, fine), ground (arith, e2))

module _ (limit : ℕ) {s t : Pool} (v : IsBalanced limit s) where
  pub take_slot-IsBalanced : (task : ℕ) → Slots.take_slot task s ≡ ok t → IsBalanced limit t
  unfolding Slots.take_slot locked_keys
  take_slot-IsBalanced task e =
      let (found, h, free, same) =
        start_step task s.starts (λ st. not (is_waiting_start st.phase) || s.slots == 0)
          (λ found. record s {
            slots = s.slots - 1;
            starts = record found.0 { phase = starting } ∷ found.1;
          })
          e in
      subst (IsBalanced limit) same record {
        slots = ground (arith, v.slots, free, take_start-count has_slot task s.starts h);
        apart = λ k. ground (arith, v.apart k, take_start-times k task s.starts h);
        listed = v.listed;
      }

  pub abandon-IsBalanced : (task : ℕ) → Slots.abandon task s ≡ ok t → IsBalanced limit t
  unfolding Slots.abandon locked_keys
  abandon-IsBalanced task e =
      let (found, h, free, same) =
        start_step task s.starts (λ st. not (is_waiting_start st.phase))
          (λ found. record s { starts = found.1 }) e in
      subst (IsBalanced limit) same record {
        slots = ground (arith, v.slots, free, take_start-count has_slot task s.starts h);
        apart = λ k. ground (arith, v.apart k, take_start-times k task s.starts h);
        listed = v.listed;
      }

  pub fail_start-IsBalanced :
      (task : ℕ) (is_exception : Bool) (now : ℕ)
      → Slots.fail_start task is_exception now s ≡ ok t
      → IsBalanced limit t
  unfolding Slots.fail_start locked_keys
  fail_start-IsBalanced task is_exception now e =
      let (found, h, fine, same) =
        start_step task s.starts (λ st. not (is_starting st.phase))
          (λ found. record s {
            starts = record found.0 { phase = discarding } ∷ found.1;
            backoffs =
                if is_exception
                then record_restart_failure found.0.check.profile now s.backoffs
                else s.backoffs;
          })
          e in
      subst (IsBalanced limit) same record {
        slots = ground (
          arith,
          v.slots,
          fine,
          slot_of found.0.phase,
          take_start-count has_slot task s.starts h,
        );
        apart = λ k. ground (arith, v.apart k, take_start-times k task s.starts h);
        listed = v.listed;
      }
    where
      slot_of : (p : Phase) → not (is_starting p) ≡ false → is_waiting_start p ≡ false
      slot_of waiting h = cc (h)
      slot_of starting h = refl
      slot_of discarding h = refl

  pub release-IsBalanced : (task : ℕ) → Slots.release task s ≡ ok t → IsBalanced limit t
  unfolding Slots.release locked_keys
  release-IsBalanced task e =
      let (found, h, fine, same) =
        start_step task s.starts (λ st. not (is_discarding st.phase))
          (λ found. record s { slots = s.slots + 1; starts = found.1 }) e in
      subst (IsBalanced limit) same record {
        slots = ground (
          arith,
          v.slots,
          fine,
          slot_of found.0.phase,
          take_start-count has_slot task s.starts h,
        );
        apart = λ k. ground (arith, v.apart k, take_start-times k task s.starts h);
        listed = v.listed;
      }
    where
      slot_of : (p : Phase) → not (is_discarding p) ≡ false → is_waiting_start p ≡ false
      slot_of waiting h = cc (h)
      slot_of starting h = refl
      slot_of discarding h = refl

  pub finish_fresh-IsBalanced : (task : ℕ) → Slots.finish_fresh task s ≡ ok t → IsBalanced limit t
  unfolding Slots.finish_fresh
  finish_fresh-IsBalanced task e = elim (Option-cases (take_task task s.fresh)) [
    | inl absent ↦ cc (rw absent at e)
    | inr (rest, there) ↦
        let e' = rw there at e in
        let same : record s { fresh = rest; slots = s.slots + 1 } ≡ t = ground (arith, e') in
        subst (IsBalanced limit) same record {
          slots = omega (arith, v.slots, length-take_task task s.fresh there);
          apart = v.apart;
          listed = v.listed;
        }
  ]

  pub request-IsBalanced :
      (task : ℕ) (c : Check) (now : ℕ) → Slots.request task c now s ≡ ok t → IsBalanced limit t
  unfolding Slots.request locked_keys
  request-IsBalanced task c now e =
      let (_, _, e1) = >>=-eq-ok (reject s.closed pool_closed) _ e in
      let (_, free, e2) =
        >>=-eq-ok (reject (c.is_persistent && is_locked (key_of c.profile) s) not_ready) _ e1 in
      let (_, _, e3) =
        >>=-eq-ok (reject (c.is_persistent && is_obsolete c.profile s) not_current) _ e2 in
      let (_, absent, e4) =
        >>=-eq-ok
          (reject (c.is_persistent && is_some (find (key_of c.profile) s.persistent)) not_ready) _
          e3 in
      let (_, _, e5) = >>=-eq-ok (enforce_restart_backoff c.profile now s.backoffs) _ e4 in
      let same : record s {
        starts =
            record {
              task = task;
              check = c;
              phase = waiting;
              delay = Slots.delay_of (s.backoffs.restart_backoffs c.profile);
            }
            ∷ s.starts;
      }
          ≡ t =
        ground (arith, e5) in
      subst (IsBalanced limit) same record {
        slots = ground (arith, v.slots);
        apart = λ k.
            times_taken c.is_persistent (key_of c.profile) k (locked_keys s.starts) s.persistent
              (ground (arith, free)) (ground (arith, absent)) (v.apart k);
        listed = v.listed;
      }
