-- ===== src/RuntimePool/Delays.antt =====
-- How long the backoffs grow.
use xray_e2e_prober.Base.{
  ℕ, zero, suc, ◌+◌, ◌-◌, ◌*◌, ◌≤◌, min, ◌≡◌, refl, false, Option, none, some, List, if◌then◌else◌,
  ltb, leb, ◌==◌, member, Bool-cases, inl, inr, beq_refl, ◌↔◌, subst, >>=-eq-ok, ok, reject, arith,
}
use xray_e2e_prober.Inventory.Compile.{Profile, profile_eq}
use xray_e2e_prober.RuntimePool.Backoff.{
  RestartBackoff, RuntimePool, limit_not_positive, backoff_max_too_small,
  warmup_timeout_not_positive, warmup_delay_too_long, restart_backoff_active, new_pool, is_waiting,
  init, set_at, next_backoff, record_restart_failure, enforce_restart_backoff, drop_backoff,
  reset_if_stable, keep_backoffs, clear_backoffs, Step, fails, starts, resets, reconciles, closes,
  Reach, here, next,
}

-- A number doubled so often.
unfoldable pub doubled : ℕ → ℕ → ℕ
doubled x zero = x
doubled x (suc n) = doubled x n * 2

doubled_again : (x n : ℕ) → 1 ≤ n → doubled x (n + 1 - 1) ≡ doubled x (n - 1) * 2
unfolding doubled
doubled_again x zero le = absurd (omega arith)
doubled_again x (suc n) le =
    let here : suc n + 1 - 1 ≡ suc n = omega arith in
    let before : suc n - 1 ≡ n = omega arith in rw (here, before) refl

-- The first delay, doubled with every further failure, up to the maximum.
pub record IsDue (initial maximum : ℕ) (b : RestartBackoff) : Type 0 where
  pub counted : 1 ≤ b.failures
  pub delay : b.delay ≡ min maximum (doubled initial (b.failures - 1))

pub record Grows (initial maximum : ℕ) (pool : RuntimePool) : Type 0 where
  pub initial_same : pool.restart_backoff_initial ≡ initial
  pub maximum_same : pool.restart_backoff_max ≡ maximum
  pub entries :
      (key : Profile) (b : RestartBackoff)
      → pool.restart_backoffs key ≡ some b
      → IsDue initial maximum b

module _ (initial maximum : ℕ) (fits : initial ≤ maximum) where
  next_backoff-IsDue :
      (pool : RuntimePool) (now : ℕ) (o : Option RestartBackoff)
      → Grows initial maximum pool
      → ((b : RestartBackoff) → o ≡ some b → IsDue initial maximum b)
      → IsDue initial maximum (next_backoff pool now o)
  unfolding doubled
  next_backoff-IsDue pool now none v old = record {
    counted = omega arith;
    delay = rw v.initial_same (omega (arith, fits));
  }
  next_backoff-IsDue pool now (some b) v old =
      let due = old b refl in
      let again : doubled initial (b.failures + 1 - 1) ≡ doubled initial (b.failures - 1) * 2 =
        doubled_again initial b.failures due.counted in
      record {
        counted = omega arith;
        delay = rw (v.maximum_same, again) (omega (arith, due.delay));
      }

  -- An entry that is set keeps the others.
  set_at-IsDue :
      (key : Profile) (entry : Option RestartBackoff) (backoffs : Profile → Option RestartBackoff)
      → ((b : RestartBackoff) → entry ≡ some b → IsDue initial maximum b)
      → ((k : Profile) (b : RestartBackoff) → backoffs k ≡ some b → IsDue initial maximum b)
      → (k : Profile) (b : RestartBackoff) → set_at key entry backoffs k ≡ some b
      → IsDue initial maximum b
  set_at-IsDue key entry backoffs new old k b e = elim (Bool-cases (key == k)) [
    | inl same ↦ new b (rw same at e)
    | inr other ↦ old k b (rw other at e)
  ]

  drop_backoff-Grows :
      (key : Profile) (p : RuntimePool)
      → Grows initial maximum p
      → Grows initial maximum (drop_backoff key p)
  unfolding drop_backoff
  drop_backoff-Grows key p v = record {
    initial_same = v.initial_same;
    maximum_same = v.maximum_same;
    entries = set_at-IsDue key none p.restart_backoffs (λ b e. cc (e)) v.entries;
  }

  kept_entry :
      (keys : List Profile) (p : RuntimePool) (k : Profile) (b : RestartBackoff)
      → Grows initial maximum p
      → (if member k keys then p.restart_backoffs k else none) ≡ some b
      → IsDue initial maximum b
  kept_entry keys p k b v e = elim (Bool-cases (member k keys)) [
    | inl kept ↦ v.entries k b (rw kept at e)
    | inr gone ↦ cc (rw gone at e)
  ]

  Step-Grows : {p q : RuntimePool} → Step p q → Grows initial maximum p → Grows initial maximum q
  unfolding record_restart_failure reset_if_stable keep_backoffs clear_backoffs
  Step-Grows {p} (fails key now) v = record {
    initial_same = v.initial_same;
    maximum_same = v.maximum_same;
    entries =
        set_at-IsDue key (some (next_backoff p now (p.restart_backoffs key))) p.restart_backoffs
          (λ b e.
            subst (IsDue initial maximum) (cc (e))
              (next_backoff-IsDue p now (p.restart_backoffs key) v (v.entries key)))
          v.entries;
  }
  Step-Grows {p} (starts key) v = drop_backoff-Grows key p v
  Step-Grows {p} (resets key stable_after now) v = elim (Bool-cases (leb stable_after now)) [
    | inl stable ↦ rw stable (drop_backoff-Grows key p v)
    | inr early ↦ rw early v
  ]
  Step-Grows {p} (reconciles keys) v = record {
    initial_same = v.initial_same;
    maximum_same = v.maximum_same;
    entries = λ k b e. kept_entry keys p k b v e;
  }
  Step-Grows {p} closes v = record {
    initial_same = v.initial_same;
    maximum_same = v.maximum_same;
    entries = λ k b e. cc (e);
  }

  Reach-Grows : {p q : RuntimePool} → Reach p q → Grows initial maximum p → Grows initial maximum q
  Reach-Grows here v = v
  Reach-Grows (next r s) v = Step-Grows s (Reach-Grows r v)

init-Grows :
    (limit initial maximum warmup_delay warmup_timeout : ℕ) (p : RuntimePool)
    → init limit initial maximum warmup_delay warmup_timeout ≡ ok p
    → (initial ≤ maximum) × Grows initial maximum p
unfolding init
init-Grows limit initial maximum warmup_delay warmup_timeout p e =
    let (_, _, e1) = >>=-eq-ok (reject (ltb limit 1) limit_not_positive) _ e in
    let (u, fits, e2) = >>=-eq-ok (reject (ltb maximum initial) backoff_max_too_small) _ e1 in
    let (_, _, e3) = >>=-eq-ok (reject (leb warmup_timeout 0) warmup_timeout_not_positive) _ e2 in
    let (_, _, e4) =
      >>=-eq-ok (reject (ltb warmup_timeout warmup_delay) warmup_delay_too_long) _ e3 in
    let same : new_pool limit initial maximum ≡ p = ground (arith, e4) in
    (
      ground (arith, fits),
      subst (Grows initial maximum) same
          record { initial_same = refl; maximum_same = refl; entries = λ k b h. cc (h) },
    )

let_through :
    (pool : RuntimePool) (now t : ℕ) (o : Option RestartBackoff)
    → (reject (is_waiting (some (next_backoff pool now o)) t) restart_backoff_active ≡ ok tt)
      ↔ (now + (next_backoff pool now o).delay ≤ t)
let_through pool now t none = ground arith
let_through pool now t (some b) = ground arith

-- In every state that a new pool's backoffs can reach, a backoff counts at least one failure, and its
-- delay is the initial one, doubled with every failure behind the first, up to the maximum.
pub restart_delay :
    (limit initial maximum warmup_delay warmup_timeout : ℕ) (p q : RuntimePool) (key : Profile)
    (b : RestartBackoff)
    → init limit initial maximum warmup_delay warmup_timeout ≡ ok p
    → Reach p q
    → q.restart_backoffs key ≡ some b
    → (1 ≤ b.failures) × (b.delay ≡ min maximum (doubled initial (b.failures - 1)))
restart_delay limit initial maximum warmup_delay warmup_timeout p q key b e r found =
    let (fits, v) = init-Grows limit initial maximum warmup_delay warmup_timeout p e in
    let due = (Reach-Grows initial maximum fits r v).entries key b found in (due.counted, due.delay)

-- After a failure of a runtime a start with its key is let through exactly from the time on at which
-- its new delay has passed, and a start with another key as before.
pub failure_delays_start :
    (pool : RuntimePool) (key other : Profile) (now t : ℕ)
    → ((enforce_restart_backoff key t (record_restart_failure key now pool) ≡ ok tt)
        ↔ (now + (next_backoff pool now (pool.restart_backoffs key)).delay ≤ t))
      × ((key == other) ≡ false
          → enforce_restart_backoff other t (record_restart_failure key now pool)
            ≡ enforce_restart_backoff other t pool)
unfolding enforce_restart_backoff record_restart_failure
failure_delays_start pool key other now t =
    (rw (beq_refl key) (let_through pool now t (pool.restart_backoffs key)), λ apart. rw apart refl)
