-- ===== src/Checker/Quorum.antt =====
-- The verdict of a cycle counts the fresh results of the enabled reachability targets, and nothing
-- that was cached or measured for throughput.
use mathlib.Core.List.{map, map-append}
use xray_e2e_prober.Base.{
  ℕ, String, ◌≡◌, refl, ◌∙◌, true, false, none, some, List, [], ◌∷◌, ◌++◌, All, beq_refl,
  if◌then◌else◌, ◌==◌, string_eq, member, unique, Dict, lookup, insert, lookup-insert, eq_iff,
  arith,
}
use xray_e2e_prober.Models.States.{ReachabilityState, TargetResult}
use xray_e2e_prober.Models.Targets.{TargetConfig, is_some'}
use xray_e2e_prober.Checker.Failures.{bare_result}
use xray_e2e_prober.Checker.TargetSet
use xray_e2e_prober.Checker.TargetSet.{
  Cycle, Choice, run, reuse, wait, Selection, by_target, apply, choose, choice_for, select,
  value_of, collect, verdict, fresh_by_id, results_of, check_target_set, enabled_targets,
  is_reachability, health_targets, health_ids,
}

by_target-append :
    (m : Dict TargetResult) (rs : List TargetResult) (r : TargetResult)
    → by_target m (rs ++ r ∷ []) ≡ insert r.target_id r (by_target m rs)
unfolding by_target
by_target-append m [] r = refl
by_target-append m (x ∷ rs) r = by_target-append (insert x.target_id x m) rs r

-- A dictionary of results by their own ids.
abbrev Owned : Dict TargetResult → Type 0
Owned m = (id : String) (r : TargetResult) → lookup id m ≡ some r → r.target_id ≡ id

by_target-Owned :
    (rs : List TargetResult) (m : Dict TargetResult) → Owned m → Owned (by_target m rs)
unfolding by_target
by_target-Owned [] m h = h
by_target-Owned (x ∷ rs) m h = by_target-Owned rs (insert x.target_id x m) (λ id r e.
    ground (arith, h id r, rw (lookup-insert x.target_id id x m) at e, eq_iff x.target_id id))

nil-Owned : Owned []
unfolding lookup
nil-Owned id r e = cc

module _ (c : Cycle) (check : TargetConfig → TargetResult)
    (own : (t : TargetConfig) → (check t).target_id ≡ t.target_id) where
  abbrev pub fresh : Selection → Dict TargetResult
  fresh sel = fresh_by_id check sel.to_run

  fresh-run :
      (t : TargetConfig) (ts : List TargetConfig) (id : String)
      → lookup id (fresh_by_id check (ts ++ t ∷ []))
        ≡ (if t.target_id == id then some (check t) else lookup id (fresh_by_id check ts))
  unfolding fresh_by_id
  fresh-run t ts id =
      rw
        (
          map-append check ts (t ∷ []),
          by_target-append [] (map check ts) (check t),
          lookup-insert,
          own t,
        )
        refl

  -- A target that is not the next one keeps its entries.
  apply-other :
      (t : TargetConfig) (sel : Selection) (x : Choice) (id : String)
      → (t.target_id == id) ≡ false
      → (lookup id (apply c t sel x).cached ≡ lookup id sel.cached)
        × (lookup id (fresh (apply c t sel x)) ≡ lookup id (fresh sel))
  apply-other t sel run id e = (refl, rw (fresh-run t sel.to_run id, e) refl)
  apply-other t sel (reuse r) id e = (rw (lookup-insert t.target_id id r sel.cached, e) refl, refl)
  apply-other t sel (wait at) id e = (rw (lookup-insert t.target_id id _ sel.cached, e) refl, refl)

  select-other :
      (ts : List TargetConfig) (sel : Selection) (id : String)
      → member id (map (λ t. t.target_id) ts) ≡ false
      → (lookup id (select c sel ts).cached ≡ lookup id sel.cached)
        × (lookup id (fresh (select c sel ts)) ≡ lookup id (fresh sel))
  unfolding select
  select-other [] sel id e = (refl, refl)
  select-other (t ∷ ts) sel id e =
      let x = choice_for c sel.due t in
      let (p, q) = select-other ts (apply c t sel x) id (ground (arith, e)) in
      let (a, b) = apply-other t sel x id (ground (arith, e)) in (p ∙ a, q ∙ b)

  -- The entry that a target ends with.
  pub record Entry (cached fresh : Dict TargetResult) (t : TargetConfig) : Type 0 where
    pub result : TargetResult
    pub found : value_of cached fresh t.target_id ≡ some result
    pub named : result.target_id ≡ t.target_id
    pub checked : is_reachability t ≡ true → result ≡ check t

  choice-reuse :
      (due : Dict ℕ) (t : TargetConfig) (r : TargetResult)
      → choice_for c due t ≡ reuse r
      → (TargetSet.previous_of c t.target_id ≡ some r) × (is_some' t.throughput ≡ true)
  unfolding choice_for choose
  choice-reuse due t r e = ground (arith, e)

  choice-wait :
      (due : Dict ℕ) (t : TargetConfig) (at : ℕ)
      → choice_for c due t ≡ wait at
      → is_some' t.throughput ≡ true
  unfolding choice_for choose
  choice-wait due t at e = ground (arith, e)

  apply-Entry :
      (t : TargetConfig) (sel : Selection) (x : Choice)
      → choice_for c sel.due t ≡ x
      → lookup t.target_id sel.cached ≡ none
      → Entry (apply c t sel x).cached (fresh (apply c t sel x)) t
  unfolding value_of
  apply-Entry t sel run e absent = record {
    result = check t;
    found = rw (absent, fresh-run t sel.to_run t.target_id, beq_refl t.target_id) refl;
    named = own t;
    checked = λ _. refl;
  }
  apply-Entry t sel (reuse r) e absent = record {
    result = r;
    found = rw (lookup-insert t.target_id t.target_id r sel.cached, beq_refl t.target_id) refl;
    named = by_target-Owned c.previous [] nil-Owned t.target_id r (choice-reuse sel.due t r e).0;
    checked = λ h. cc ((choice-reuse sel.due t r e).1, h);
  }
  apply-Entry t sel (wait at) e absent = record {
    result = bare_result t.target_id ReachabilityState.unknown;
    found = rw (lookup-insert t.target_id t.target_id _ sel.cached, beq_refl t.target_id) refl;
    named = refl;
    checked = λ h. cc (choice-wait sel.due t at e, h);
  }

  Entry-same :
      (t : TargetConfig) (a b x y : Dict TargetResult)
      → lookup t.target_id a ≡ lookup t.target_id b
      → lookup t.target_id x ≡ lookup t.target_id y
      → Entry b y t
      → Entry a x t
  unfolding value_of
  Entry-same t a b x y p q e = record {
    result = e.result;
    found = rw (p, q) e.found;
    named = e.named;
    checked = e.checked;
  }

  abbrev pub Absent : Selection → List TargetConfig → Type 0
  Absent sel = All (λ t. lookup t.target_id sel.cached ≡ none)

  Absent-apply :
      (t : TargetConfig) (sel : Selection) (x : Choice) (ts : List TargetConfig)
      → member t.target_id (map (λ u. u.target_id) ts) ≡ false
      → Absent sel ts
      → Absent (apply c t sel x) ts
  Absent-apply t sel x [] e h = tt
  Absent-apply t sel x (u ∷ ts) e h = (
    (apply-other t sel x u.target_id
          (ground (arith, e, eq_iff t.target_id u.target_id, eq_iff u.target_id t.target_id))).0
        ∙ h.0,
    Absent-apply t sel x ts (ground (arith, e)) h.1,
  )

  pub entries :
      (ts : List TargetConfig) (sel : Selection)
      → unique (map (λ t. t.target_id) ts) ≡ true
      → Absent sel ts
      → All (Entry (select c sel ts).cached (fresh (select c sel ts))) ts
  unfolding select
  entries [] sel u h = tt
  entries (t ∷ ts) sel u h =
      let x = choice_for c sel.due t in
      let next = apply c t sel x in
      let apart : member t.target_id (map (λ v. v.target_id) ts) ≡ false = ground (arith, u) in
      let (p, q) = select-other ts next t.target_id apart in
      (
        Entry-same t (select c next ts).cached next.cached (fresh (select c next ts)) (fresh next) p
            q (apply-Entry t sel x refl h.0),
        entries ts next (ground (arith, u)) (Absent-apply t sel x ts apart h.1),
      )
