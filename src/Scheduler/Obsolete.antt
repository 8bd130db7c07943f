-- ===== src/Scheduler/Obsolete.antt =====
-- What `update` does to the items that are queued or running: which of them become obsolete.
use xray_e2e_prober.Base.{
  String, ◌⊎◌, ◌≡◌, refl, ◌∙◌, inl, inr, true, not, ◌||◌, Option, none, some, List, [], ◌∷◌, arith,
  eq_iff, ◌==◌, string_eq, Bool-cases, if◌then◌else◌, Dict, lookup, insert, has_key, lookup-insert,
  member, option_eq,
}
use xray_e2e_prober.Scheduler.State.{Generation, generation_eq, ScheduledCheck, WorkItem, Scheduler}
use xray_e2e_prober.Scheduler.Queueing.{is_obsolete}
use xray_e2e_prober.Scheduler.Updating
use xray_e2e_prober.Scheduler.Updating.{
  by_id, mark_previous, mark_desired, prune_known, start_producer, start_missing, known_after,
  adopt, update,
}
use xray_e2e_prober.Scheduler.Overlap.{if-ind}

-- A dictionary of checks by their own ids, each key once.
abbrev Keyed : Dict ScheduledCheck → Type 0
Keyed [] = Unit {0}
Keyed ((k, c) ∷ m) = (c.check_id ≡ k) × (lookup k m ≡ none) × Keyed m

insert-Keyed :
    (c : ScheduledCheck) (m : Dict ScheduledCheck) → Keyed m → Keyed (insert c.check_id c m)
unfolding lookup insert
insert-Keyed c [] h = (refl, refl, tt)
insert-Keyed c ((k, d) ∷ m) h = elim (Bool-cases (k == c.check_id)) [
  | inl e ↦ rw e (refl, rw ((eq_iff k c.check_id).0 e) at (h.1), h.2)
  | inr e ↦ rw e (
    h.0,
    rw (lookup-insert c.check_id k c m)
        (ground (arith, h.1, eq_iff k c.check_id, eq_iff c.check_id k)),
    insert-Keyed c m h.2,
  )
]

by_id-Keyed : (cs : List ScheduledCheck) (m : Dict ScheduledCheck) → Keyed m → Keyed (by_id m cs)
unfolding by_id
by_id-Keyed [] m h = h
by_id-Keyed (c ∷ cs) m h = by_id-Keyed cs (insert c.check_id c m) (insert-Keyed c m h)

abbrev mark_of : Option ScheduledCheck → Option (Option Generation) → Option (Option Generation)
mark_of none old = old
mark_of (some c) old = some (some c.generation)

-- After the second loop an id is known by its desired generation, if it is desired.
lookup-mark_desired :
    (id : String) (m : Dict ScheduledCheck) (known : Dict (Option Generation))
    → Keyed m
    → lookup id (mark_desired m known) ≡ mark_of (lookup id m) (lookup id known)
unfolding mark_desired lookup
lookup-mark_desired id [] known h = refl
lookup-mark_desired id ((k, c) ∷ m) known h =
    lookup-mark_desired id m (insert c.check_id (some c.generation) known) h.2
    ∙ rw (lookup-insert c.check_id id (some c.generation) known, h.0)
        (ground (arith, h.1, eq_iff k id))

-- The first loop: a job that is not desired is known by `None`.
module _ (id : String) (desired : Dict ScheduledCheck) (gone : lookup id desired ≡ none) where
  mark_one :
      (k : String) (p : ScheduledCheck) (jobs : Dict ScheduledCheck)
      (known : Dict (Option Generation))
      → (lookup id known ≡ some none) ⊎ (has_key id ((k, p) ∷ jobs) ≡ true)
      → (lookup id (
            if Updating.changed (lookup k desired) p
            then insert k (Updating.generation_of (lookup k desired)) known
            else known)
          ≡ some none)
        ⊎ (has_key id jobs ≡ true)
  unfolding has_key lookup
  mark_one k p jobs known h = ground (
    arith,
    gone,
    eq_iff k id,
    lookup-insert k id (Updating.generation_of (lookup k desired)) known,
  )

  lookup-mark_previous :
      (jobs : Dict ScheduledCheck) (known : Dict (Option Generation))
      → (lookup id known ≡ some none) ⊎ (has_key id jobs ≡ true)
      → lookup id (mark_previous desired jobs known) ≡ some none
  unfolding mark_previous has_key
  lookup-mark_previous [] known (inl e) = e
  lookup-mark_previous [] known (inr e) = cc
  lookup-mark_previous ((k, p) ∷ jobs) known h =
      lookup-mark_previous jobs _ (mark_one k p jobs known h)

-- Pruning drops no id that is known by a generation, and none that is queued or running.
lookup-prune_known :
    (queued running : List String) (id : String) (known : Dict (Option Generation))
    → (member id queued || member id running) ≡ true
    → lookup id (prune_known queued running known) ≡ lookup id known
unfolding prune_known lookup
lookup-prune_known queued running id [] h = refl
lookup-prune_known queued running id ((k, g) ∷ known) h =
    ground (arith, lookup-prune_known queued running id known, eq_iff k id)

lookup-prune_known-some :
    (queued running : List String) (id : String) (known : Dict (Option Generation)) (g : Generation)
    → lookup id known ≡ some (some g)
    → lookup id (prune_known queued running known) ≡ some (some g)
unfolding prune_known lookup
lookup-prune_known-some queued running id [] g h = h
lookup-prune_known-some queued running id ((k, x) ∷ known) g h =
    ground (arith, lookup-prune_known-some queued running id known g, eq_iff k id)

start_missing-known :
    (m : Dict ScheduledCheck) (s : Scheduler)
    → ((start_missing m s).known_generations ≡ s.known_generations)
      × ((start_missing m s).jobs ≡ s.jobs)
unfolding start_missing
start_missing-known [] s = (refl, refl)
start_missing-known ((k, c) ∷ m) s =
    ground (arith, start_missing-known m s, start_missing-known m (start_producer c s))

-- The entries of `known` and `jobs` after an update.
update-known :
    (checks : List ScheduledCheck) (s : Scheduler)
    → ((update checks s).known_generations ≡ known_after (by_id [] checks) s)
      × ((update checks s).jobs ≡ by_id [] checks)
unfolding update adopt
update-known checks s =
    if-ind {A = Scheduler}
      (λ t. (t.known_generations ≡ known_after (by_id [] checks) s) × (t.jobs ≡ by_id [] checks))
      s.started _ _ (λ _. start_missing-known (by_id [] checks) _) (λ _. (refl, refl))

-- After an update an item of a desired check, queued, running or new, is obsolete exactly if its
-- generation is not the desired one.
pub update_replaces :
    (checks : List ScheduledCheck) (s : Scheduler) (item : WorkItem) (check : ScheduledCheck)
    → lookup item.check.check_id (by_id [] checks) ≡ some check
    → is_obsolete (update checks s) item ≡ not (check.generation == item.check.generation)
unfolding is_obsolete known_after
update_replaces checks s item check e =
    let id = item.check.check_id in
    let desired = by_id [] checks in
    let marked = mark_previous desired s.jobs s.known_generations in
    let known = lookup-mark_desired id desired marked (by_id-Keyed checks [] tt) in
    rw
      (
        (update-known checks s).0,
        lookup-prune_known-some s.queued s.running id _ check.generation (rw e at known),
      )
      refl

-- After an update an item of a job that is gone from the checks is obsolete, also a one-shot item,
-- if it was queued or running.
pub update_removes :
    (checks : List ScheduledCheck) (s : Scheduler) (item : WorkItem)
    → lookup item.check.check_id (by_id [] checks) ≡ none
    → has_key item.check.check_id s.jobs ≡ true
    → (member item.check.check_id s.queued || member item.check.check_id s.running) ≡ true
    → is_obsolete (update checks s) item ≡ true
unfolding is_obsolete known_after
update_removes checks s item gone old busy =
    let id = item.check.check_id in
    let desired = by_id [] checks in
    let marked = lookup-mark_previous id desired gone s.jobs s.known_generations (inr old) in
    let known =
      lookup-mark_desired id desired (mark_previous desired s.jobs s.known_generations)
        (by_id-Keyed checks [] tt) in
    rw
      (
        (update-known checks s).0,
        lookup-prune_known s.queued s.running id _ busy,
        known,
        gone,
        marked,
      )
      refl
