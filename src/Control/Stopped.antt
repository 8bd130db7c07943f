-- ===== src/Control/Stopped.antt =====
-- What holds once a `stop` of the control server has returned, until the next start.
use xray_e2e_prober.Base.{
  ℕ, ◌≡◌, refl, ap, subst, members_map, Bool, true, false, not, ◌&&◌, ◌||◌, Option, none, some,
  List, [], ◌∷◌, map, keep, all, All, ◌==◌, nat_eq, member, Bool-cases, inl, inr, ◌⊎◌, arith,
}
use xray_e2e_prober.Control.Server.{
  Phase, reading, running, closing, ended, Task, ControlServer, accept, moved, move, is_reading,
  is_open, is_closing, is_ended, has_task, begin_command, close, discard_task, end_interrupted,
  is_current, cancel, begin_stop, is_drained, end_stop,
}

-- What can happen while the server is not started again: a new connection has a new id, a task that
-- was not cancelled may begin its command, one that was may be interrupted while it closes, and a
-- stop begins when no other is under way.
pub data Step (s : ControlServer) : ControlServer → Type 0 where
  accepts : (id : ℕ) → has_task (λ k. true) id s.handlers ≡ false → Step s (accept id s)
  begins :
      (id : ℕ)
      → has_task (λ k. is_reading k.phase && not k.cancelled) id s.handlers ≡ true
      → Step s (begin_command id s)
  closes : (id : ℕ) → has_task (λ k. is_open k.phase) id s.handlers ≡ true → Step s (close id s)
  discards :
      (id : ℕ)
      → has_task (λ k. is_closing k.phase) id s.handlers ≡ true
      → Step s (discard_task id s)
  interrupted :
      (id : ℕ)
      → has_task (λ k. is_closing k.phase && k.cancelled) id s.handlers ≡ true
      → Step s (end_interrupted id s)
  stops : (current : Option ℕ) → s.draining ≡ none → Step s (begin_stop current s)
  stopped :
      (ids : List ℕ)
      → s.draining ≡ some ids
      → is_drained ids s.handlers ≡ true
      → Step s (end_stop s)

pub data Reach (s : ControlServer) : ControlServer → Type 0 where
  here : Reach s s
  next : {t u : ControlServer} → Reach s t → Step t u → Reach s u

-- The task waits for no request and runs no command.
abbrev pub IsOver : Phase → Type 0
IsOver reading = ⊥
IsOver running = ⊥
IsOver closing = Unit {0}
IsOver ended = Unit {0}

-- Where the task still does something, it was cancelled, and the stop under way waits for it.
abbrev IsKept : Option (List ℕ) → Task → Type 0
IsKept none k = IsOver k.phase
IsKept (some ids) k = IsOver k.phase ⊎ ((k.cancelled ≡ true) × (member k.id ids ≡ true))

record IsStopping (s : ControlServer) : Type 0 where
  stopping : s.stopping ≡ true
  closed : s.listening ≡ false
  kept : All (IsKept s.draining) s.handlers

over_kept : (draining : Option (List ℕ)) (k : Task) → IsOver k.phase → IsKept draining k
over_kept none k v = v
over_kept (some ids) k v = inl v

move-kept :
    (draining : Option (List ℕ)) (id : ℕ) (phase : Phase) (tasks : List Task)
    → IsOver phase
    → All (IsKept draining) tasks
    → All (IsKept draining) (move id phase tasks)
unfolding move
move-kept draining id phase [] v h = tt
move-kept draining id phase (k ∷ tasks) v h = elim (Bool-cases (k.id == id)) [
  | inl same ↦
      rw same (over_kept draining (moved phase k) v, move-kept draining id phase tasks v h.1)
  | inr other ↦ rw other (h.0, move-kept draining id phase tasks v h.1)
]

keep-kept :
    (draining : Option (List ℕ)) (p : Task → Bool) (tasks : List Task)
    → All (IsKept draining) tasks
    → All (IsKept draining) (keep p tasks)
keep-kept draining p [] h = tt
keep-kept draining p (k ∷ tasks) h = elim (Bool-cases (p k)) [
  | inl there ↦ rw there (h.0, keep-kept draining p tasks h.1)
  | inr gone ↦ rw gone (keep-kept draining p tasks h.1)
]

-- A task that waits for its request was cancelled, so none begins its command.
none_begins :
    (draining : Option (List ℕ)) (id : ℕ) (tasks : List Task)
    → All (IsKept draining) tasks
    → has_task (λ k. is_reading k.phase && not k.cancelled) id tasks ≡ false
unfolding has_task
none_begins draining id [] h = refl
none_begins draining id (k ∷ tasks) h =
    ground (arith, waits draining k h.0, none_begins draining id tasks h.1)
  where
    over : (phase : Phase) → IsOver phase → is_reading phase ≡ false
    over closing v = refl
    over ended v = refl
    over reading v = elim v [ ]
    over running v = refl

    waits :
        (draining : Option (List ℕ)) (k : Task)
        → IsKept draining k
        → (is_reading k.phase && not k.cancelled) ≡ false
    waits none k v = ground (arith, over k.phase v)
    waits (some ids) k (inl v) = ground (arith, over k.phase v)
    waits (some ids) k (inr v) = ground (arith, v.0)

drained-kept :
    (ids : List ℕ) (tasks : List Task)
    → All (IsKept (some ids)) tasks
    → all (λ k. is_ended k.phase || not (member k.id ids)) tasks ≡ true
    → All (IsKept none) tasks
drained-kept ids [] h e = tt
drained-kept ids (k ∷ tasks) h e =
    (last k.phase (ground (arith, e)) h.0, drained-kept ids tasks h.1 (ground (arith, e)))
  where
    last :
        (phase : Phase)
        → (is_ended phase || not (member k.id ids)) ≡ true
        → IsOver phase ⊎ ((k.cancelled ≡ true) × (member k.id ids ≡ true))
        → IsOver phase
    last ended e v = tt
    last closing e v = tt
    last reading e (inl v) = v
    last reading e (inr v) = cc (rw v.1 at e)
    last running e (inl v) = v
    last running e (inr v) = cc (rw v.1 at e)

cancelled-kept :
    (current : Option ℕ) (ids : List ℕ) (tasks : List Task)
    → All (IsKept none) tasks
    → All (IsKept (some ids)) (map (cancel current) tasks)
cancelled-kept current ids [] h = tt
cancelled-kept current ids (k ∷ tasks) h = (inl h.0, cancelled-kept current ids tasks h.1)

Step-IsStopping : {s t : ControlServer} → Step s t → IsStopping s → IsStopping t
unfolding accept begin_command close discard_task end_interrupted begin_stop end_stop is_drained
Step-IsStopping {s} (accepts id unseen) v = record {
  stopping = v.stopping;
  closed = v.closed;
  kept = rw v.stopping (over_kept s.draining _ tt, v.kept);
}
Step-IsStopping {s} (begins id waits) v = cc (waits, none_begins s.draining id s.handlers v.kept)
Step-IsStopping {s} (closes id there) v = record {
  stopping = v.stopping;
  closed = v.closed;
  kept = move-kept s.draining id closing s.handlers tt v.kept;
}
Step-IsStopping {s} (discards id there) v = record {
  stopping = v.stopping;
  closed = v.closed;
  kept = keep-kept s.draining (λ k. not (k.id == id)) s.handlers v.kept;
}
Step-IsStopping {s} (interrupted id there) v = record {
  stopping = v.stopping;
  closed = v.closed;
  kept = move-kept s.draining id ended s.handlers tt v.kept;
}
Step-IsStopping {s} (stops current idle) v = record {
  stopping = refl;
  closed = refl;
  kept = cancelled-kept current _ s.handlers (subst (λ x. All (IsKept x) s.handlers) idle v.kept);
}
Step-IsStopping {s} (stopped ids under_way over) v = record {
  stopping = v.stopping;
  closed = v.closed;
  kept = drained-kept ids s.handlers (subst (λ x. All (IsKept x) s.handlers) under_way v.kept) over;
}

Reach-IsStopping : {s t : ControlServer} → IsStopping s → Reach s t → IsStopping t
Reach-IsStopping v here = v
Reach-IsStopping v (next r st) = Step-IsStopping st (Reach-IsStopping v r)

-- A stop from outside waits for every task that is there.
awaited :
    (ids : List ℕ) (tasks : List Task)
    → All (λ k. member k.id ids ≡ true) tasks
    → All (IsKept (some ids)) (map (cancel none) tasks)
awaited ids [] h = tt
awaited ids (k ∷ tasks) h = (inr (refl, h.0), awaited ids tasks h.1)

keep-none : (ids : List ℕ) → keep (λ id. not (is_current none id)) ids ≡ ids
keep-none [] = refl
keep-none (id ∷ ids) = ap (λ rest. id ∷ rest) (keep-none ids)

begin_stop-IsStopping : (s : ControlServer) → IsStopping (begin_stop none s)
unfolding begin_stop
begin_stop-IsStopping s = record {
  stopping = refl;
  closed = refl;
  kept = awaited _ s.handlers (
      rw (keep-none (map {A = Task} (λ k. k.id) s.handlers))
        (members_map {A = Task} (λ k. k.id) s.handlers));
}

-- Whatever connections come, end and are cancelled after a stop from outside the connections has
-- begun, and whatever other stops follow, until the next start: whenever no stop is under way any
-- more, no connection waits for a request and no command runs.
pub stop_quiets :
    (s t : ControlServer)
    → Reach (begin_stop none s) t
    → t.draining ≡ none
    → (t.stopping ≡ true) × (t.listening ≡ false) × All (λ k. IsOver k.phase) t.handlers
stop_quiets s t r over =
    let v = Reach-IsStopping (begin_stop-IsStopping s) r in
    (v.stopping, v.closed, subst (λ x. All (IsKept x) t.handlers) over v.kept)
