-- ===== src/Lib.antt =====
-- xray-e2e-prober checks from end to end whether Xray proxies work: it imports the entries of its
-- sources, assigns target sets to them, runs a proxy for each and requests the targets through it.
--
-- The parts that this library models, and how they meet:
--
-- * Models (src/xray_e2e_prober/models.py). States holds the states, reasons and results, with
--   `coherent_success`, `overall_state` and `valid_times`; Targets the target and target set settings
--   with their validators over several fields; Config the sources, rules, entries and check
--   definitions, with `validate_references` and `default_lifecycle`. References and Overall prove what
--   the last two groups promise. Field bounds that pydantic checks are not part of the records.
-- * SafeRegex (src/xray_e2e_prober/safe_regex.py). Validate holds the validator of the patterns in
--   assignments; Tokens, Classes, Flat, Wrapping and Accepted read an accepted pattern back as a flat
--   sequence of tokens.
-- * Assignments (src/xray_e2e_prober/assignments.py). Resolve is `resolve_assignment` with
--   `matches_filter` and `_decision`; Precedence describes which rule decides.
-- * Inventory (src/xray_e2e_prober/inventory.py, `stable_check_id` of src/xray_e2e_prober/identity.py).
--   Compile is `compile_inventory`, which asks Assignments for every entry; Justified, Complete and
--   Limits prove where its checks come from, that none is missing and that they fit the runtimes.
-- * Checker (src/xray_e2e_prober/checker.py). Failures classifies exceptions; Request is `_request` with
--   its redirect loop and bounded body; Target is `check_target` with `_redirect_url`; Egress is
--   `check_egress`; TargetSet is `check_target_set`, which selects throughput targets by cached
--   results and due times and gives the verdict over the others. Bounds, Valid, Success,
--   Observed, EgressVerdict, Ids, Quorum and Verdict hold the proofs.
-- * Scheduler (src/xray_e2e_prober/scheduler.py). State holds the records, Queueing `run_once`,
--   `_enqueue_scheduled` and the steps of `_worker`, Updating `update` and the producers, Lifecycle
--   `start`, `stop` and the relation `Step` of everything that the tasks can do. A coroutine runs
--   without interruption between two awaits, so a step is what it does there; `Reach` orders the
--   steps in any way. Counting, Overlap, Safety, Obsolete, Waiters and Settled hold the proofs.
-- * RuntimePool (src/xray_e2e_prober/runtime_pool.py). Backoff holds the backoff of restarts, as the
--   pool's failures, starts, reconciliations and closing change it; Delays proves how it grows. Slots
--   holds the runtimes with the semaphore's slots: what `acquire`, `_persistent_runtime`,
--   `_start_runtime`, `_retire_persistent`, `_finish_persistent_cycle`, `reconcile` and `close` do
--   between two awaits, and the relation `Step` over them; a key's lock is held by the start in flight.
--   Accounts, Balance, Conserved and Ownership hold the proofs.
-- * Identity (src/xray_e2e_prober/identity.py). Registry holds the records and grouping; Reconcile is
--   `IdentityRegistry.reconcile`, one function for each of its five phases; Manual is
--   `apply_manual_mapping`. Groups, Progress, External and Assigned carry the invariant of the phases to
--   Stable; Mapped and Pruned hold the theorems on the other two operations.
-- * Sources (src/xray_e2e_prober/sources.py). Config holds headers, secrets, locations and `_origin`,
--   Http `_fetch_http` with `_read_limited`, Local `_read_local`, `_fetch_local` and `fetch`. Requests,
--   Documents and Origins hold the theorems.
-- * Control (src/xray_e2e_prober/control.py). Protocol is what `ControlServer._handle` and `request` do
--   with the bytes on the socket, Server the life of the server and its connections, step by
--   step; Exchange joins both sides, and Stopped proves what a stop leaves.
-- * Service (src/xray_e2e_prober/service.py). State holds what the service keeps and what happens around
--   a refresh; Commit is `_commit_source_state`, Refresh `refresh_source` with `_validate_inventory`,
--   Manual `reconcile_source`. They join Identity and Inventory; what was fetched, parsed and validated,
--   the store's answers and failures of the running parts are events, and the caller is not cancelled.
--   Results is the end of `execute`,
--   `_scheduler_error`, `_apply_config` and the exit code. Pointers, Atomic, Consistent, Current, Steps
--   and Exits hold the theorems.
-- * Storage (src/xray_e2e_prober/storage.py). Journal is the transaction around a new configuration file,
--   as durable effects in order; Recover and Crash hold what a crash between them leaves.
--
-- Base holds what they share: Boolean tests, lists, dictionaries as association lists in the order of
-- insertion, and results with exceptions as values.
--
-- Numbers are unbounded. Times are whole numbers of a unit that each file names, so the rounding of
-- floats is not modelled. The loop of `_request` runs on fuel, one round more than `max_redirects`: it
-- is proved that this never runs out. The loop of the pattern validator runs on the length of the
-- pattern, since every round reads a character. All other loops are structural.
--
-- Arguments stand for what is not code of this program: Python's `re`, `fnmatch` and character
-- classes, SHA-256, URL, JSON and address parsing, the HTTP client, the file system, random ids, and
-- text decoding. The clock is an argument too. Where a property needs JSON to read back what it wrote,
-- that is a hypothesis on the values at hand.
--
-- Not modelled: the parsers of sources, the rest of storage and of the service, the HTTP API and the command
-- line: their work is input and output, documents of other formats, or the calls of asyncio between the
-- parts above. Of the checker, `run_cycle` and the observer of the first byte are left out;
-- of the scheduler, how long producers sleep; of the runtime pool, the wait for the observatory.
--
-- Where a step is coarser than the code: `stop` of the scheduler is one step, though it awaits the tasks
-- that it cancels, and so is each of the tests that a waiting `acquire` of the runtime pool repeats, so a
-- start that goes on while the pool closes is left out. The service's `refresh_source` and
-- `reconcile_source` are whole calls in Refresh and Manual, which no cancellation interrupts; Steps takes
-- their commits apart at the awaits.
pub mod Base
pub mod Models
pub mod SafeRegex
pub mod Assignments
pub mod Inventory
pub mod Checker
pub mod Scheduler
pub mod RuntimePool
pub mod Identity
pub mod Sources
pub mod Control
pub mod Service
pub mod Storage
