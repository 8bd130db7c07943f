-- ===== src/RuntimePool/Ownership.antt =====
-- The theorems on the slots of the pool: what holds in every state that its tasks can reach.
use xray_e2e_prober.Base.{
  ℕ, suc, ◌+◌, ◌≤◌, String, ◌≡◌, refl, sym, ap, ◌∙◌, subst, Bool, true, false, not, ◌&&◌, Option,
  none, some, List, [], ◌∷◌, map, count, if◌then◌else◌, nat_eq, string_eq, option_eq, pair_eq,
  member, length, Bool-cases, inl, inr, beq_refl, ok, reject, >>=-eq-ok, arith,
}
use xray_e2e_prober.RuntimePool.Backoff.{RuntimePool, not_ready, not_current, clear_backoffs}
use xray_e2e_prober.RuntimePool.Slots
use xray_e2e_prober.RuntimePool.Slots.{
  Key, key_of, Check, Persistent, Pool, open_pool, find, locked_keys, is_locked, is_obsolete, Step,
  requests, takes_slot, abandons, fails_start, releases, succeeds, finishes, uses, retires, desires,
  reviews, forgets, begins_close, closes_key, ends_close, Reach, here, next,
}
use xray_e2e_prober.RuntimePool.Accounts.{times}
use xray_e2e_prober.RuntimePool.Balance.{
  keys_of, has_slot, slots_used, IsBalanced, take_slot-IsBalanced, abandon-IsBalanced,
  fail_start-IsBalanced, release-IsBalanced, finish_fresh-IsBalanced, request-IsBalanced,
}
use xray_e2e_prober.RuntimePool.Conserved.{
  succeed-IsBalanced, remove_locked-IsBalanced, review-IsBalanced, retire_current-IsBalanced,
  remove_if-listed,
}

not_member_nil : (k : Key) → ¬ (member k [] ≡ true)
not_member_nil k h = cc (h)

nothing_listed : (ks : List Key) → ((k : Key) → member k ks ≡ true → ⊥) → ks ≡ []
nothing_listed [] h = refl
nothing_listed (k ∷ ks) h = absurd (h k (rw (beq_refl k) refl))

length-map : (m : List (Key × Persistent)) → length (map (λ item. item.0) m) ≡ length m
length-map [] = refl
length-map (item ∷ m) = ap suc (length-map m)

done_nil : (ks : List Key) → Slots.is_done ks ≡ true → ks ≡ []
done_nil [] h = refl
done_nil (k ∷ ks) h = cc (h)

module _ (limit : ℕ) {s : Pool} (v : IsBalanced limit s) where
  use_current-IsBalanced :
      {t : Pool} (c : Check) (alive : Bool) (now : ℕ)
      → Slots.use_current c alive now s ≡ ok t
      → IsBalanced limit t
  unfolding Slots.use_current
  use_current-IsBalanced c alive now e =
      let (_, _, e1) = >>=-eq-ok (reject (is_locked (key_of c.profile) s) not_ready) _ e in
      let (_, _, e2) = >>=-eq-ok (reject (is_obsolete c.profile s) not_current) _ e1 in
      subst (IsBalanced limit) (ground (arith, e2)) (
        review-IsBalanced limit v (key_of c.profile) (some c.profile.generation) alive now
          (find (key_of c.profile) s.persistent) refl)

  retire-IsBalanced :
      {t : Pool} (k : Key) (runtime : ℕ) (dead : Bool) (now : ℕ)
      → Slots.retire k runtime dead now s ≡ ok t
      → IsBalanced limit t
  unfolding Slots.retire
  retire-IsBalanced k runtime dead now e =
      let (_, _, e1) = >>=-eq-ok (reject (is_locked k s) not_ready) _ e in
      subst (IsBalanced limit) (ground (arith, e1))
        (retire_current-IsBalanced limit v k runtime dead now (find k s.persistent) refl)

  review_key-IsBalanced :
      {t : Pool} (k : Key) (desired : List (Key × String)) (alive : Bool) (now : ℕ)
      → Slots.review_key k desired alive now s ≡ ok t
      → IsBalanced limit t
  unfolding Slots.review_key
  review_key-IsBalanced k desired alive now e =
      let (_, _, e1) = >>=-eq-ok (reject (is_locked k s) not_ready) _ e in
      subst (IsBalanced limit) (ground (arith, e1))
        (review-IsBalanced limit v k (find k desired) alive now (find k s.persistent) refl)

  remove_if-IsBalanced :
      (k : Key) (now : ℕ) (o : Option Persistent)
      → find k s.persistent ≡ o
      → IsBalanced limit (Slots.remove_if k now o s)
  remove_if-IsBalanced k now none h = v
  remove_if-IsBalanced k now (some current) h =
      remove_locked-IsBalanced limit v k current false now h

  closed_same :
      (k : Key) (now : ℕ) (o : Option Persistent) → (Slots.remove_if k now o s).closed ≡ s.closed
  unfolding Slots.remove_locked
  closed_same k now none = refl
  closed_same k now (some current) = refl

  close_first-IsBalanced :
      {t : Pool} (keys : List Key) (now : ℕ)
      → s.closing ≡ keys
      → Slots.close_first keys now s ≡ ok t
      → IsBalanced limit t
  close_first-IsBalanced {t} [] now closing e = cc (e)
  close_first-IsBalanced {t} (k ∷ ks) now closing e =
      let (_, _, e1) = >>=-eq-ok (reject (is_locked k s) not_ready) _ e in
      let o = find k s.persistent in
      let w = remove_if-IsBalanced k now o refl in
      let same : record (Slots.remove_if k now o s) { closing = ks } ≡ t = ground (arith, e1) in
      subst (IsBalanced limit) same record {
        slots = w.slots;
        apart = w.apart;
        listed = λ closed i there.
            remove_if-listed limit v k ks o now closing refl (sym (closed_same k now o) ∙ closed) i
              there;
      }

  begin_close-IsBalanced : IsBalanced limit (Slots.begin_close s)
  unfolding Slots.begin_close
  begin_close-IsBalanced =
      let shut : Pool = record s { closed = true; desired = some []; closing = keys_of s } in
      elim (Bool-cases s.closed) [
        | inl old ↦ subst (λ b. IsBalanced limit (if b then s else shut)) (sym old) v
        | inr new ↦
            subst (λ b. IsBalanced limit (if b then s else shut)) (sym new)
              record { slots = v.slots; apart = v.apart; listed = λ closed k there. there }
      ]

  all_closed : s.closed ≡ true → s.closing ≡ [] → keys_of s ≡ []
  all_closed closed done =
      nothing_listed (keys_of s) λ k there.
        not_member_nil k (subst (λ ks. member k ks ≡ true) done (v.listed closed k there))

  end_close-IsBalanced : {t : Pool} → Slots.end_close s ≡ ok t → IsBalanced limit t
  unfolding Slots.end_close
  end_close-IsBalanced {t} e =
      let (_, done, e1) =
        >>=-eq-ok (reject (not (s.closed && Slots.is_done s.closing)) not_ready) _ e in
      let same : record s { persistent = []; backoffs = clear_backoffs s.backoffs } ≡ t =
        ground (arith, e1) in
      let gone = all_closed (ground (arith, done)) (done_nil s.closing (ground (arith, done))) in
      subst (IsBalanced limit) same record {
        slots = omega (arith, v.slots, ap length gone, length-map s.persistent);
        apart = λ k. omega (arith, v.apart k);
        listed = λ closed k there. absurd (not_member_nil k there);
      }

Step-IsBalanced : {limit : ℕ} {s t : Pool} → Step s t → IsBalanced limit s → IsBalanced limit t
unfolding Slots.set_desired Slots.forget_backoffs Slots.close_key
Step-IsBalanced {limit} (requests task c now e) v = request-IsBalanced limit v task c now e
Step-IsBalanced {limit} (takes_slot task e) v = take_slot-IsBalanced limit v task e
Step-IsBalanced {limit} (abandons task e) v = abandon-IsBalanced limit v task e
Step-IsBalanced {limit} (fails_start task is_exception now e) v =
    fail_start-IsBalanced limit v task is_exception now e
Step-IsBalanced {limit} (releases task e) v = release-IsBalanced limit v task e
Step-IsBalanced {limit} (succeeds task runtime now e) v =
    succeed-IsBalanced limit v task runtime now e
Step-IsBalanced {limit} (finishes task e) v = finish_fresh-IsBalanced limit v task e
Step-IsBalanced {limit} (uses c alive now e) v = use_current-IsBalanced limit v c alive now e
Step-IsBalanced {limit} (retires k runtime dead now e) v =
    retire-IsBalanced limit v k runtime dead now e
Step-IsBalanced {limit} (desires desired) v = record {
  slots = v.slots;
  apart = v.apart;
  listed = v.listed;
}
Step-IsBalanced {limit} (reviews k desired alive now e) v =
    review_key-IsBalanced limit v k desired alive now e
Step-IsBalanced {limit} (forgets effective_keys) v = record {
  slots = v.slots;
  apart = v.apart;
  listed = v.listed;
}
Step-IsBalanced {limit} begins_close v = begin_close-IsBalanced limit v
Step-IsBalanced {limit} {s} (closes_key now e) v =
    close_first-IsBalanced limit v s.closing now refl e
Step-IsBalanced {limit} (ends_close e) v = end_close-IsBalanced limit v e

Reach-IsBalanced : {limit : ℕ} {s t : Pool} → Reach s t → IsBalanced limit s → IsBalanced limit t
Reach-IsBalanced here v = v
Reach-IsBalanced (next r st) v = Step-IsBalanced st (Reach-IsBalanced r v)

open_pool-IsBalanced : (backoffs : RuntimePool) → IsBalanced backoffs.limit (open_pool backoffs)
unfolding locked_keys
open_pool-IsBalanced backoffs = record {
  slots = omega arith;
  apart = λ k. omega arith;
  listed = λ closed k there. absurd (not_member_nil k there);
}

-- In every state that the tasks of a new pool can reach, in any order: the free slots and those that
-- runtimes have are as many as the limit, and no key has two published runtimes, or a published one
-- while another start holds its lock.
pub Reach-slots :
    (backoffs : RuntimePool) (s : Pool) (k : Key)
    → Reach (open_pool backoffs) s
    → (s.slots + slots_used s ≡ backoffs.limit)
      × (times k (locked_keys s.starts) + times k (keys_of s) ≤ 1)
Reach-slots backoffs s k r =
    let v = Reach-IsBalanced r (open_pool-IsBalanced backoffs) in (v.slots, v.apart k)

-- In every state that the tasks of a new pool can reach: once the pool is closed and every key that had
-- a runtime then has been gone through, no runtime is published, whatever starts ended in between, and
-- the slots that are not free are those of starts and of fresh runtimes.
pub closed_pool_empty :
    (backoffs : RuntimePool) (s : Pool)
    → Reach (open_pool backoffs) s
    → s.closed ≡ true
    → s.closing ≡ []
    → (keys_of s ≡ []) × (s.slots + count has_slot s.starts + length s.fresh ≡ backoffs.limit)
closed_pool_empty backoffs s r closed done =
    let v = Reach-IsBalanced r (open_pool-IsBalanced backoffs) in
    let gone = all_closed backoffs.limit v closed done in
    (gone, omega (arith, v.slots, ap length gone, length-map s.persistent))
