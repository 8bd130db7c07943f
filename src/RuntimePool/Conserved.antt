-- ===== src/RuntimePool/Conserved.antt =====
-- What is published, removed and closed keeps the slots in balance.
use xray_e2e_prober.Base.{
  ℕ, String, ◌≡◌, refl, sym, subst, Bool, true, false, not, Option, none, some, List, ◌∷◌, map,
  ◌==◌, nat_eq, string_eq, option_eq, pair_eq, member, Bool-cases, inl, inr, beq→eq, beq_refl, ok,
  arith,
}
use xray_e2e_prober.RuntimePool.Slots
use xray_e2e_prober.RuntimePool.Slots.{
  Key, key_of, Check, Persistent, Phase, waiting, starting, discarding, Start, Pool, find, pop,
  locked_keys, is_locked, is_obsolete, take_start, is_waiting_start, is_starting, place,
}
use xray_e2e_prober.RuntimePool.Accounts.{
  times_some, find-times, length-pop, times-pop, member-pop, take_start-count, take_start-times,
}
use xray_e2e_prober.RuntimePool.Balance.{keys_of, has_slot, IsBalanced, start_step}

module _ (limit : ℕ) {s : Pool} (v : IsBalanced limit s) where
  pub place-IsBalanced :
      (task runtime now : ℕ) (st : Start) (rest : List Start)
      → take_start task s.starts ≡ some (st, rest)
      → not (is_starting st.phase) ≡ false
      → IsBalanced limit (place runtime now st rest s)
  unfolding locked_keys
  place-IsBalanced task runtime now st rest h fine =
      let held = slot_of st.phase fine in
      let counted = take_start-count has_slot task s.starts h in
      elim (Bool-cases st.check.is_persistent) [
        | inr fresh ↦ rw fresh record {
          slots = ground (arith, v.slots, held, counted);
          apart = λ k. ground (arith, fresh, v.apart k, take_start-times k task s.starts h);
          listed = v.listed;
        }
        | inl kept ↦ elim (Bool-cases (is_obsolete st.check.profile s)) [
          | inl old ↦
              rw (kept, old)
                record {
                  slots = ground (arith, v.slots, held, counted);
                  apart = λ k. ground (arith, kept, v.apart k, take_start-times k task s.starts h);
                  listed = v.listed;
                }
          | inr wanted ↦
              rw (kept, wanted)
                record {
                  slots = ground (arith, v.slots, held, counted);
                  apart = λ k. ground (arith, kept, v.apart k, take_start-times k task s.starts h);
                  listed = λ closed k h. absurd (ground_closed wanted closed);
                }
        ]
      ]
    where
      slot_of : (p : Phase) → not (is_starting p) ≡ false → is_waiting_start p ≡ false
      slot_of waiting e = cc (e)
      slot_of starting e = refl
      slot_of discarding e = refl

      ground_closed : is_obsolete st.check.profile s ≡ false → s.closed ≡ true → ⊥
      ground_closed wanted closed = cc (rw closed at wanted)

  pub succeed-IsBalanced :
      {t : Pool} (task runtime now : ℕ)
      → Slots.succeed task runtime now s ≡ ok t
      → IsBalanced limit t
  unfolding Slots.succeed
  succeed-IsBalanced task runtime now e =
      let (found, h, fine, same) =
        start_step task s.starts (λ st. not (is_starting st.phase))
          (λ found. place runtime now found.0 found.1 s) e in
      subst (IsBalanced limit) same (place-IsBalanced task runtime now found.0 found.1 h fine)

  pub remove_locked-IsBalanced :
      (k : Key) (current : Persistent) (unexpected : Bool) (now : ℕ)
      → find k s.persistent ≡ some current
      → IsBalanced limit (Slots.remove_locked k current unexpected now s)
  unfolding Slots.remove_locked
  remove_locked-IsBalanced k current unexpected now there = record {
    slots = omega (arith, v.slots, length-pop k s.persistent there);
    apart = λ i. ground (arith, v.apart i, times-pop k i s.persistent there);
    listed = λ closed i h. v.listed closed i (member-pop k i s.persistent h);
  }

  reset_stable-IsBalanced :
      (k : Key) (current : Persistent) (now : ℕ)
      → IsBalanced limit (Slots.reset_stable k current now s)
  unfolding Slots.reset_stable
  reset_stable-IsBalanced k current now = record {
    slots = v.slots;
    apart = v.apart;
    listed = v.listed;
  }

  pub review-IsBalanced :
      (k : Key) (generation : Option String) (alive : Bool) (now : ℕ) (o : Option Persistent)
      → find k s.persistent ≡ o
      → IsBalanced limit (Slots.review k generation alive now o s)
  review-IsBalanced k generation alive now none h = v
  review-IsBalanced k generation alive now (some current) h =
      elim (Bool-cases (Slots.serves current generation alive)) [
        | inl stays ↦ rw stays (reset_stable-IsBalanced k current now)
        | inr goes ↦ rw goes (remove_locked-IsBalanced k current _ now h)
      ]

  pub retire_current-IsBalanced :
      (k : Key) (runtime : ℕ) (dead : Bool) (now : ℕ) (o : Option Persistent)
      → find k s.persistent ≡ o
      → IsBalanced limit (Slots.retire_current k runtime dead now o s)
  retire_current-IsBalanced k runtime dead now none h = v
  retire_current-IsBalanced k runtime true now (some current) h =
      elim (Bool-cases (not (current.runtime == runtime))) [
        | inl other ↦ rw other v
        | inr same ↦ rw same (remove_locked-IsBalanced k current true now h)
      ]
  retire_current-IsBalanced k runtime false now (some current) h =
      elim (Bool-cases (not (current.runtime == runtime))) [
        | inl other ↦ rw other v
        | inr same ↦ rw same (reset_stable-IsBalanced k current now)
      ]

  -- A key whose runtime was removed is gone.
  gone_after :
      (k : Key) (o : Option Persistent) (now : ℕ)
      → find k s.persistent ≡ o
      → member k (keys_of (Slots.remove_if k now o s)) ≡ true
      → ⊥
  unfolding Slots.remove_locked
  gone_after k none now h there =
      omega (arith, find-times k s.persistent h, times_some k (keys_of s) there)
  gone_after k (some current) now h there =
      let apart = v.apart k in
      let popped = times-pop k k s.persistent h in
      let some_left = times_some k (map (λ item. item.0) (pop k s.persistent)) there in
      let self = beq_refl k in ground (arith, apart, popped, some_left, self)

  pub remove_if-listed :
      (k : Key) (ks : List Key) (o : Option Persistent) (now : ℕ)
      → s.closing ≡ k ∷ ks
      → find k s.persistent ≡ o
      → s.closed ≡ true
      → (i : Key) → member i (keys_of (Slots.remove_if k now o s)) ≡ true
      → member i ks ≡ true
  remove_if-listed k ks o now closing h closed i there = elim (Bool-cases (k == i)) [
    | inl same ↦ absurd (
        gone_after k o now h (
          subst (λ x. member x (keys_of (Slots.remove_if k now o s)) ≡ true) (sym (beq→eq k i same))
            there))
    | inr other ↦ let m = v.listed closed i (was_there o there) in rw (closing, other) at m
  ]
    where
      was_there :
          (o : Option Persistent)
          → member i (keys_of (Slots.remove_if k now o s)) ≡ true
          → member i (keys_of s) ≡ true
      was_there none m = m
      was_there (some current) m = member-pop k i s.persistent (unfold Slots.remove_locked in m)
