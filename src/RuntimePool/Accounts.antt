-- ===== src/RuntimePool/Accounts.antt =====
-- Taking an element out of the lists of the pool, and how often keys stand in them.
use xray_e2e_prober.Base.{
  ℕ, suc, ◌+◌, ◌≤◌, ◌≡◌, refl, ap, Bool, true, false, ◌&&◌, Option, none, some, List, [], ◌∷◌, map,
  count, if◌then◌else◌, Eq, ◌==◌, nat_eq, string_eq, option_eq, pair_eq, member, length, Bool-cases,
  Option-cases, is_some, inl, inr, ◌⊎◌, beq→eq, arith,
}
use xray_e2e_prober.RuntimePool.Slots.{
  Key, Start, find, pop, locked_keys, put_back, take_start, take_task,
}

module _ {K : Type 0} ⦃e : Eq K⦄ where
  -- How often a key stands in a list.
  abbrev pub times : K → List K → ℕ
  times k ks = count (λ j. j == k) ks

  pub times_none : (k : K) (ks : List K) → member k ks ≡ false → times k ks ≡ 0
  times_none k [] h = refl
  times_none k (j ∷ ks) h = ground (arith, times_none k ks, h)

  pub times_some : (k : K) (ks : List K) → member k ks ≡ true → 1 ≤ times k ks
  times_some k [] h = cc (h)
  times_some k (j ∷ ks) h = ground (arith, times_some k ks, h)

module _ {K V : Type 0} ⦃e : Eq K⦄ where
  pub find-times :
      (k : K) (m : List (K × V)) → find k m ≡ none → times k (map (λ item. item.0) m) ≡ 0
  unfolding find
  find-times k [] h = refl
  find-times k ((j, v) ∷ m) h = ground (arith, find-times k m, h)

  -- A key that is found is taken out once.
  pub length-pop :
      (k : K) (m : List (K × V)) {v : V} → find k m ≡ some v → length m ≡ suc (length (pop k m))
  unfolding find pop
  length-pop k [] h = cc (h)
  length-pop k ((j, v) ∷ m) h = elim (Bool-cases (j == k)) [
    | inl same ↦ rw same refl
    | inr other ↦ rw other (ap suc (length-pop k m (rw other at h)))
  ]

  pub times-pop :
      (k i : K) (m : List (K × V)) {v : V}
      → find k m ≡ some v
      → times i (map (λ item. item.0) m) ≡ times i (k ∷ map (λ item. item.0) (pop k m))
  unfolding find pop
  times-pop k i [] h = cc (h)
  times-pop k i ((j, v) ∷ m) h = elim (Bool-cases (j == k)) [
    | inl same ↦ rw same (rw (beq→eq j k same) refl)
    | inr other ↦ let more = times-pop k i m (rw other at h) in rw other (ground (arith, more))
  ]

  pub member-pop :
      (k i : K) (m : List (K × V))
      → member i (map (λ item. item.0) (pop k m)) ≡ true
      → member i (map (λ item. item.0) m) ≡ true
  unfolding pop
  member-pop k i [] h = h
  member-pop k i ((j, v) ∷ m) h = ground (arith, h, member-pop k i m)

-- A key that is neither held nor there may be taken.
pub times_taken :
    {V : Type 0} (b : Bool) (new k : Key) (held : List Key) (m : List (Key × V))
    → (b && member new held) ≡ false
    → (b && is_some (find new m)) ≡ false
    → times k held + times k (map (λ item. item.0) m) ≤ 1
    → times k (if b then new ∷ held else held) + times k (map (λ item. item.0) m) ≤ 1
times_taken false new k held m free absent le = le
times_taken true new k held m free absent le = elim (Bool-cases (new == k)) [
  | inr other ↦ rw other le
  | inl same ↦ elim (Option-cases (find new m)) [
    | inr (v, there) ↦ cc (rw there at absent)
    | inl none_there ↦
        let at : new ≡ k = beq→eq new k same in
        let held_not : times k held ≡ 0 = times_none k held (rw (← at) free) in
        let there_not : times k (map (λ item. item.0) m) ≡ 0 =
          find-times k m (rw (← at) none_there) in
        rw same (omega (arith, held_not, there_not))
  ]
]

put_back-some :
    (st : Start) (o : Option (Start × List Start)) {found : Start × List Start}
    → put_back st o ≡ some found
    → (before : Start × List Start) × (o ≡ some before) × (found ≡ (before.0, st ∷ before.1))
put_back-some st none h = cc (h)
put_back-some st (some before) h = (before, refl, ground (arith, h))

-- The start of a task is the first one, or stands among the others.
take_start_cases :
    (task : ℕ) (st : Start) (starts : List Start) {found : Start × List Start}
    → take_start task (st ∷ starts) ≡ some found
    → (found ≡ (st, starts))
      ⊎ ((before : Start × List Start) × (take_start task starts ≡ some before)
          × (found ≡ (before.0, st ∷ before.1)))
unfolding take_start
take_start_cases task st starts h = elim (Bool-cases (st.task == task)) [
  | inl same ↦ let e = rw same at h in inl (ground (arith, e))
  | inr other ↦ inr (put_back-some st (take_start task starts) (rw other at h))
]

no_start : (task : ℕ) {found : Start × List Start} → ¬ (take_start task [] ≡ some found)
unfolding take_start
no_start task h = cc (h)

pub take_start-count :
    (p : Start → Bool) (task : ℕ) (starts : List Start) {found : Start × List Start}
    → take_start task starts ≡ some found
    → count p starts ≡ count p (found.0 ∷ found.1)
take_start-count p task [] h = absurd (no_start task h)
take_start-count p task (st ∷ starts) {found} h = elim (take_start_cases task st starts h) [
  | inl first ↦ rw first refl
  | inr (before, taken, later) ↦
      let more = take_start-count p task starts taken in rw later (ground (arith, more))
]

pub take_start-times :
    (k : Key) (task : ℕ) (starts : List Start) {found : Start × List Start}
    → take_start task starts ≡ some found
    → times k (locked_keys starts) ≡ times k (locked_keys (found.0 ∷ found.1))
unfolding locked_keys
take_start-times k task [] h = absurd (no_start task h)
take_start-times k task (st ∷ starts) {found} h = elim (take_start_cases task st starts h) [
  | inl first ↦ rw first refl
  | inr (before, taken, later) ↦
      let more = take_start-times k task starts taken in rw later (ground (arith, more))
]

pub length-take_task :
    (task : ℕ) (tasks : List ℕ) {rest : List ℕ}
    → take_task task tasks ≡ some rest
    → length tasks ≡ suc (length rest)
unfolding take_task
length-take_task task [] h = cc (h)
length-take_task task (t ∷ tasks) h = elim (Bool-cases (t == task)) [
  | inl same ↦ let e = rw same at h in ground (arith, e)
  | inr other ↦ elim (Option-cases (take_task task tasks)) [
    | inl absent ↦ cc (rw (other, absent) at h)
    | inr (shorter, found) ↦
        let more = length-take_task task tasks found in
        let e = rw (other, found) at h in ground (arith, more, e)
  ]
]
