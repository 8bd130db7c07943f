-- ===== src/Identity/Groups.antt =====
-- What grouping by a key keeps of the items, and dictionaries whose values stand once.
use mathlib.Core.List.{map}
use xray_e2e_prober.Base.{
  String, ◌≡◌, refl, ap, ◌∙◌, true, false, ◌||◌, Option, none, some, List, [], ◌∷◌, ◌++◌, All,
  All-append, if◌then◌else◌, Eq, ◌==◌, string_eq, beq→eq, beq_comm, subst, values, member,
  member-append, unique, Dict, insert, Bool-cases, inl, inr, eq_iff, arith,
}
use xray_e2e_prober.Identity.Registry.{append_to, append_if, group_by, group_of}

module _ {A : Type 0} ⦃e : Eq A⦄ where
  -- One more item at the end, unless it is there.
  abbrev pub with_last : A → List A → List A
  with_last a xs = if member a xs then xs else xs ++ a ∷ []

  unique-last :
      (xs : List A) (a : A) → unique xs ≡ true → member a xs ≡ false → unique (xs ++ a ∷ []) ≡ true
  unique-last [] a u h = refl
  unique-last (x ∷ xs) a u h =
      let apart : (x == a) ≡ false = ground (arith, h) in
      let more = unique-last xs a (ground (arith, u)) (ground (arith, h)) in
      ground (arith, member-append x xs (a ∷ []), more, u, apart, beq_comm a x)

  pub unique-with_last : (a : A) (xs : List A) → unique xs ≡ true → unique (with_last a xs) ≡ true
  unique-with_last a xs u = elim (Bool-cases (member a xs)) [
    | inl old ↦ rw old u
    | inr new ↦ rw new (unique-last xs a u new)
  ]

module _ {K A : Type 0} ⦃e : Eq K⦄ where
  group_of-append_to :
      (j k : K) (a : A) (groups : List (K × List A))
      → group_of j (append_to k a groups)
        ≡ (if k == j then group_of k groups ++ a ∷ [] else group_of j groups)
  unfolding group_of append_to
  group_of-append_to j k a [] = refl
  group_of-append_to j k a ((i, xs) ∷ groups) =
      ground (arith, e.beq_iff i k, e.beq_iff i j, e.beq_iff k j, group_of-append_to j k a groups)

  keys-append_to :
      (k : K) (a : A) (groups : List (K × List A))
      → map (λ g. g.0) (append_to k a groups) ≡ with_last k (map (λ g. g.0) groups)
  unfolding append_to
  keys-append_to k a [] = refl
  keys-append_to k a ((i, xs) ∷ groups) = ground (arith, e.beq_iff i k, keys-append_to k a groups)

  -- Every item of a group has its key and what all items have.
  abbrev pub Grouped : (A → Option K) → (A → Type 0) → List (K × List A) → Type 0
  Grouped key P groups = (k : K) → All (λ a. (key a ≡ some k) × P a) (group_of k groups)

  append_to-Grouped :
      (key : A → Option K) (P : A → Type 0) (k : K) (a : A) (groups : List (K × List A))
      → key a ≡ some k
      → P a
      → Grouped key P groups
      → Grouped key P (append_to k a groups)
  append_to-Grouped key P k a groups at p all j = elim (Bool-cases (k == j)) [
    | inl same ↦
        rw (group_of-append_to j k a groups, same)
          (All-append (λ x. (key x ≡ some j) × P x) (group_of k groups) (a ∷ [])
            (subst (λ i. All (λ x. (key x ≡ some i) × P x) (group_of k groups)) (beq→eq k j same)
              (all k))
            ((at ∙ ap some (beq→eq k j same), p), tt))
    | inr other ↦ rw (group_of-append_to j k a groups, other) (all j)
  ]

  append_if-Grouped :
      (key : A → Option K) (P : A → Type 0) (o : Option K) (a : A) (groups : List (K × List A))
      → key a ≡ o
      → P a
      → Grouped key P groups
      → Grouped key P (append_if o a groups)
  append_if-Grouped key P none a groups at p all = all
  append_if-Grouped key P (some k) a groups at p all = append_to-Grouped key P k a groups at p all

  pub group_by-Grouped :
      (key : A → Option K) (P : A → Type 0) (items : List A) (groups : List (K × List A))
      → All P items
      → Grouped key P groups
      → Grouped key P (group_by key groups items)
  unfolding group_by
  group_by-Grouped key P [] groups ps all = all
  group_by-Grouped key P (a ∷ items) groups ps all =
      group_by-Grouped key P items _ ps.1 (append_if-Grouped key P (key a) a groups refl ps.0 all)

  append_if-unique :
      (o : Option K) (a : A) (groups : List (K × List A))
      → unique (map (λ g. g.0) groups) ≡ true
      → unique (map (λ g. g.0) (append_if o a groups)) ≡ true
  append_if-unique none a groups u = u
  append_if-unique (some k) a groups u =
      rw (keys-append_to k a groups) (unique-with_last k (map (λ g. g.0) groups) u)

  -- No key has two groups.
  pub group_by-unique :
      (key : A → Option K) (items : List A) (groups : List (K × List A))
      → unique (map (λ g. g.0) groups) ≡ true
      → unique (map (λ g. g.0) (group_by key groups items)) ≡ true
  unfolding group_by
  group_by-unique key [] groups u = u
  group_by-unique key (a ∷ items) groups u =
      group_by-unique key items _ (append_if-unique (key a) a groups u)

-- Setting an entry of a dictionary brings in no other value.
pub values-insert :
    (k v w : String) (m : Dict String)
    → member w (values (insert k v m)) ≡ true
    → (v == w || member w (values m)) ≡ true
unfolding insert
values-insert k v w [] h = h
values-insert k v w ((j, x) ∷ m) h = ground (arith, h, values-insert k v w m)

pub unique-values-insert :
    (k v : String) (m : Dict String)
    → unique (values m) ≡ true
    → member v (values m) ≡ false
    → unique (values (insert k v m)) ≡ true
unfolding insert
unique-values-insert k v [] u new = refl
unique-values-insert k v ((j, x) ∷ m) u new = elim (Bool-cases (j == k)) [
  | inl same ↦ rw same (ground (arith, u, new))
  | inr other ↦
      let more = unique-values-insert k v m (ground (arith, u)) (ground (arith, new)) in
      let brought = values-insert k v x m in
      rw other (ground (arith, u, new, more, brought, eq_iff v x, eq_iff x v))
]
