-- ===== src/Base/Lists.antt =====
-- Lists measured by native numbers, Boolean membership, and filters by a Boolean test.
use Prim.Native.Nat.{ℕ, suc, ◌+◌, ◌≤◌}
use mathlib.Core.Path.{◌≡◌, refl}
use mathlib.Core.Logic.{◌↔◌, inl, inr}
use mathlib.Core.Bool.{Bool, true, false, ◌&&◌, ◌||◌}
use mathlib.Core.List.{map, List, [], ◌∷◌, ◌++◌}
use native.Mathlib.Omega.{arith}
use xray_e2e_prober.Base.Tests.{beq_refl, beq_comm, Eq, ◌==◌, if◌then◌else◌, Bool-cases, beq→eq}

module _ {ℓ} {A : Type ℓ} where
  abbrev pub length : List A → ℕ
  length [] = 0
  length (x ∷ xs) = suc (length xs)

  pub length-append : (xs ys : List A) → length (xs ++ ys) ≡ length xs + length ys
  length-append [] ys = omega arith
  length-append (x ∷ xs) ys = omega (arith, length-append xs ys)

  -- The items that pass the test, in order.
  abbrev pub keep : (A → Bool) → List A → List A
  keep p [] = []
  keep p (x ∷ xs) = let rest = keep p xs in if p x then x ∷ rest else rest

  -- Whether some item passes, whether every item does.
  abbrev pub any : (A → Bool) → List A → Bool
  any p [] = false
  any p (x ∷ xs) = p x || any p xs

  abbrev pub all : (A → Bool) → List A → Bool
  all p [] = true
  all p (x ∷ xs) = p x && all p xs

  abbrev pub count : (A → Bool) → List A → ℕ
  count p [] = 0
  count p (x ∷ xs) = if p x then suc (count p xs) else count p xs

  abbrev pub All {κ} : (A → Type κ) → List A → Type κ
  All P [] = Unit
  All P (x ∷ xs) = P x × All P xs

  pub count-le-length : (p : A → Bool) (xs : List A) → count p xs ≤ length xs
  count-le-length p [] = omega arith
  count-le-length p (x ∷ xs) = ground (arith, count-le-length p xs)

  pub All-append {κ} : (P : A → Type κ) (xs ys : List A) → All P xs → All P ys → All P (xs ++ ys)
  All-append P [] ys hx hy = hy
  All-append P (x ∷ xs) ys hx hy = (hx.0, All-append P xs ys hx.1 hy)

  pub map_All {κ μ} :
      (P : A → Type κ) (Q : A → Type μ) (xs : List A) → ((x : A) → P x → Q x) → All P xs → All Q xs
  map_All P Q [] f all = tt
  map_All P Q (x ∷ xs) f all = (f x all.0, map_All P Q xs f all.1)

  pub both_All {κ μ} :
      (P : A → Type κ) (Q : A → Type μ) (xs : List A)
      → All P xs
      → All Q xs
      → All (λ x. P x × Q x) xs
  both_All P Q [] ps qs = tt
  both_All P Q (x ∷ xs) ps qs = ((ps.0, qs.0), both_All P Q xs ps.1 qs.1)

  pub all-All : (p : A → Bool) (xs : List A) → (all p xs ≡ true) ↔ All (λ x. p x ≡ true) xs
  all-All p [] = (λ h. tt, λ h. refl)
  all-All p (x ∷ xs) = (
    λ h. (ground (arith, h), (all-All p xs).0 (ground (arith, h))),
    λ h. ground (arith, h.0, (all-All p xs).1 h.1),
  )

  -- Nothing passes exactly if everything fails.
  pub any-All : (p : A → Bool) (xs : List A) → (any p xs ≡ false) ↔ All (λ x. p x ≡ false) xs
  any-All p [] = (λ h. tt, λ h. refl)
  any-All p (x ∷ xs) = (
    λ h. (ground (arith, h), (any-All p xs).0 (ground (arith, h))),
    λ h. ground (arith, h.0, (any-All p xs).1 h.1),
  )

  pub any-append : (p : A → Bool) (xs ys : List A) → any p (xs ++ ys) ≡ (any p xs || any p ys)
  any-append p [] ys = refl
  any-append p (x ∷ xs) ys = ground (arith, any-append p xs ys)

module _ {ℓ} {A : Type ℓ} ⦃e : Eq A⦄ where
  -- `a in xs`
  abbrev pub member : A → List A → Bool
  member a [] = false
  member a (x ∷ xs) = x == a || member a xs

  -- No item stands twice.
  abbrev pub unique : List A → Bool
  unique [] = true
  unique (x ∷ xs) = if member x xs then false else unique xs

  -- A Python set as a list: `add`, `discard`.
  unfoldable pub add : A → List A → List A
  add a xs = if member a xs then xs else a ∷ xs

  unfoldable pub discard : A → List A → List A
  discard a [] = []
  discard a (x ∷ xs) = let rest = discard a xs in if x == a then rest else x ∷ rest

  pub member-append : (a : A) (xs ys : List A) → member a (xs ++ ys) ≡ (member a xs || member a ys)
  member-append a [] ys = refl
  member-append a (x ∷ xs) ys = ground (arith, member-append a xs ys)

  pub member-add : (a b : A) (xs : List A) → member b (add a xs) ≡ (a == b || member b xs)
  unfolding add
  member-add a b xs = elim (Bool-cases (member a xs)) [
    | inl old ↦ elim (Bool-cases (a == b)) [
      | inl same ↦ rw (old, same) (rw (beq→eq a b same) at old)
      | inr other ↦ rw (old, other)
    ]
    | inr new ↦ rw new
  ]

  pub member-discard :
      (a b : A) (xs : List A) → member b (discard a xs) ≡ (if a == b then false else member b xs)
  unfolding discard
  member-discard a b [] = ground arith
  member-discard a b (x ∷ xs) =
      ground (arith, member-discard a b xs, e.beq_iff x a, e.beq_iff x b, e.beq_iff a b)

-- The image of every item stands in the list of the images.
pub members_map {ℓ} :
    {A : Type ℓ} {B : Type 0} ⦃e : Eq B⦄ (f : A → B) (xs : List A)
    → All (λ x. member (f x) (map f xs) ≡ true) xs
members_map f [] = tt
members_map f (x ∷ xs) = (
  ground (arith, beq_refl (f x)),
  map_All (λ y. member (f y) (map f xs) ≡ true) _ xs (λ y h. ground (arith, h)) (members_map f xs),
)

-- Where a value is no image, it differs from the image of every item.
pub differs_map {ℓ κ} :
    {A : Type ℓ} {B : Type 0} ⦃e : Eq B⦄ (Q : A → Type κ) (f : A → B) (b : B) (xs : List A)
    → member b (map f xs) ≡ false
    → All Q xs
    → All (λ x. ((b == f x) ≡ false) × Q x) xs
differs_map Q f b [] absent qs = tt
differs_map Q f b (x ∷ xs) absent qs = (
  (ground (arith, absent, beq_comm b (f x)), qs.0),
  differs_map Q f b xs (ground (arith, absent)) qs.1,
)
