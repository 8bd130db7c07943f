-- ===== src/Base/Tests.antt =====
-- Boolean tests on numbers, texts and options, and the conditional.
use Prim.Native.Nat.{ℕ, ◌≤◌, ◌<◌, compare, Ordering}
use Prim.Native.String.{String}
use mathlib.Core.Path.{◌≡◌, refl, ap}
use mathlib.Core.Logic.{◌↔◌, ◌⊎◌, inl, inr}
use mathlib.Core.Bool.{Bool, true, false, ◌&&◌}
use mathlib.Core.Option.{Option, none, some}
use native.Mathlib.Omega.{arith}
use text.Mathlib.Text.{◌==◌ as str_eq}
use text.Mathlib.TextEquality.{eq_iff}

abbrev pub ltb : ℕ → ℕ → Bool
ltb a b = elim (compare a b) [ Ordering.lt ↦ true | _ ↦ false ]

abbrev pub leb : ℕ → ℕ → Bool
leb a b = elim (compare a b) [ Ordering.gt ↦ false | _ ↦ true ]

abbrev nat_beq : ℕ → ℕ → Bool
nat_beq a b = elim (compare a b) [ Ordering.eq ↦ true | _ ↦ false ]

infix 1 if◌then◌else◌
abbrev pub if◌then◌else◌ {ℓ} : {A : Type ℓ} → Bool → A → A → A
if true then x else y = x
if false then x else y = y

pub ltb→lt : (a b : ℕ) → ltb a b ≡ true → a < b
ltb→lt a b h = ground arith

pub lt→ltb : (a b : ℕ) → a < b → ltb a b ≡ true
lt→ltb a b h = ground arith

pub leb→le : (a b : ℕ) → leb a b ≡ true → a ≤ b
leb→le a b h = ground arith

pub le→leb : (a b : ℕ) → a ≤ b → leb a b ≡ true
le→leb a b h = ground arith

pub nat_beq_iff : (a b : ℕ) → (nat_beq a b ≡ true) ↔ (a ≡ b)
nat_beq_iff a b = ground arith

-- To split on a computed value and keep the equation.
pub Bool-cases : (b : Bool) → (b ≡ true) ⊎ (b ≡ false)
Bool-cases true = inl refl
Bool-cases false = inr refl

pub Option-cases {ℓ} : {A : Type ℓ} (o : Option A) → (o ≡ none) ⊎ ((a : A) × (o ≡ some a))
Option-cases none = inl refl
Option-cases (some a) = inr (a, refl)

-- A type whose values can be compared, with a test that decides their equality.
pub record Eq {κ} (T : Type κ) : Type κ where
  pub beq : T → T → Bool
  pub beq_iff : (x y : T) → (beq x y ≡ true) ↔ (x ≡ y)

instance abbrev pub string_eq : Eq String
string_eq = record { beq_iff = eq_iff; beq = str_eq }

instance abbrev pub nat_eq : Eq ℕ
nat_eq = record { beq_iff = nat_beq_iff; beq = nat_beq }

infix 50 ◌==◌
abbrev pub ◌==◌ {κ} : {T : Type κ} ⦃test : Eq T⦄ → T → T → Bool
◌==◌ ⦃test⦄ x y = test.beq x y

module _ {ℓ} {A : Type ℓ} ⦃e : Eq A⦄ where
  abbrev opt_beq : Option A → Option A → Bool
  opt_beq none none = true
  opt_beq (some a) (some b) = e.beq a b
  opt_beq _ _ = false

  pub opt_beq_iff : (a b : Option A) → (opt_beq a b ≡ true) ↔ (a ≡ b)
  opt_beq_iff none none = (λ _. refl, λ _. refl)
  opt_beq_iff none (some b) = (λ h. cc, λ h. cc)
  opt_beq_iff (some a) none = (λ h. cc, λ h. cc)
  opt_beq_iff (some a) (some b) =
      (λ h. ap {B = Option A} some ((e.beq_iff a b).0 h), λ h. (e.beq_iff a b).1 (cc))

instance abbrev pub option_eq {ℓ} : {A : Type ℓ} ⦃e : Eq A⦄ → Eq (Option A)
option_eq = record { beq = opt_beq; beq_iff = opt_beq_iff }

-- What a test says, at any type with an equality test.
module _ {ℓ} {A : Type ℓ} ⦃e : Eq A⦄ where
  pub beq→eq : (a b : A) → (a == b) ≡ true → a ≡ b
  beq→eq a b = (e.beq_iff a b).0

  pub beq_refl : (a : A) → (a == a) ≡ true
  beq_refl a = (e.beq_iff a a).1 refl

module _ {ℓ} {A : Type ℓ} ⦃e : Eq A⦄ where
  pub beq_comm : (a b : A) → (a == b) ≡ (b == a)
  beq_comm a b = elim (Bool-cases (a == b)) [
    | inl same ↦ rw (beq→eq a b same) refl
    | inr other ↦ elim (Bool-cases (b == a)) [
      | inl same ↦ rw (beq→eq b a same) refl
      | inr apart ↦ rw (other, apart) refl
    ]
  ]

-- Pairs, compared part by part.
module _ {ℓ κ} {A : Type ℓ} {B : Type κ} ⦃p : Eq A⦄ ⦃q : Eq B⦄ where
  abbrev both_beq : A × B → A × B → Bool
  both_beq (a, b) (c, d) = p.beq a c && q.beq b d

  pub both_beq_iff : (x y : A × B) → (both_beq x y ≡ true) ↔ (x ≡ y)
  both_beq_iff (a, b) (c, d) = (
    λ h. λ i. ((p.beq_iff a c).0 (ground (arith, h)) i, (q.beq_iff b d).0 (ground (arith, h)) i),
    λ h. rw ((p.beq_iff a c).1 (ap (λ z. z.0) h), (q.beq_iff b d).1 (ap (λ z. z.1) h)) refl,
  )

  instance abbrev pub pair_eq : Eq (A × B)
  pair_eq = record { beq = both_beq; beq_iff = both_beq_iff }
