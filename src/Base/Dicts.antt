-- ===== src/Base/Dicts.antt =====
-- Python dictionaries with text keys, as association lists in the order of insertion.
use Prim.Native.String.{String}
use mathlib.Core.Path.{◌≡◌, refl}
use mathlib.Core.Bool.{Bool, true, false}
use mathlib.Core.Option.{Option, none, some}
use mathlib.Core.List.{map, List, [], ◌∷◌}
use native.Mathlib.Omega.{arith}
use text.Mathlib.TextEquality.{eq_iff}
use mathlib.Core.Logic.{inl, inr}
use xray_e2e_prober.Base.Lists.{member}
use xray_e2e_prober.Base.Tests.{◌==◌, string_eq, if◌then◌else◌, beq_refl, Bool-cases}

abbrev pub Dict {ℓ} : Type ℓ → Type ℓ
Dict V = List (String × V)

abbrev pub keys {ℓ} : {V : Type ℓ} → Dict V → List String
keys m = map (λ item. item.0) m

abbrev pub values {ℓ} : {V : Type ℓ} → Dict V → List V
values m = map (λ item. item.1) m

module _ {ℓ} {V : Type ℓ} where
  -- `m.get(k)`
  unfoldable pub lookup : String → Dict V → Option V
  lookup k [] = none
  lookup k ((j, v) ∷ m) = if j == k then some v else lookup k m

  -- `m[k] = v`: an old key keeps its place.
  unfoldable pub insert : String → V → Dict V → Dict V
  insert k v [] = (k, v) ∷ []
  insert k v ((j, w) ∷ m) = if j == k then (k, v) ∷ m else (j, w) ∷ insert k v m

  -- `m.pop(k, None)`
  unfoldable pub erase : String → Dict V → Dict V
  erase k [] = []
  erase k ((j, w) ∷ m) = let rest = erase k m in if j == k then rest else (j, w) ∷ rest

  abbrev pub is_some : Option V → Bool
  is_some none = false
  is_some (some v) = true

  -- `k in m`
  unfoldable pub has_key : String → Dict V → Bool
  unfolding lookup
  has_key k m = is_some (lookup k m)

  pub lookup-erase :
      (gone k : String) (m : Dict V)
      → lookup k (erase gone m) ≡ (if gone == k then none else lookup k m)
  unfolding erase lookup
  lookup-erase gone k [] = ground arith
  lookup-erase gone k ((first, v) ∷ rest) =
      ground (arith, lookup-erase gone k rest, eq_iff first gone, eq_iff first k, eq_iff gone k)

  pub lookup-insert :
      (new k : String) (v : V) (m : Dict V)
      → lookup k (insert new v m) ≡ (if new == k then some v else lookup k m)
  unfolding insert lookup
  lookup-insert new k v [] = refl
  lookup-insert new k v ((first, w) ∷ rest) =
      ground (arith, lookup-insert new k v rest, eq_iff first new, eq_iff first k, eq_iff new k)

pub has_key-member : {V : Type 0} (k : String) (m : Dict V) → has_key k m ≡ member k (keys m)
unfolding has_key lookup
has_key-member k [] = refl
has_key-member k ((j, v) ∷ m) = ground (arith, has_key-member k m)

-- A key is there once it is set, and stays.
pub insert_has : {V : Type 0} (k : String) (v : V) (m : Dict V) → has_key k (insert k v m) ≡ true
unfolding has_key
insert_has k v m = rw (lookup-insert k k v m, beq_refl k) refl

pub insert_keeps :
    {V : Type 0} (k j : String) (v : V) (m : Dict V)
    → has_key k m ≡ true
    → has_key k (insert j v m) ≡ true
unfolding has_key
insert_keeps k j v m e = elim (Bool-cases (j == k)) [
  | inl same ↦ rw (lookup-insert j k v m, same) refl
  | inr other ↦ rw (lookup-insert j k v m, other) e
]
