-- ===== src/Identity/Pruned.antt =====
-- What the pruning of the registry drops and counts.
use xray_e2e_prober.Base.{
  ℕ, ◌+◌, ◌-◌, ◌≤◌, String, ◌≡◌, refl, ◌∙◌, sym, subst, ◌≢◌, ◌⊎◌, Option, some, Bool, true, false,
  none, List, [], ◌∷◌, keep, length, if◌then◌else◌, ◌==◌, string_eq, beq→eq, member, unique, keys,
  lookup, Bool-cases, inl, inr, arith,
}
use xray_e2e_prober.Identity.Registry.{
  IdentityBinding, Registry, or_empty, bindings_of, is_given, is_matchable, keep_source,
  prune_unmatchable_inactive,
}

-- The rows of all sources.
unfoldable pub rows : Registry → ℕ
rows [] = 0
rows ((id, bindings) ∷ sources) = length bindings + rows sources

pub length-keep : {A : Type 0} (p : A → Bool) (xs : List A) → length (keep p xs) ≤ length xs
length-keep p [] = omega arith
length-keep p (x ∷ xs) = ground (arith, length-keep p xs)

keep_source-rows :
    (id : String) (bindings : List IdentityBinding) (rest : Registry × ℕ)
    → (rows (keep_source id bindings rest).0 ≡ length bindings + rows rest.0)
      × ((keep_source id bindings rest).1 ≡ rest.1)
unfolding rows
keep_source-rows id [] rest = (omega arith, refl)
keep_source-rows id (b ∷ bindings) rest = (refl, refl)

lookup-keep_source :
    (id k : String) (bindings : List IdentityBinding) (rest : Registry × ℕ)
    → lookup id rest.0 ≡ none
    → or_empty (lookup k (keep_source id bindings rest).0)
      ≡ (if id == k then bindings else or_empty (lookup k rest.0))
unfolding lookup
lookup-keep_source id k [] rest absent = elim (Bool-cases (id == k)) [
  | inl same ↦ rw same (rw (← beq→eq id k same) (rw absent refl))
  | inr other ↦ rw other refl
]
lookup-keep_source id k (b ∷ bindings) rest absent = ground arith

lookup_absent :
    (k : String) (registry : Registry) → member k (keys registry) ≡ false → lookup k registry ≡ none
unfolding lookup
lookup_absent k [] h = refl
lookup_absent k ((j, bs) ∷ registry) h = ground (arith, lookup_absent k registry, h)

-- No source comes up.
prune_absent :
    (k : String) (registry : Registry)
    → member k (keys registry) ≡ false
    → lookup k (prune_unmatchable_inactive registry).0 ≡ none
unfolding prune_unmatchable_inactive lookup
prune_absent k [] h = refl
prune_absent k ((id, bindings) ∷ registry) h =
    after (keep is_matchable bindings) (ground (arith, h))
      (prune_absent k registry (ground (arith, h)))
  where
    after :
        (bs : List IdentityBinding)
        → (id == k) ≡ false
        → lookup k (prune_unmatchable_inactive registry).0 ≡ none
        → lookup k
            (keep_source id bs (
              (prune_unmatchable_inactive registry).0,
              (length bindings - length (keep is_matchable bindings))
                  + (prune_unmatchable_inactive registry).1,
            )).0
          ≡ none
    after [] apart e = e
    after (b ∷ bs) apart e = rw apart e

prune_rows :
    (registry : Registry) (source_id : String)
    → unique (keys registry) ≡ true
    → (bindings_of source_id (prune_unmatchable_inactive registry).0
        ≡ keep is_matchable (bindings_of source_id registry))
      × (rows registry
          ≡ rows (prune_unmatchable_inactive registry).0 + (prune_unmatchable_inactive registry).1)
unfolding prune_unmatchable_inactive bindings_of lookup rows
prune_rows [] source_id u = (refl, refl)
prune_rows ((id, bindings) ∷ registry) source_id u =
    let more = prune_rows registry source_id (ground (arith, u)) in
    let rest = prune_unmatchable_inactive registry in
    let kept = keep is_matchable bindings in
    let rest' : Registry × ℕ = (rest.0, (length bindings - length kept) + rest.1) in
    let counts = keep_source-rows id kept rest' in
    (
      lookup-keep_source id source_id kept rest' (prune_absent id registry (ground (arith, u)))
          ∙ ground (arith, more.0),
      omega (arith, counts.0, counts.1, more.1, length-keep is_matchable bindings),
    )

-- The row is active, or a candidate can still be matched with it.
abbrev pub IsMatchable : IdentityBinding → Type 0
IsMatchable b =
    (b.active ≡ true)
    ⊎ ((b.external_id ≢ none) ⊎ ((b.name_key ≢ none) ⊎ (b.connection_fingerprint ≢ none)))

-- What is left of the rows, in their order.
pub data Prunes : List IdentityBinding → List IdentityBinding → Type 0 where
  nothing : Prunes [] []
  stays :
      (b : IdentityBinding) (old new : List IdentityBinding)
      → IsMatchable b
      → Prunes old new
      → Prunes (b ∷ old) (b ∷ new)
  goes :
      (b : IdentityBinding) (old new : List IdentityBinding)
      → ¬ IsMatchable b
      → Prunes old new
      → Prunes (b ∷ old) new

given_some : (o : Option String) → is_given o ≡ true → o ≢ none
given_some none h = cc (h)
given_some (some v) h = λ e. cc (e)

given_none : (o : Option String) → is_given o ≡ false → o ≡ none
given_none none h = refl
given_none (some v) h = cc (h)

IsMatchable-row : (b : IdentityBinding) → is_matchable b ≡ true → IsMatchable b
IsMatchable-row b h = elim (Bool-cases b.active) [
  | inl on ↦ inl on
  | inr off ↦ elim (Bool-cases (is_given b.external_id)) [
    | inl there ↦ inr (inl (given_some b.external_id there))
    | inr e1 ↦ elim (Bool-cases (is_given b.name_key)) [
      | inl there ↦ inr (inr (inl (given_some b.name_key there)))
      | inr e2 ↦
          inr (inr (inr (given_some b.connection_fingerprint (ground (arith, h, off, e1, e2)))))
    ]
  ]
]

unmatchable_row : (b : IdentityBinding) → is_matchable b ≡ false → ¬ IsMatchable b
unmatchable_row b h (inl on) = cc (rw on at h)
unmatchable_row b h (inr (inl there)) = there (given_none b.external_id (ground (arith, h)))
unmatchable_row b h (inr (inr (inl there))) = there (given_none b.name_key (ground (arith, h)))
unmatchable_row b h (inr (inr (inr there))) =
    there (given_none b.connection_fingerprint (ground (arith, h)))

keep-Prunes : (rows : List IdentityBinding) → Prunes rows (keep is_matchable rows)
keep-Prunes [] = nothing
keep-Prunes (b ∷ rows) = elim (Bool-cases (is_matchable b)) [
  | inl there ↦ rw there (stays b rows _ (IsMatchable-row b there) (keep-Prunes rows))
  | inr gone ↦ rw gone (goes b rows _ (unmatchable_row b gone) (keep-Prunes rows))
]

-- In a registry whose sources are distinct, pruning leaves every source exactly the rows that are
-- active or have an external id, a name key or a connection fingerprint, in their order, and the
-- number that it returns is that of the rows that went.
pub prune_exact :
    (registry : Registry) (source_id : String)
    → unique (keys registry) ≡ true
    → Prunes
        (bindings_of source_id registry)
        (bindings_of source_id (prune_unmatchable_inactive registry).0)
      × (rows registry
          ≡ rows (prune_unmatchable_inactive registry).0 + (prune_unmatchable_inactive registry).1)
prune_exact registry source_id u =
    let (same, counted) = prune_rows registry source_id u in
    (
      subst (Prunes (bindings_of source_id registry)) (sym same)
          (keep-Prunes (bindings_of source_id registry)),
      counted,
    )
