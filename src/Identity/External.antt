-- ===== src/Identity/External.antt =====
-- The first phase takes no binding twice, although it does not look at the ones already taken: the
-- bindings of different external ids are different.
use mathlib.Core.List.{map}
use xray_e2e_prober.Base.{
  String, ◌≡◌, refl, ◌∙◌, subst, true, false, Option, none, some, List, [], ◌∷◌, All, map_All,
  both_All, members_map, differs_map, if◌then◌else◌, ◌==◌, string_eq, beq→eq, beq_refl, member,
  unique, Bool-cases, inl, inr, arith,
}
use xray_e2e_prober.Identity.Registry.{
  CandidateIdentity, IdentityBinding, entry_ids, present, group_by, group_of,
}
use xray_e2e_prober.Identity.Reconcile.{
  Progress, assign, conflict, by_external_id, old_by, match_all, match_external_ids, no_progress,
}
use xray_e2e_prober.Identity.Groups.{group_by-Grouped, group_by-unique}
use xray_e2e_prober.Identity.Progress.{
  Sound, IsUsable, IsKnown, by_external_id-Sound, no_progress-Sound,
}

-- The key of the first binding with an id.
unfoldable pub key_of :
    (IdentityBinding → Option String) → List IdentityBinding → String → Option String
key_of key [] e = none
key_of key (b ∷ bindings) e = if b.entry_id == e then key b else key_of key bindings e

-- Where ids stand once, that is the binding itself.
key_of_self :
    (key : IdentityBinding → Option String) (bindings : List IdentityBinding)
    → unique (entry_ids bindings) ≡ true
    → All (λ b. key_of key bindings b.entry_id ≡ key b) bindings
unfolding key_of
key_of_self key [] u = tt
key_of_self key (b ∷ bindings) u = (
  rw (beq_refl b.entry_id) refl,
  map_All (λ x. ((b.entry_id == x.entry_id) ≡ false) × (key_of key bindings x.entry_id ≡ key x)) _
      bindings (λ x h. rw h.0 h.1)
      (differs_map (λ x. key_of key bindings x.entry_id ≡ key x) (λ x. x.entry_id) b.entry_id
        bindings (ground (arith, u)) (key_of_self key bindings (ground (arith, u)))),
)

module _ (ids : List String) (owner : String → Option String) where
  -- The used entries belong to keys that are done.
  abbrev Done : List String → Progress → Type 0
  Done done p =
      (e : String)
      → member e p.used_entries ≡ true
      → (k : String) × (owner e ≡ some k) × (member k done ≡ true)

  abbrev Owned : List (String × List IdentityBinding) → Type 0
  Owned old = (k : String) → All (λ b. (owner b.entry_id ≡ some k) × IsKnown ids b) (group_of k old)

  more-Done : (key : String) (done : List String) (p : Progress) → Done done p → Done (key ∷ done) p
  more-Done key done p d e h = let (k, own, old) = d e h in (k, own, ground (arith, old))

  Done-step :
      (key : String) (done : List String) (group : List CandidateIdentity)
      (old : List IdentityBinding) (p : Progress)
      → All (λ b. (owner b.entry_id ≡ some key) × IsKnown ids b) old
      → Done done p
      → Done (key ∷ done) (by_external_id group old p)
  unfolding by_external_id assign conflict
  Done-step key done [] old p owned d = more-Done key done p d
  Done-step key done (c ∷ []) [] p owned d = more-Done key done p d
  Done-step key done (c ∷ []) (b ∷ []) p owned d = λ e h. elim (Bool-cases (b.entry_id == e)) [
    | inl same ↦ (
      key,
      subst (λ x. owner x ≡ some key) (beq→eq b.entry_id e same) owned.0.0,
      rw (beq_refl key) refl,
    )
    | inr other ↦ more-Done key done p d e (rw other at h)
  ]
  Done-step key done (c ∷ []) (b ∷ b' ∷ old) p owned d = more-Done key done p d
  Done-step key done (c ∷ c' ∷ group) old p owned d = more-Done key done p d

  unused :
      (key : String) (done : List String) (p : Progress) (b : IdentityBinding)
      → member key done ≡ false
      → Done done p
      → owner b.entry_id ≡ some key
      → member b.entry_id p.used_entries ≡ false
  unused key done p b fresh d own = elim (Bool-cases (member b.entry_id p.used_entries)) [
    | inr new ↦ new
    | inl used ↦
        let (k, own', old) = d b.entry_id used in
        let same : k ≡ key = cc (own, own') in cc (rw same at old, fresh)
  ]

  match_all-Sound :
      (old : List (String × List IdentityBinding)) (groups : List (String × List CandidateIdentity))
      (done : List String) (p : Progress)
      → Owned old
      → unique (map (λ g. g.0) groups) ≡ true
      → All (λ g. member g.0 done ≡ false) groups
      → Done done p
      → Sound ids p
      → Sound ids (match_all old groups p)
  unfolding match_all
  match_all-Sound old [] done p owned u new d v = v
  match_all-Sound old ((key, group) ∷ groups) done p owned u new d v =
      match_all-Sound old groups (key ∷ done) (by_external_id group (group_of key old) p) owned
        (ground (arith, u))
        (map_All (λ g. ((key == g.0) ≡ false) × (member g.0 done ≡ false)) _ groups
          (λ g h. rw (h.0, h.1) refl)
          (differs_map (λ g. member g.0 done ≡ false) (λ g. g.0) key groups (ground (arith, u))
            new.1))
        (Done-step key done group (group_of key old) p (owned key) d)
        (by_external_id-Sound ids group (group_of key old) p
          (map_All (λ b. (owner b.entry_id ≡ some key) × IsKnown ids b) (IsUsable ids p)
            (group_of key old) (λ b h. (unused key done p b new.0 d h.0, h.1)) (owned key))
          v)

not_done :
    (groups : List (String × List CandidateIdentity)) → All (λ g. member g.0 [] ≡ false) groups
not_done [] = tt
not_done (g ∷ groups) = (refl, not_done groups)

module _ (previous : List IdentityBinding) (u : unique (entry_ids previous) ≡ true) where
  -- The groups of the old external ids, with their owners.
  old_external_Owned :
      (k : String)
      → All
          (λ b.
            (key_of (λ x. present x.external_id) previous b.entry_id ≡ some k)
            × IsKnown (entry_ids previous) b)
          (group_of k (old_by (λ b. b.external_id) previous))
  unfolding group_of
  old_external_Owned k =
      let key = λ (b : IdentityBinding). present b.external_id in
      let P = λ (b : IdentityBinding).
        (key_of key previous b.entry_id ≡ key b) × IsKnown (entry_ids previous) b in
      map_All (λ b. (key b ≡ some k) × P b) _ (group_of k (old_by (λ b. b.external_id) previous))
        (λ b h. (h.1.0 ∙ h.0, h.1.1))
        (group_by-Grouped key P previous []
          (both_All _ (IsKnown (entry_ids previous)) previous (key_of_self key previous u)
            (members_map (λ b. b.entry_id) previous))
          (λ j. tt) k)

  -- The whole first phase.
  pub match_external_ids-Sound :
      (candidates : List CandidateIdentity)
      → Sound (entry_ids previous) (match_external_ids previous candidates no_progress)
  unfolding match_external_ids
  match_external_ids-Sound candidates =
      let groups = group_by (λ (c : CandidateIdentity). present c.external_id) [] candidates in
      match_all-Sound (entry_ids previous) (key_of (λ b. present b.external_id) previous)
        (old_by (λ b. b.external_id) previous) groups [] no_progress old_external_Owned
        (group_by-unique (λ (c : CandidateIdentity). present c.external_id) candidates [] refl)
        (not_done groups) (λ e h. cc (h)) (no_progress-Sound (entry_ids previous))
