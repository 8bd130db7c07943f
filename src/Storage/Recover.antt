-- ===== src/Storage/Recover.antt =====
-- What a recovery makes of the files while a replacement of the configuration is open, or closed.
use xray_e2e_prober.Base.{
  ℕ, zero, suc, String, ◌≡◌, refl, ◌∙◌, subst, sym, false, Option, none, some, List, [], ◌∷◌, ◌++◌,
  map, ltb, beq_refl, string_eq, Dict, is_some, inl, inr, ◌⊎◌, ok,
}
use xray_e2e_prober.Storage.Journal.{
  Files, Disk, Effect, write_config, remove_config, remove_backup, remove_journal, write_secret,
  remove_secret, act, run, journal_of, has_pending_config_replace, restored, recover_config_replace,
  candidate_effects,
}

-- What is on the disk after a crash: the first effects.
abbrev pub cut : ℕ → List Effect → List Effect
cut zero effects = []
cut (suc n) [] = []
cut (suc n) (e ∷ effects) = e ∷ cut n effects

abbrev pub CanSave : Disk → Option String → Type 0
CanSave disk previous =
    (v : String) × (previous ≡ some v) × (ltb disk.max_backup (disk.size v) ≡ false)

module _ (disk : Disk) (names : List String) (previous : Option String) where
  -- The journal of a replacement is there, with the backup of the configuration before it.
  pub record IsOpen (f : Files) : Type 0 where
    pub journal : f.journal ≡ some (journal_of disk names previous)
    pub backup : f.backup ≡ previous
    pub small : (previous ≡ none) ⊎ CanSave disk previous

  -- A recovery gives the configuration before, and leaves no journal.
  abbrev pub Recovers : Files → Type 0
  Recovers f =
      (effects : List Effect) × (recover_config_replace disk f ≡ ok effects)
      × ((run effects f).config ≡ previous)
      × ((run effects f).journal ≡ none)

  removed_secrets :
      (left : List String) (f : Files)
      → ((run (map remove_secret left ++ remove_journal ∷ remove_backup ∷ []) f).config ≡ f.config)
        × ((run (map remove_secret left ++ remove_journal ∷ remove_backup ∷ []) f).journal ≡ none)
  unfolding run act
  removed_secrets [] f = (refl, refl)
  removed_secrets (name ∷ left) f = removed_secrets left (act (remove_secret name) f)

  IsOpen-restored :
      (f : Files)
      → IsOpen f
      → (back : Effect) × (restored disk
            (is_some previous)
            (journal_of disk names previous).previous_sha256
            previous
          ≡ ok back)
        × ((act back f).config ≡ previous)
        × IsOpen (act back f)
  unfolding act
  IsOpen-restored f v = elim v.small [
    | inl absent ↦
        (remove_config, rw absent refl, rw absent refl, kept (act remove_config f) refl refl)
    | inr (b, there, small) ↦ (
      write_config b,
      rw there (rw (small, beq_refl (disk.sha256 b)) refl),
      rw there refl,
      kept (act (write_config b) f) refl refl,
    )
  ]
    where
      kept : (g : Files) → g.journal ≡ f.journal → g.backup ≡ f.backup → IsOpen g
      kept g journal backup = record {
        journal = journal ∙ v.journal;
        backup = backup ∙ v.backup;
        small = v.small;
      }

  open-Recovers : (f : Files) → IsOpen f → Recovers f
  unfolding recover_config_replace has_pending_config_replace run
  open-Recovers f v =
      let (back, found, config, opened) = IsOpen-restored f v in
      let after = removed_secrets names (act back f) in
      (
        back ∷ map remove_secret names ++ remove_journal ∷ remove_backup ∷ [],
        rw (v.journal, beq_refl disk.target_digest, v.backup, found) refl,
        after.0 ∙ config,
        after.1,
      )

  closed-Recovers : (f : Files) → f.journal ≡ none → f.config ≡ previous → Recovers f
  unfolding recover_config_replace has_pending_config_replace run act
  closed-Recovers f journal config = (remove_backup ∷ [], rw journal refl, config, journal)

  -- The same for a recovery that is itself cut off, after its first effects.
  abbrev pub RecoversTwice : ℕ → Files → Type 0
  RecoversTwice m f =
      Recovers f
      × ((effects : List Effect) × (recover_config_replace disk f ≡ ok effects)
          × Recovers (run (cut m effects) f))

  pub closed_twice :
      (m : ℕ) (f : Files) → f.journal ≡ none → f.config ≡ previous → RecoversTwice m f
  unfolding recover_config_replace has_pending_config_replace run act
  closed_twice zero f journal config = (
    closed-Recovers f journal config,
    (remove_backup ∷ [], rw journal refl, closed-Recovers f journal config),
  )
  closed_twice (suc m) f journal config = (
    closed-Recovers f journal config,
    (
      remove_backup ∷ [],
      rw journal refl,
      subst (λ x. Recovers (run x (act remove_backup f))) (sym (nothing_left m))
          (closed-Recovers (act remove_backup f) journal config),
    ),
  )
    where
      nothing_left : (m : ℕ) → cut m [] ≡ []
      nothing_left zero = refl
      nothing_left (suc m) = refl

  cut_recovery :
      (m : ℕ) (left : List String) (f : Files)
      → IsOpen f
      → f.config ≡ previous
      → Recovers (run (cut m (map remove_secret left ++ remove_journal ∷ remove_backup ∷ [])) f)
  unfolding run act
  cut_recovery zero left f v config = open-Recovers f v
  cut_recovery (suc zero) [] f v config = closed-Recovers (act remove_journal f) refl config
  cut_recovery (suc (suc zero)) [] f v config =
      closed-Recovers (act remove_backup (act remove_journal f)) refl config
  cut_recovery (suc (suc (suc m))) [] f v config =
      closed-Recovers (act remove_backup (act remove_journal f)) refl config
  cut_recovery (suc m) (name ∷ left) f v config =
      cut_recovery m left (act (remove_secret name) f)
        record { journal = v.journal; backup = v.backup; small = v.small } config

  pub open_twice : (m : ℕ) (f : Files) → IsOpen f → RecoversTwice m f
  unfolding recover_config_replace has_pending_config_replace run
  open_twice m f v =
      let (back, found, config, opened) = IsOpen-restored f v in
      let effects = back ∷ map remove_secret names ++ remove_journal ∷ remove_backup ∷ [] in
      let planned : recover_config_replace disk f ≡ ok effects =
        rw (v.journal, beq_refl disk.target_digest, v.backup, found) refl in
      (open-Recovers f v, (effects, planned, after_back m back config opened))
    where
      after_back :
          (m : ℕ) (back : Effect)
          → (act back f).config ≡ previous
          → IsOpen (act back f)
          → Recovers (
              run (cut m (back ∷ map remove_secret names ++ remove_journal ∷ remove_backup ∷ [])) f)
      after_back zero back config opened = open-Recovers f v
      after_back (suc m) back config opened = cut_recovery m names (act back f) opened config

  pub candidate-IsOpen :
      (n : ℕ) (secrets : Dict String) (candidate : String) (f : Files)
      → IsOpen f
      → IsOpen (run (cut n (candidate_effects secrets candidate)) f)
  unfolding candidate_effects run act
  candidate-IsOpen zero secrets candidate f v = v
  candidate-IsOpen (suc zero) [] candidate f v = record {
    journal = v.journal;
    backup = v.backup;
    small = v.small;
  }
  candidate-IsOpen (suc (suc n)) [] candidate f v = record {
    journal = v.journal;
    backup = v.backup;
    small = v.small;
  }
  candidate-IsOpen (suc n) ((name, s) ∷ secrets) candidate f v =
      candidate-IsOpen n secrets candidate (act (write_secret name s) f)
        record { journal = v.journal; backup = v.backup; small = v.small }

  pub candidate_written :
      (secrets : Dict String) (candidate : String) (f : Files)
      → IsOpen f
      → IsOpen (run (candidate_effects secrets candidate) f)
        × ((run (candidate_effects secrets candidate) f).config ≡ some candidate)
  unfolding candidate_effects run act
  candidate_written [] candidate f v =
      (record { journal = v.journal; backup = v.backup; small = v.small }, refl)
  candidate_written ((name, s) ∷ secrets) candidate f v =
      candidate_written secrets candidate (act (write_secret name s) f)
        record { journal = v.journal; backup = v.backup; small = v.small }
