-- ===== src/Storage/Crash.antt =====
-- A replacement of the configuration that a crash cuts off anywhere, and what a recovery makes of it.
use xray_e2e_prober.Base.{
  ℕ, zero, suc, String, ◌≡◌, refl, subst, false, Option, none, some, List, [], ◌∷◌, ◌++◌, any, ltb,
  beq_refl, string_eq, Dict, is_some, has_key, Bool-cases, inl, inr, ok, reject, >>=-eq-ok, arith,
}
use xray_e2e_prober.Storage.Journal.{
  unfinished, secret_exists, Files, Disk, Effect, write_backup, remove_backup, remove_journal,
  write_journal, act, run, journal_of, back_up, begin_config_replace, has_pending_config_replace,
  commit_config_replace, candidate_effects,
}
use xray_e2e_prober.Storage.Recover.{
  cut, IsOpen, RecoversTwice, closed_twice, open_twice, candidate-IsOpen, candidate_written,
}

module _ (disk : Disk) (names : List String) (f : Files) where
  -- What `begin_config_replace` does: the backup, then the journal.
  abbrev Begins : List Effect → Type 0
  Begins effects =
      (saved : Effect) × (saved ∷ write_journal (journal_of disk names f.config) ∷ [] ≡ effects)
      × (f.journal ≡ none)
      × (((act saved f).journal ≡ none) × ((act saved f).config ≡ f.config))
      × IsOpen disk names f.config
          (act (write_journal (journal_of disk names f.config)) (act saved f))

  saved_before :
      (previous : Option String) (saved : Effect)
      → f.config ≡ previous
      → f.journal ≡ none
      → back_up disk previous ≡ ok saved
      → (((act saved f).journal ≡ none) × ((act saved f).config ≡ f.config))
        × IsOpen disk names previous
            (act (write_journal (journal_of disk names previous)) (act saved f))
  unfolding act
  saved_before none saved e fresh h =
      let is_removed : remove_backup ≡ saved = ground (arith, h) in
      subst
        (λ x.
          (((act x f).journal ≡ none) × ((act x f).config ≡ f.config))
          × IsOpen disk names none (act (write_journal (journal_of disk names none)) (act x f)))
        is_removed ((fresh, refl), record { journal = refl; backup = refl; small = inl refl })
  saved_before (some v) saved e fresh h = elim (Bool-cases (ltb disk.max_backup (disk.size v))) [
    | inl large ↦ cc (rw large at h)
    | inr small ↦
        let is_saved : write_backup v ≡ saved = ground (arith, rw small at h) in
        subst
          (λ x.
            (((act x f).journal ≡ none) × ((act x f).config ≡ f.config))
            × IsOpen disk names (some v)
                (act (write_journal (journal_of disk names (some v))) (act x f)))
          is_saved
          ((fresh, refl), record { journal = refl; backup = refl; small = inr (v, refl, small) })
  ]

  no_journal : {A : Type 0} (o : Option A) → is_some o ≡ false → o ≡ none
  no_journal none h = refl
  no_journal (some a) h = cc (h)

  begins : (effects : List Effect) → begin_config_replace disk names f ≡ ok effects → Begins effects
  unfolding begin_config_replace
  begins effects e =
      let (_, fresh, e1) = >>=-eq-ok (reject (is_some f.journal) unfinished) _ e in
      let (_, _, e2) =
        >>=-eq-ok (reject (any (λ name. has_key name f.secrets) names) secret_exists) _ e1 in
      let (saved, found, e3) = >>=-eq-ok (back_up disk f.config) _ e2 in
      let journal = no_journal f.journal (ground (arith, fresh)) in
      let (before, opened) = saved_before f.config saved refl journal found in
      (saved, ground (arith, e3), journal, before, opened)

-- A replacement of the configuration that a crash cuts off before its commit, after any number of its
-- effects: a recovery restores the configuration as it was and leaves no journal, and so does the next
-- one after a recovery that was itself cut off.
pub replacement_recovers :
    (disk : Disk) (names : List String) (f : Files) (effects : List Effect) (secrets : Dict String)
    (candidate : String) (n m : ℕ)
    → begin_config_replace disk names f ≡ ok effects
    → RecoversTwice disk names f.config m
        (run (cut n (effects ++ candidate_effects secrets candidate)) f)
unfolding run
replacement_recovers disk names f effects secrets candidate n m e =
    let (saved, same, fresh, before, opened) = begins disk names f effects e in
    subst
      (λ x.
        RecoversTwice disk names f.config m
          (run (cut n (x ++ candidate_effects secrets candidate)) f))
      same (at n saved fresh before opened)
  where
    at :
        (n : ℕ) (saved : Effect)
        → f.journal ≡ none
        → ((act saved f).journal ≡ none) × ((act saved f).config ≡ f.config)
        → IsOpen disk names f.config
            (act (write_journal (journal_of disk names f.config)) (act saved f))
        → RecoversTwice disk names f.config m (
            run
              (cut n (
                saved
                ∷ write_journal (journal_of disk names f.config)
                ∷ candidate_effects secrets candidate))
              f)
    at zero saved fresh before opened = closed_twice disk names f.config m f fresh refl
    at (suc zero) saved fresh before opened =
        closed_twice disk names f.config m (act saved f) before.0 before.1
    at (suc (suc n)) saved fresh before opened =
        open_twice disk names f.config m _
          (candidate-IsOpen disk names f.config n secrets candidate _ opened)

-- A replacement that is written as a whole can be committed, and from the first effect of the commit on
-- a crash leaves the candidate: a recovery keeps it.
pub replacement_commits :
    (disk : Disk) (names : List String) (f : Files) (effects : List Effect) (secrets : Dict String)
    (candidate : String) (n m : ℕ)
    → begin_config_replace disk names f ≡ ok effects
    → (last : List Effect) × (commit_config_replace disk
          (run (effects ++ candidate_effects secrets candidate) f)
        ≡ ok last)
      × RecoversTwice disk names
          (some candidate)
          m
          (run (cut (suc n) last) (run (effects ++ candidate_effects secrets candidate) f))
unfolding run act commit_config_replace has_pending_config_replace
replacement_commits disk names f effects secrets candidate n m e =
    let (saved, same, fresh, before, opened) = begins disk names f effects e in
    subst
      (λ x.
        (last : List Effect) × (commit_config_replace disk
            (run (x ++ candidate_effects secrets candidate) f)
          ≡ ok last)
        × RecoversTwice disk names (some candidate) m
            (run (cut (suc n) last) (run (x ++ candidate_effects secrets candidate) f)))
      same (committed n _ (candidate_written disk names f.config secrets candidate _ opened))
  where
    committed :
        (n : ℕ) (g : Files)
        → IsOpen disk names f.config g × (g.config ≡ some candidate)
        → (last : List Effect) × (commit_config_replace disk g ≡ ok last)
          × RecoversTwice disk names (some candidate) m (run (cut (suc n) last) g)
    committed n g (v, config) = (
      remove_journal ∷ remove_backup ∷ [],
      rw (v.journal, beq_refl disk.target_digest) refl,
      left n g config,
    )
      where
        left :
            (n : ℕ) (g : Files)
            → g.config ≡ some candidate
            → RecoversTwice disk names
                (some candidate)
                m
                (run (cut (suc n) (remove_journal ∷ remove_backup ∷ [])) g)
        left zero g config =
            closed_twice disk names (some candidate) m (act remove_journal g) refl config
        left (suc zero) g config =
            closed_twice disk names (some candidate) m (act remove_backup (act remove_journal g))
              refl config
        left (suc (suc n)) g config =
            closed_twice disk names (some candidate) m (act remove_backup (act remove_journal g))
              refl config
