-- ===== src/Storage/Tests.antt =====
-- A configuration that is replaced with one new secret, cut off after the secret was written.
use xray_e2e_prober.Base.{◌≡◌, refl, some, none, List, [], ◌∷◌, ◌++◌, lookup, has_key, ok}
use xray_e2e_prober.Storage.Journal.{
  Files, Disk, Effect, write_backup, write_journal, journal_of, run, begin_config_replace,
  commit_config_replace, candidate_effects,
}
use xray_e2e_prober.Storage.Recover.{cut, RecoversTwice}
use xray_e2e_prober.Storage.Crash.{replacement_recovers, replacement_commits}

abbrev disk : Disk
disk = record { sha256 = λ v. v; target_digest = "path"; size = λ v. 3; max_backup = 8 }

abbrev files : Files
files = record { config = some "old"; backup = none; journal = none; secrets = [] }

abbrev begun : List Effect
begun = write_backup "old" ∷ write_journal (journal_of disk ("key" ∷ []) (some "old")) ∷ []

begin_files : begin_config_replace disk ("key" ∷ []) files ≡ ok begun
unfolding begin_config_replace lookup has_key
begin_files = refl

replacement_recovers_example :
    RecoversTwice disk
      ("key" ∷ [])
      (some "old")
      1
      (run (cut 3 (begun ++ candidate_effects (("key", "s") ∷ []) "new")) files)
replacement_recovers_example =
    replacement_recovers disk ("key" ∷ []) files begun (("key", "s") ∷ []) "new" 3 1 begin_files

replacement_commits_example :
    (last : List Effect) × (commit_config_replace disk
        (run (begun ++ candidate_effects (("key", "s") ∷ []) "new") files)
      ≡ ok last)
    × RecoversTwice disk
        ("key" ∷ [])
        (some "new")
        1
        (run (cut 1 last) (run (begun ++ candidate_effects (("key", "s") ∷ []) "new") files))
replacement_commits_example =
    replacement_commits disk ("key" ∷ []) files begun (("key", "s") ∷ []) "new" 0 1 begin_files
