-- ===== src/Storage/Journal.antt =====
-- src/xray_e2e_prober/storage.py: `begin_config_replace`, `recover_config_replace` and
-- `commit_config_replace`, with the writes of the service between them. An operation is the list of its
-- durable effects in order, each of which is there as a whole or not at all: a crash leaves a prefix.
-- The journal is what was written to it; that a file cannot be read is not modelled.
use xray_e2e_prober.Base.{
  ℕ, String, Bool, true, false, not, Option, none, some, List, [], ◌∷◌, ◌++◌, map, any, keep,
  if◌then◌else◌, ltb, ◌==◌, string_eq, Dict, insert, is_some, has_key, Result, ok, err, ◌>>=◌, ◌>>◌,
  reject,
}

pub data StorageError : Type 0 where
  unfinished secret_exists too_large not_prepared invalid_journal missing_backup invalid_backup :
      StorageError

pub record Journal : Type 0 where
  pub target : String
  pub previous_exists : Bool
  pub previous_sha256 : String
  pub secret_names : List String

-- The files of the store that a replacement concerns, and the configuration file.
pub record Files : Type 0 where
  pub config : Option String
  pub backup : Option String
  pub journal : Option Journal
  pub secrets : Dict String

-- What the code relies on: a hash, the digest of the path of the configuration, and sizes in bytes.
pub record Disk : Type 0 where
  pub sha256 : String → String
  pub target_digest : String
  pub size : String → ℕ
  pub max_backup : ℕ

pub data Effect : Type 0 where
  write_config write_backup : String → Effect
  remove_config remove_backup remove_journal : Effect
  write_journal : Journal → Effect
  write_secret : String → String → Effect
  remove_secret : String → Effect

abbrev pub is_other_name : String → String × String → Bool
is_other_name name e = not (e.0 == name)

unfoldable pub act : Effect → Files → Files
act (write_config v) f = record f { config = some v }
act (write_backup v) f = record f { backup = some v }
act remove_config f = record f { config = none }
act remove_backup f = record f { backup = none }
act remove_journal f = record f { journal = none }
act (write_journal j) f = record f { journal = some j }
act (write_secret name v) f = record f { secrets = insert name v f.secrets }
act (remove_secret name) f = record f { secrets = keep (is_other_name name) f.secrets }

unfoldable pub run : List Effect → Files → Files
run [] f = f
run (e ∷ effects) f = run effects (act e f)

-- `previous or b""`
abbrev pub bytes_of : Option String → String
bytes_of none = ""
bytes_of (some v) = v

module _ (disk : Disk) where
  abbrev pub journal_of : List String → Option String → Journal
  journal_of names previous = record {
    target = disk.target_digest;
    previous_exists = is_some previous;
    previous_sha256 = disk.sha256 (bytes_of previous);
    secret_names = names;
  }

  abbrev pub back_up : Option String → Result StorageError Effect
  back_up none = ok remove_backup
  back_up (some v) =
      if ltb disk.max_backup (disk.size v) then err too_large else ok (write_backup v)

  -- `begin_config_replace`
  unfoldable pub begin_config_replace : List String → Files → Result StorageError (List Effect)
  begin_config_replace names f = do
    reject (is_some f.journal) unfinished
    reject (any (λ name. has_key name f.secrets) names) secret_exists
    saved ← back_up f.config
    ok (saved ∷ write_journal (journal_of names f.config) ∷ [])

  -- `has_pending_config_replace`
  unfoldable pub has_pending_config_replace : Option Journal → Result StorageError Bool
  has_pending_config_replace none = ok false
  has_pending_config_replace (some j) =
      if j.target == disk.target_digest then ok true else err invalid_journal

  abbrev pub restored : Bool → String → Option String → Result StorageError Effect
  restored false sha backup = ok remove_config
  restored true sha none = err missing_backup
  restored true sha (some v) =
      if ltb disk.max_backup (disk.size v)
      then err too_large
      else if disk.sha256 v == sha
      then ok (write_config v)
      else err invalid_backup

  abbrev pub rolled_back : Option Journal → Option String → Bool → Result StorageError (List Effect)
  rolled_back none backup pending = ok (remove_backup ∷ [])
  rolled_back (some j) backup false = ok (remove_backup ∷ [])
  rolled_back (some j) backup true = restored j.previous_exists j.previous_sha256 backup >>= λ back.
      ok (back ∷ map remove_secret j.secret_names ++ remove_journal ∷ remove_backup ∷ [])

  -- `recover_config_replace`, which is also `rollback_config_replace`
  unfoldable pub recover_config_replace : Files → Result StorageError (List Effect)
  recover_config_replace f =
      has_pending_config_replace f.journal >>= λ pending. rolled_back f.journal f.backup pending

  -- `commit_config_replace`
  unfoldable pub commit_config_replace : Files → Result StorageError (List Effect)
  commit_config_replace f = has_pending_config_replace f.journal >>= λ pending.
      if pending then ok (remove_journal ∷ remove_backup ∷ []) else err not_prepared

-- What `replace_config` writes between the two: the new secrets, then the candidate.
unfoldable pub candidate_effects : Dict String → String → List Effect
candidate_effects [] candidate = write_config candidate ∷ []
candidate_effects ((name, v) ∷ secrets) candidate =
    write_secret name v ∷ candidate_effects secrets candidate
