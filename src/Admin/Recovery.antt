-- ===== src/Admin/Recovery.antt =====
-- internal/admin/recovery.go: `Publish`, which writes the artifact from which a removed project is restored.
-- Any system call may fail.
pub mod Publish
pub mod Artifacts
mod Examples
use secrets_broker.Base.{
  String, Bool, false, Option, none, some, List, [], ◌∷◌, ltb, ◌==◌, if◌then◌else◌, Result, Check,
  ok, err, reject, ◌>>=◌, ◌>>◌,
}
use secrets_broker.Go.{byte_length, is_blank}
use secrets_broker.Securefile.{Node, regular, perm_600}
use secrets_broker.Admin.Errors.{
  RecoveryError, recovery_alias_required, recovery_artifact_too_large, recovery_not_written,
  recovery_exists, recovery_dir_not_synced,
}
use secrets_broker.Admin.ArtifactFiles.{
  RecoveryArtifactInput, RecoveryArtifact, RecoveryDir, RecoveryStore, recovery_artifact_version,
  max_recovery_artifact_bytes, validate_recovery_id, find_file, validate_recovery_dir,
  validate_recovery_file, create, chmod, write, sync, close, link, remove_temp, remove_final,
  sync_dir,
}

module _ (encode : RecoveryArtifact → String)
    (decode_json : String → Option (RecoveryArtifact × Bool)) (digest : String → String)
    (s : RecoveryStore) where
  -- `Publish`.
  unfoldable pub new_artifact : RecoveryArtifactInput → RecoveryArtifact
  new_artifact input = record {
    version = recovery_artifact_version;
    recovery_id = input.recovery_id;
    created_at = s.now;
    project = input.project;
    before_sha256 = digest input.before;
    after_sha256 = digest input.after;
    policy = input.before;
  }

  pub temp_node : String → Node
  temp_node text = record {
    kind = regular;
    perm = perm_600;
    special_bits = false;
    stat = s.temp_stat;
    content = text;
  }

  -- From `temp.Chmod` to `temp.Close`.
  fill_artifact : String → Result RecoveryError Node
  unfolding temp_node validate_recovery_file
  fill_artifact text = do
    reject (s.fails chmod) recovery_not_written
    validate_recovery_file encode decode_json digest s (some (temp_node ""))
    reject (s.fails write) recovery_not_written
    reject (s.fails sync) recovery_not_written
    reject (s.fails close) recovery_not_written
    ok (temp_node text)

  -- The deferred removals, whose errors are ignored.
  drop_temp : RecoveryDir → RecoveryDir
  drop_temp d = if s.fails remove_temp then d else record d { temp = none }

  remove_file : String → List (String × Node) → List (String × Node)
  remove_file name [] = []
  remove_file name (f ∷ rest) =
      let later = remove_file name rest in if f.0 == name then later else f ∷ later

  drop_final : String → RecoveryDir → RecoveryDir
  unfolding remove_file
  drop_final id d = if s.fails remove_final then d else record d { files = remove_file id d.files }

  -- After the link: the removal of the temporary name and the sync.
  linked : String → RecoveryDir → RecoveryDir × Check RecoveryError
  unfolding drop_temp drop_final
  linked id d =
      if s.fails remove_temp
      then (drop_temp (drop_final id d), err recovery_not_written)
      else if s.fails sync_dir
      then (drop_final id (record d { temp = none }), err recovery_dir_not_synced)
      else (record d { temp = none }, ok tt)

  link_temp : String → Node → Option Node → RecoveryDir → RecoveryDir × Check RecoveryError
  unfolding linked drop_temp
  link_temp id n (some old) d = (drop_temp d, err recovery_exists)
  link_temp id n none d =
      if s.fails link
      then (drop_temp d, err recovery_not_written)
      else linked id (record d { files = (id, n) ∷ d.files })

  with_temp_file :
      String → Result RecoveryError Node → RecoveryDir → RecoveryDir × Check RecoveryError
  unfolding link_temp drop_temp find_file
  with_temp_file id (err e) d = (drop_temp d, err e)
  with_temp_file id (ok n) d = link_temp id n (find_file id d.files) (record d { temp = some n })

  -- The checks before the first write: the encoded artifact.
  prepare_artifact : RecoveryArtifactInput → RecoveryDir → Result RecoveryError String
  unfolding validate_recovery_id validate_recovery_dir new_artifact
  prepare_artifact input d = do
    validate_recovery_id input.recovery_id
    reject (is_blank input.project) recovery_alias_required
    validate_recovery_dir encode decode_json digest s d.dir
    reject (ltb max_recovery_artifact_bytes (byte_length (encode (new_artifact input))))
        recovery_artifact_too_large
    ok (encode (new_artifact input))

  write_artifact :
      String → Result RecoveryError String → RecoveryDir → RecoveryDir × Check RecoveryError
  unfolding with_temp_file fill_artifact temp_node
  write_artifact id (err e) d = (d, err e)
  write_artifact id (ok text) d =
      if s.fails create
      then (d, err recovery_not_written)
      else with_temp_file id (fill_artifact text) (record d { temp = some (temp_node "") })

  unfoldable pub publish : RecoveryArtifactInput → RecoveryDir → RecoveryDir × Check RecoveryError
  unfolding write_artifact prepare_artifact
  publish input d = write_artifact input.recovery_id (prepare_artifact input d) d
