-- ===== src/Admin/Removal/Store.antt =====
-- The recovery store as the implementation of the editor's interface.
use secrets_broker.Base.{String, ◌≡◌, ◌≢◌, refl, Bool, true, Option, some, ok}
use secrets_broker.Admin.ArtifactFiles.{
  RecoveryArtifact, RecoveryDir, RecoveryStore, list_artifacts, read_artifact, validate_digest,
}
use secrets_broker.Admin.Recovery.{publish, new_artifact}
use secrets_broker.Admin.Recovery.Artifacts.{read_artifact-publish}
use secrets_broker.Admin.Removal.{RecoveryArtifacts}
use secrets_broker.Admin.Removal.Restores.{ReadsBack}

module _ (encode : RecoveryArtifact → String)
    (decode_json : String → Option (RecoveryArtifact × Bool)) (digest : String → String)
    (s : RecoveryStore) where
  -- `NewRecoveryEditor` gives the editor this store.
  abbrev pub stored_artifacts : RecoveryArtifacts RecoveryDir
  stored_artifacts = record {
    publish_artifact = publish encode decode_json digest s;
    list_all = list_artifacts encode decode_json digest s;
    read_one = read_artifact encode decode_json digest s;
  }

  -- The store keeps the law that the restoration relies on.
  pub stored_artifacts-ReadsBack :
      ((a : RecoveryArtifact) → decode_json (encode a) ≡ some (a, true))
      → ((text : String) → validate_digest (digest text) ≡ ok tt)
      → s.expected_owner ≡ s.euid
      → s.readable ≡ true
      → s.now ≢ 0
      → ReadsBack digest stored_artifacts
  unfolding new_artifact
  stored_artifacts-ReadsBack codec shape own readable now input r h = (
    new_artifact encode decode_json digest s input,
    read_artifact-publish encode decode_json digest s input r (codec _) shape own readable now h,
    refl,
    refl,
    refl,
  )
