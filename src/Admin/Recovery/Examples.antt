-- ===== src/Admin/Recovery/Examples.antt =====
-- A publication into an empty directory.
use secrets_broker.Base.{
  String, ◌≡◌, ◌⊎◌, refl, Bool, true, false, Option, some, none, [], ◌==◌, ok, err,
}
use secrets_broker.Go.{byte_length}
use secrets_broker.Admin.Errors.{RecoveryError}
use secrets_broker.Admin.Samples.{folder_node, root_stat}
use secrets_broker.Admin.ArtifactFiles.{
  RecoveryArtifact, RecoveryArtifactInput, RecoveryDir, RecoveryStore, find_file, read_artifact,
  validate_digest, all_hex,
}
use secrets_broker.Admin.Recovery.{new_artifact, publish}
use secrets_broker.Admin.Recovery.Artifacts.{publish-AllOrNothing}

abbrev sample_id : String
sample_id = "0123456789abcdef0123456789abcdef"

abbrev sample_digest : String → String
sample_digest text = "0123456789abcdef0123456789abcdef0123456789abcdef0123456789abcdef"

abbrev input : RecoveryArtifactInput
input = record { recovery_id = sample_id; project = "infra"; before = "old"; after = "new" }

abbrev sample_artifact : RecoveryArtifact
sample_artifact = record {
  version = 1;
  recovery_id = sample_id;
  created_at = 5;
  project = "infra";
  before_sha256 = sample_digest "old";
  after_sha256 = sample_digest "new";
  policy = "old";
}

abbrev encode : RecoveryArtifact → String
encode a = a.policy

abbrev decode_json : String → Option (RecoveryArtifact × Bool)
decode_json text = some (sample_artifact, true)

abbrev store : RecoveryStore
store = record {
  expected_owner = 0;
  expected_group = 7;
  euid = 0;
  now = 5;
  fails = λ call. false;
  readable = true;
  temp_stat = some root_stat;
}

abbrev empty_dir : RecoveryDir
empty_dir = record { dir = some folder_node; files = []; temp = none }

publish-AllOrNothing_example :
    (((publish encode decode_json sample_digest store input empty_dir).1 ≡ ok tt)
      × (read_artifact encode decode_json sample_digest store sample_id
            (publish encode decode_json sample_digest store input empty_dir).0
          ≡ ok (new_artifact encode decode_json sample_digest store input))
      × (((sample_id == "x") ≡ true)
          ⊎ (find_file "x" (publish encode decode_json sample_digest store input empty_dir).0.files
              ≡ find_file "x" empty_dir.files)))
    ⊎ ((e : RecoveryError) × ((publish encode decode_json sample_digest store input empty_dir).1
          ≡ err e)
        × ((publish encode decode_json sample_digest store input empty_dir).0 ≡ empty_dir))
unfolding validate_digest all_hex byte_length new_artifact
publish-AllOrNothing_example =
    publish-AllOrNothing encode decode_json sample_digest store input empty_dir "x" refl
      (λ text. refl) refl refl (λ h. cc) refl refl refl

published : (publish encode decode_json sample_digest store input empty_dir).1 ≡ ok tt
unfolding publish find_file byte_length
published = refl
