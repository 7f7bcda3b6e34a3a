-- ===== src/Admin/Removal/Examples.antt =====
-- The removal of one of two projects, and its restoration.
use native.Mathlib.Decide.{ℕ_discrete}
use secrets_broker.Base.{
  String, ◌≡◌, refl, true, Option, some, none, List, [], ◌∷◌, Result, ok, err, if◌then◌else◌,
}
use secrets_broker.Go.{byte_length, contains, is_abs, split}
use secrets_broker.Go.Slices.{text_length, text_take, text_drop, starts_line, ends_line}
use secrets_broker.Samples.{policy, deploys, parse_origin}
use secrets_broker.Config.{
  Config, apply_defaults, default_source, default_backend, default_approval, default_relay,
  or_default,
}
use secrets_broker.Config.Validate.{
  validate, validate_token_source, validate_approval_source, validate_relay, is_http_origin,
  validate_projects, validate_project, is_approval_mode, validate_allow,
}
use secrets_broker.Config.Worker.{
  Decoder, parse, validate_worker, validate_path_entries, validate_working_dirs,
}
use secrets_broker.Config.Equality.{deep_equal}
use secrets_broker.Admin.Layout.Lines.{find_all, header_match}
use secrets_broker.Admin.Layout.Edits.{block_at}
use secrets_broker.Admin.Samples.{quiet, root_editor, policy_node, root_stat}
use secrets_broker.Securefile.{Node}
use secrets_broker.Admin.Errors.{RecoveryError, recovery_not_found}
use secrets_broker.Admin.Files.{Disk, Snapshot, read_policy}
use secrets_broker.Admin.Files.Faultless.{IsFaultless}
use secrets_broker.Admin.ArtifactFiles.{
  RecoveryArtifact, RecoveryArtifactInput, validate_recovery_id, all_hex,
}
use secrets_broker.Admin.Removal.{RecoveryArtifacts, remove_project, restore_project}
use secrets_broker.Admin.Removal.Restores.{ReadsBack, restore_project-remove_project}

abbrev two_projects : Config
two_projects = record policy {
  projects =
      deploys ∷ record deploys { alias = "web"; bws_project_id = "p-2"; token_entry = "web" } ∷ [];
}

abbrev two_projects_text : String
two_projects_text = "[[projects]]\nalias = \"infra\"\n[[projects]]\nalias = \"web\"\n"

unfoldable decode_two : Decoder
unfolding contains
decode_two text = if contains text "web" then some two_projects else some policy

abbrev disk : Disk
disk = record { policy = some (record policy_node { content = two_projects_text }); temp = none }

abbrev as_text : String → String
as_text s = s

abbrev no_argv : List String → String
no_argv argv = "[]"

abbrev artifact_of : RecoveryArtifactInput → RecoveryArtifact
artifact_of input = record {
  version = 1;
  recovery_id = input.recovery_id;
  created_at = 5;
  project = input.project;
  before_sha256 = input.before;
  after_sha256 = input.after;
  policy = input.before;
}

or_missing : Option RecoveryArtifact → Result RecoveryError RecoveryArtifact
or_missing none = err recovery_not_found
or_missing (some a) = ok a

-- A store that remembers the last artifact.
abbrev one_artifact : RecoveryArtifacts (Option RecoveryArtifact)
one_artifact = record {
  publish_artifact = λ input r. (some (artifact_of input), ok tt);
  list_all = λ r. ok [];
  read_one = λ id r. or_missing r;
}

one_artifact-ReadsBack : ReadsBack as_text one_artifact
unfolding or_missing
one_artifact-ReadsBack input r h = (artifact_of input, refl, refl, refl, refl)

quiet-IsFaultless : IsFaultless quiet
quiet-IsFaultless = record {
  quiet = λ m path. refl;
  calls = λ c. refl;
  lock = λ nonblocking. refl;
  temp = record root_stat { gid = 0; ino = 9; modified = 4 };
  has_temp = refl;
}

abbrev sample_id : String
sample_id = "0123456789abcdef0123456789abcdef"

removed :
    (remove_project as_text no_argv parse_origin decode_two as_text quiet root_editor
      (some one_artifact)
      "web"
      "web"
      sample_id
      disk
      none).status
    ≡ ok tt
unfolding remove_project byte_length decode_two validate validate_token_source apply_defaults
    validate_approval_source default_source default_backend validate_relay is_http_origin
    validate_projects validate_project default_approval is_approval_mode validate_allow is_abs split
    default_relay or_default parse validate_worker validate_path_entries validate_working_dirs
    find_all header_match block_at text_length text_take text_drop deep_equal contains ℕ_discrete
    starts_line ends_line validate_recovery_id all_hex
removed = refl

restore_project-remove_project_example :
    (before : Snapshot) × ((read_policy quiet parse_origin decode_two as_text root_editor disk).1
      ≡ ok before)
    × (let out =
          remove_project as_text no_argv parse_origin decode_two as_text quiet root_editor
            (some one_artifact)
            "web"
            "web"
            sample_id
            disk
            none in
        let back =
          restore_project as_text no_argv parse_origin decode_two as_text quiet root_editor
            (some one_artifact)
            sample_id
            "web"
            out.disk
            out.artifacts in
        (back.status ≡ ok tt)
        × (back.result.changed ≡ true)
        × ((n : Node) × (back.disk.policy ≡ some n) × (n.content ≡ before.text)))
restore_project-remove_project_example =
    restore_project-remove_project as_text no_argv parse_origin decode_two as_text quiet root_editor
      one_artifact "web" "web" sample_id disk none quiet-IsFaultless one_artifact-ReadsBack refl
      refl removed
