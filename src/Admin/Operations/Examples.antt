-- ===== src/Admin/Operations/Examples.antt =====
-- The operations at a small policy.
use secrets_broker.Base.{String, List, ◌≡◌, refl, true, ok, some, ◌⊎◌}
use secrets_broker.Go.{byte_length, is_abs, split, contains}
use secrets_broker.Config.{
  apply_defaults, default_source, default_backend, default_approval, default_relay, or_default,
}
use secrets_broker.Config.Validate.{
  validate, validate_token_source, validate_approval_source, validate_relay, is_http_origin,
  validate_projects, validate_project, is_approval_mode, validate_allow,
}
use secrets_broker.Config.Worker.{
  parse, validate_worker, validate_path_entries, validate_working_dirs,
}
use secrets_broker.Config.Equality.{deep_equal}
use native.Mathlib.Decide.{ℕ_discrete}
use secrets_broker.Admin.Layout.Lines.{find_all, header_match, field_match}
use secrets_broker.Admin.Layout.Edits.{block_at}
use secrets_broker.Go.Slices.{text_length, text_take, text_drop, starts_line, ends_line}
use secrets_broker.Samples.{parse_origin}
use secrets_broker.Admin.Samples.{quiet, disk, root_editor, decode_sample, root_stat}
use secrets_broker.Securefile.{perm_600}
use secrets_broker.Admin.Editor.Spec.{set_approval, edit_config}
use secrets_broker.Admin.Operations.Readback.{read_policy-perform}
use secrets_broker.Admin.Files.{Snapshot, FileMetadata, read_policy, write_atomic}
use secrets_broker.Admin.Files.Atomic.{Kept, Replaced, write_atomic-Outcome}
use secrets_broker.Admin.Operations.{perform}
use secrets_broker.Admin.Operations.Refines.{Performed, perform-Performed}

abbrev as_text : String → String
as_text s = s

abbrev no_argv : List String → String
no_argv argv = "[]"

-- What `metadata` finds of the sample.
abbrev sample_metadata : FileMetadata
sample_metadata = record { perm = perm_600; stat = root_stat; size = 63 }

changes :
    (perform as_text no_argv parse_origin decode_sample as_text quiet root_editor
      (set_approval "infra" "confirm")
      disk).1
    ≡ ok true
unfolding perform byte_length decode_sample validate validate_token_source apply_defaults
    validate_approval_source default_source default_backend validate_relay is_http_origin
    validate_projects validate_project default_approval is_approval_mode validate_allow is_abs split
    default_relay or_default parse validate_worker validate_path_entries validate_working_dirs
    find_all header_match block_at text_length text_take text_drop field_match deep_equal contains
    ℕ_discrete starts_line ends_line
changes = refl

perform-Performed_example :
    Performed as_text no_argv parse_origin decode_sample as_text quiet root_editor
      (set_approval "infra" "confirm")
      disk
      (perform as_text no_argv parse_origin decode_sample as_text quiet root_editor
        (set_approval "infra" "confirm")
        disk).0
      true
perform-Performed_example =
    perform-Performed as_text no_argv parse_origin decode_sample as_text quiet root_editor
      (set_approval "infra" "confirm") disk true refl changes

read_policy-perform_example :
    (before : Snapshot) × ((read_policy quiet parse_origin decode_sample as_text root_editor disk).1
      ≡ ok before)
    × ((after : Snapshot) × ((read_policy quiet parse_origin decode_sample as_text root_editor
            (perform as_text no_argv parse_origin decode_sample as_text quiet root_editor
              (set_approval "infra" "confirm")
              disk).0).1
          ≡ ok after)
        × (edit_config (set_approval "infra" "confirm") before.config ≡ some after.config))
read_policy-perform_example =
    read_policy-perform as_text no_argv parse_origin decode_sample as_text quiet root_editor
      (set_approval "infra" "confirm") disk (λ m path. refl) refl refl changes

write_atomic-Outcome_example :
    Kept quiet disk
      (write_atomic quiet root_editor "new" sample_metadata disk).0
      (write_atomic quiet root_editor "new" sample_metadata disk).1
    ⊎ Replaced quiet root_editor "new" sample_metadata disk
        (write_atomic quiet root_editor "new" sample_metadata disk).0
write_atomic-Outcome_example =
    write_atomic-Outcome quiet root_editor "new" sample_metadata disk refl
