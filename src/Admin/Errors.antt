-- ===== src/Admin/Errors.antt =====
-- internal/admin: the errors of the policy editor and of the recovery of projects.
use secrets_broker.Base.{String}
use secrets_broker.Config.Worker.{LoadError, WorkerInvalid}
use secrets_broker.Securefile.{FileError}
use secrets_broker.Admin.Layout.Edits.{LayoutError}

pub data RecoveryError : Type 0 where
  recovery_id_invalid recovery_alias_required recovery_artifact_too_large : RecoveryError
  recovery_dir_not_found recovery_dir_not_folder recovery_dir_mode : RecoveryError
  recovery_dir_special_bits recovery_dir_identity : RecoveryError
  recovery_not_found recovery_not_regular recovery_mode recovery_special_bits : RecoveryError
  recovery_identity recovery_size recovery_not_written recovery_exists : RecoveryError
  recovery_dir_not_synced recovery_not_decoded recovery_trailing recovery_version
        recovery_id_mismatch :
      RecoveryError
  recovery_alias_empty recovery_time_empty recovery_digest recovery_digest_mismatch : RecoveryError
  recovery_not_read : FileError → RecoveryError
  recovery_unsafe : String → RecoveryError → RecoveryError

pub data EditError : Type 0 where
  policy_folder_refused policy_not_read policy_not_locked : FileError → EditError
  policy_not_found policy_not_regular policy_too_open : EditError
  policy_owner_unknown policy_owner_wrong policy_changed_while_read : EditError
  -- `ErrPolicyChanged` and `ErrPolicyBusy`
  policy_changed policy_busy : EditError
  policy_not_loaded : LoadError → EditError
  policy_not_worker : WorkerInvalid → EditError
  policy_too_large policy_lock_failed policy_changed_before_lock : EditError
  temp_not_created temp_not_stated temp_owner_unknown temp_not_owned temp_not_chmodded : EditError
  temp_not_written temp_not_synced temp_not_closed policy_changed_before_replacement : EditError
  policy_not_replaced folder_not_opened folder_not_synced : EditError
  -- the operations
  alias_required bws_project_id_required token_entry_required : EditError
  working_dir_required working_dir_not_absolute metadata_required argv_required : EditError
  unknown_project project_exists unsupported_mode : String → EditError
  layout_refused : LayoutError → EditError
  updated_not_loaded : LoadError → EditError
  updated_not_worker : WorkerInvalid → EditError
  updated_elsewhere last_project : EditError
  confirmation_required confirmation_mismatch : EditError
  recovery_not_configured : EditError
  recovery_refused : RecoveryError → EditError
  stored_not_loaded : LoadError → EditError
  stored_not_worker : WorkerInvalid → EditError
  stored_layout_refused : LayoutError → EditError
  removal_outdated artifact_without_project artifact_not_exact artifact_not_reproducing : EditError
