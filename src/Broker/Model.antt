-- ===== src/Broker/Model.antt =====
-- What internal/broker/broker.go passes around: requests, records, outcomes, and the calls that a run
-- makes.
use secrets_broker.Base.{ℕ, String, Option, Bool, List, ℤ}
use secrets_broker.Approval.{Reply}

-- The denial reasons.
abbrev pub reason_unknown_project : String
reason_unknown_project = "unknown_project"

abbrev pub reason_not_allowlisted : String
reason_not_allowlisted = "not_allowlisted"

abbrev pub reason_approval_rejected : String
reason_approval_rejected = "approval_rejected"

abbrev pub reason_token_resolution_failed : String
reason_token_resolution_failed = "token_resolution_failed"

abbrev pub reason_runner_start_failed : String
reason_runner_start_failed = "runner_start_failed"

abbrev pub reason_audit_unavailable : String
reason_audit_unavailable = "audit_unavailable"

abbrev pub reason_working_directory_not_allowed : String
reason_working_directory_not_allowed = "working_directory_not_allowed"

pub data Verdict : Type 0 where
  deny allow prompt : Verdict

pub record RunRequest : Type 0 where
  pub project : String
  pub working_dir : String
  pub argv : List String

-- `runner.RunSpec`, less the caller's streams.
pub record RunSpec : Type 0 where
  pub project_id : String
  pub token : String
  pub working_dir : String
  pub argv : List String

-- `audit.StartRecord` and `audit.FinishRecord`; a nil exit code is `none`.
pub record StartRecord : Type 0 where
  pub project : String
  pub working_dir : String
  pub argv : List String

pub record FinishRecord : Type 0 where
  pub outcome : String
  pub exit_code : Option ℤ

pub record RunOutcome : Type 0 where
  pub denied : Bool
  pub reason : String
  pub approval_cause : String
  pub exit_code : ℤ
  pub audit_incomplete : Bool

pub data Event : Type 0 where
  started : StartRecord → Option String → Event
  finished : String → FinishRecord → Bool → Event
  asked : String → Reply → Event
  resolved : String → Option String → Event
  executed : RunSpec → Option ℤ → Event

abbrev pub Trace : Type 0
Trace = List Event

-- `none` is an error of the call. `finish` tells whether the record was written. `cause` is `none` for
-- an approver that is no `CauseProvider`. `eval_symlinks` reads the file system, which does not change
-- during a run.
pub record Env : Type 0 where
  pub start : Trace → StartRecord → Option String
  pub finish : Trace → String → FinishRecord → Bool
  pub approve : Trace → String → Reply
  pub cause : Trace → Option String
  pub resolve : Trace → String → Option String
  pub run_command : Trace → RunSpec → Option ℤ
  pub eval_symlinks : String → Option String
  pub is_print : ℕ → Bool
