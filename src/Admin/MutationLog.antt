-- ===== src/Admin/MutationLog.antt =====
-- internal/admin/audit.go: `MutationJSONLLogger`, which appends each record to the administrator's log as
-- one line, like the log of the runs. `encode` and `digest_argv` stand for `json.Marshal` of a record and
-- for the SHA-256 of an encoded argv.
use secrets_broker.Base.{
  ℕ, String, Bool, not, Option, none, some, List, [], is_empty, length, if◌then◌else◌, Check, ok,
  err, reject, map_err, ◌>>◌,
}
use secrets_broker.Securefile.{Node, validate_private_dir}
use secrets_broker.Audit.{
  AuditError, Machine, append_line, run_id_failed, dir_not_created, audit_dir_refused,
}
use secrets_broker.Admin.Audited.{MutationStart, MutationFinish}

pub record MutationRecord : Type 0 where
  pub mutation_id : String
  pub timestamp : ℕ
  pub event : String
  pub actor_uid : Option ℕ
  pub actor_login : String
  pub project : String
  pub operation : String
  pub approval_mode : String
  pub argv_sha256 : String
  pub argv_count : ℕ
  pub recovery_id : String
  pub fields : List String
  pub outcome : String

module _ (encode : MutationRecord → String) (digest_argv : List String → String) (made : Bool)
    (dir : Option Node) where
  -- `append`; `made` tells whether `os.MkdirAll` succeeds, and `dir` is what `os.Stat` finds then.
  append_checked :
      Check AuditError → Machine → String → Option Node → Option Node × Check AuditError
  unfolding append_line
  append_checked (err e) m line file = (file, err e)
  append_checked (ok _) m line file = append_line m line file

  unfoldable pub append_record :
      Machine → MutationRecord → Option Node → Option Node × Check AuditError
  unfolding append_checked validate_private_dir
  append_record m rec file =
      append_checked
        (do
          reject (not made) dir_not_created
          map_err audit_dir_refused (validate_private_dir m.euid dir))
        m (encode rec) file

  start_record : Machine → MutationStart → String → MutationRecord
  start_record m rec id = record {
    mutation_id = id;
    timestamp = m.now;
    event = "start";
    actor_uid = some rec.actor_uid;
    actor_login = rec.actor_login;
    project = rec.project;
    operation = rec.operation;
    approval_mode = rec.approval_mode;
    argv_sha256 = (if is_empty rec.argv then "" else digest_argv rec.argv);
    argv_count = length rec.argv;
    recovery_id = rec.recovery_id;
    fields = rec.fields;
    outcome = "";
  }

  start_drawn :
      Machine → MutationStart → Option String → Option Node → Option Node × Check AuditError
  unfolding append_record start_record
  start_drawn m rec none file = (file, err run_id_failed)
  start_drawn m rec (some id) file = append_record m (start_record m rec id) file

  -- `Start` and `Finish`.
  unfoldable pub start_mutation :
      Machine → MutationStart → Option Node → Option Node × Check AuditError
  unfolding start_drawn
  start_mutation m rec file = start_drawn m rec m.new_id file

  finish_record : Machine → String → MutationFinish → MutationRecord
  finish_record m id rec = record {
    mutation_id = id;
    timestamp = m.now;
    event = "finish";
    actor_uid = none;
    actor_login = rec.actor_login;
    project = "";
    operation = "";
    approval_mode = "";
    argv_sha256 = "";
    argv_count = 0;
    recovery_id = "";
    fields = [];
    outcome = rec.outcome;
  }

  unfoldable pub finish_mutation_record :
      Machine → String → MutationFinish → Option Node → Option Node × Check AuditError
  unfolding append_record finish_record
  finish_mutation_record m id rec file = append_record m (finish_record m id rec) file
