-- ===== src/Audit.antt =====
-- internal/audit/jsonl.go: the audit log, a file to which each record is appended as one line of JSON.
-- `encode` stands for `json.Marshal`, which renders a record in one line.
pub mod Appends
mod Examples
use Prim.Native.String
use secrets_broker.Base.{
  ℕ, ℤ, String, Bool, not, Option, none, some, List, [], ◌∷◌, Result, Check, ok, err, reject,
  map_err, ◌>>=◌, ◌>>◌, if◌then◌else◌,
}
use secrets_broker.Go.Slices.{text_take}
use secrets_broker.Securefile.{Node, FileError, open_append, created_or, validate_private_dir}
use secrets_broker.Broker.{StartRecord, FinishRecord}

-- `record`: one line. `timestamp` is in nanoseconds.
pub record AuditRecord : Type 0 where
  pub run_id : String
  pub timestamp : ℕ
  pub event : String
  pub project : String
  pub working_dir : String
  pub argv : List String
  pub outcome : String
  pub exit_code : Option ℤ

pub data AuditError : Type 0 where
  run_id_failed dir_not_created line_not_written line_not_synced : AuditError
  log_not_opened audit_dir_refused : FileError → AuditError

-- What the machine does in one call: the identifier that it draws, the time, the file that it makes when
-- there is none, how many characters a write that fails has written, and whether the sync succeeds.
pub record Machine : Type 0 where
  pub euid : ℕ
  pub new_id : Option String
  pub now : ℕ
  pub created : Option Node
  pub write_fails : Option ℕ
  pub syncs : Bool

abbrev pub content_of : Option Node → String
content_of none = ""
content_of (some n) = n.content

-- `f.Write`, and the sync after it.
write_text : Machine → Node → String → Option ℕ → Node × Check AuditError
write_text m n text (some count) =
    (record n { content = String.◌++◌ n.content (text_take count text) }, err line_not_written)
write_text m n text none =
    (record n { content = String.◌++◌ n.content text }, reject (not m.syncs) line_not_synced)

write_opened :
    Machine → String → Option Node → Result FileError Node → Option Node × Check AuditError
unfolding write_text
write_opened m line file (err e) = (file, err (log_not_opened e))
write_opened m line file (ok n) =
    let (n', r) = write_text m n (String.◌++◌ line "\n") m.write_fails in (some n', r)

-- `append`, of the encoded record.
unfoldable pub append_line : Machine → String → Option Node → Option Node × Check AuditError
unfolding write_opened open_append created_or
append_line m line file =
    write_opened m line (created_or m.euid m.created file) (open_append m.euid m.created file)

-- `NewJSONLLogger`: whether the directory can be made, and what `os.Stat` finds of it.
unfoldable pub new_logger : ℕ → Bool → Option Node → Check AuditError
unfolding validate_private_dir
new_logger euid made dir = do
  reject (not made) dir_not_created
  map_err audit_dir_refused (validate_private_dir euid dir)

module _ (encode : AuditRecord → String) where
  start_line : Machine → StartRecord → String → String
  start_line m rec id = encode (record {
    run_id = id;
    timestamp = m.now;
    event = "start";
    project = rec.project;
    working_dir = rec.working_dir;
    argv = rec.argv;
    outcome = "";
    exit_code = none;
  })

  start_drawn : Machine → StartRecord → Option String → Option Node → Option Node × Check AuditError
  unfolding start_line append_line
  start_drawn m rec none file = (file, err run_id_failed)
  start_drawn m rec (some id) file = append_line m (start_line m rec id) file

  -- `Start`; the identifier that it returns with success is `m.new_id`.
  unfoldable pub start : Machine → StartRecord → Option Node → Option Node × Check AuditError
  unfolding start_drawn
  start m rec file = start_drawn m rec m.new_id file

  finish_line : Machine → String → FinishRecord → String
  finish_line m id rec = encode (record {
    run_id = id;
    timestamp = m.now;
    event = "finish";
    project = "";
    working_dir = "";
    argv = [];
    outcome = rec.outcome;
    exit_code = rec.exit_code;
  })

  -- `Finish`.
  unfoldable pub finish :
      Machine → String → FinishRecord → Option Node → Option Node × Check AuditError
  unfolding finish_line append_line
  finish m id rec file = append_line m (finish_line m id rec) file

-- The calls of a log, each with what the machine does in it.
pub data LogCall : Type 0 where
  start_call : Machine → StartRecord → LogCall
  finish_call : Machine → String → FinishRecord → LogCall

module _ (encode : AuditRecord → String) where
  unfoldable pub log_call : LogCall → Option Node → Option Node × Check AuditError
  unfolding start finish
  log_call (start_call m rec) file = start encode m rec file
  log_call (finish_call m id rec) file = finish encode m id rec file

  -- The file after a sequence of calls, and what each has returned.
  unfoldable pub log_calls : List LogCall → Option Node → Option Node × List (Check AuditError)
  unfolding log_call
  log_calls [] file = (file, [])
  log_calls (c ∷ rest) file =
      let (file', r) = log_call c file in let (last, rs) = log_calls rest file' in (last, r ∷ rs)
