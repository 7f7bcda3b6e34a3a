-- ===== src/Admin/Files.antt =====
-- internal/admin/policy.go: `metadata`, `readPolicy`, `lockPolicy` and `writeAtomic`, on the policy file
-- that others may replace at any moment between two of their system calls. Every system call of the
-- write may fail. `digest` stands for the hexadecimal SHA-256 of a text.
pub mod Atomic
pub mod Readable
pub mod Reading
pub mod Faultless
use secrets_broker.Base.{
  ℕ, String, Bool, true, false, not, ◌&&◌, ◌||◌, Option, none, some, eqb, ltb, ◌==◌, if◌then◌else◌,
  Result, Check, ok, err, reject, map_err, ◌>>=◌, ◌>>◌,
}
use secrets_broker.Go.{byte_length, is_blank}
use secrets_broker.Config.{Config}
use secrets_broker.Config.Validate.{Url}
use secrets_broker.Config.Worker.{Decoder, parse, validate_worker}
use secrets_broker.Securefile.{
  Node, Perm, Access, Stat, is_regular, regular, overlaps, perm_022, perm_600, read,
  validate_trusted_dir, open_file,
}
use secrets_broker.Admin.Errors.{
  EditError, policy_folder_refused, policy_not_read, policy_not_locked, policy_not_found,
  policy_not_regular, policy_too_open, policy_owner_unknown, policy_owner_wrong,
  policy_changed_while_read, policy_changed, policy_busy, policy_not_loaded, policy_not_worker,
  policy_too_large, policy_lock_failed, policy_changed_before_lock, temp_not_created,
  temp_not_stated, temp_owner_unknown, temp_not_owned, temp_not_chmodded, temp_not_written,
  temp_not_synced, temp_not_closed, policy_changed_before_replacement, policy_not_replaced,
  folder_not_opened, folder_not_synced,
}

abbrev pub max_policy_bytes : ℕ
max_policy_bytes = 1_048_576

-- `fileMetadata`.
pub record FileMetadata : Type 0 where
  pub perm : Perm
  pub stat : Stat
  pub size : ℕ

abbrev same_bool : Bool → Bool → Bool
same_bool true b = b
same_bool false b = not b

abbrev same_access : Access → Access → Bool
same_access a b =
    same_bool a.reads b.reads && same_bool a.writes b.writes && same_bool a.executes b.executes

unfoldable pub same_perm : Perm → Perm → Bool
same_perm p q =
    same_access p.owner q.owner && same_access p.group q.group && same_access p.other q.other

unfoldable pub same_file : FileMetadata → FileMetadata → Bool
unfolding same_perm
same_file a b =
    eqb a.stat.dev b.stat.dev
    && eqb a.stat.ino b.stat.ino
    && eqb a.stat.uid b.stat.uid
    && eqb a.stat.gid b.stat.gid
    && same_perm a.perm b.perm
    && eqb a.size b.size
    && eqb a.stat.modified b.stat.modified

-- The moments between the system calls.
pub data Moment : Type 0 where
  reading content_reading rechecking locking checking temp_writing replacing : Moment

pub data Call : Type 0 where
  create_temp stat_temp chown_temp chmod_temp write_temp sync_temp close_temp remove_temp : Call
  open_policy rename open_folder sync_folder : Call

-- What `flock` answers.
pub data Lock : Type 0 where
  granted would_block refused : Lock

-- The machine: what the others do to the policy file, which calls fail, and what the calls yield.
pub record System : Type 0 where
  pub euid : ℕ
  pub others : Moment → Option Node → Option Node
  pub fails : Call → Bool
  pub readable : Bool
  pub policy_folder : Option Node
  pub flock : Bool → Lock
  pub temp_stat : Option Stat

-- The policy file, and the temporary file of an edit.
pub record Disk : Type 0 where
  pub policy : Option Node
  pub temp : Option Node

-- What `readPolicy` returns.
pub record Snapshot : Type 0 where
  pub text : String
  pub config : Config
  pub metadata : FileMetadata

-- The editor's fields; its path is that of the policy file of the disk.
pub record Editor : Type 0 where
  pub expected_owner : ℕ
  pub expected_revision : String

-- `WithRevision`.
abbrev pub with_revision : Editor → String → Editor
with_revision e revision = record e { expected_revision = revision }

-- `(*Editor).metadata`.
pub metadata_of : ℕ → Node → Option Stat → Result EditError FileMetadata
metadata_of owner n none = err policy_owner_unknown
metadata_of owner n (some s) = do
  reject (not (eqb s.uid owner)) policy_owner_wrong
  ok (record { perm = n.perm; stat = s; size = byte_length n.content })

unfoldable pub metadata : ℕ → Option Node → Result EditError FileMetadata
unfolding metadata_of overlaps
metadata owner none = err policy_not_found
metadata owner (some n) = do
  reject (not (is_regular n.kind)) policy_not_regular
  reject (overlaps n.perm perm_022) policy_too_open
  metadata_of owner n n.stat

module _ (sys : System) where
  unfoldable pub pass : Moment → Disk → Disk
  pass m d = record d { policy = sys.others m d.policy }

  -- `lockPolicy`.
  lock_answer : Lock → Bool → Check EditError
  lock_answer granted nonblocking = ok tt
  lock_answer would_block nonblocking =
      if nonblocking then err policy_busy else err policy_lock_failed
  lock_answer refused nonblocking = err policy_lock_failed

  unfoldable pub lock_policy : Option Node → Bool → Check EditError
  unfolding lock_answer open_file
  lock_policy path nonblocking = do
    map_err policy_not_locked (open_file path)
    reject (sys.fails open_policy) policy_lock_failed
    lock_answer (sys.flock nonblocking) nonblocking

  -- The policy file is still the one that was read.
  check_same : ℕ → FileMetadata → EditError → Option Node → Check EditError
  unfolding metadata same_file
  check_same owner original e path = do
    current ← metadata owner path
    reject (not (same_file original current)) e

  -- `os.CreateTemp` makes an empty file that only its owner may read and write.
  new_temp : Node
  new_temp = record {
    kind = regular;
    perm = perm_600;
    special_bits = false;
    stat = sys.temp_stat;
    content = "";
  }

  -- From `temp.Chown` to `temp.Close`.
  same_owner : Stat → Stat → Bool
  same_owner a b = eqb a.uid b.uid && eqb a.gid b.gid

  fill_owned : String → FileMetadata → Stat → Result EditError Node
  unfolding new_temp same_owner
  fill_owned text original s = do
    reject (not (same_owner s original.stat) && sys.fails chown_temp) temp_not_owned
    reject (sys.fails chmod_temp) temp_not_chmodded
    reject (sys.fails write_temp) temp_not_written
    reject (sys.fails sync_temp) temp_not_synced
    reject (sys.fails close_temp) temp_not_closed
    ok (record new_temp {
      perm = original.perm;
      stat = some (record s { uid = original.stat.uid; gid = original.stat.gid });
      content = text;
    })

  fill_stated : String → FileMetadata → Option Stat → Result EditError Node
  unfolding fill_owned
  fill_stated text original none = err temp_owner_unknown
  fill_stated text original (some s) = fill_owned text original s

  fill_temp : String → FileMetadata → Result EditError Node
  unfolding fill_stated
  fill_temp text original = do
    reject (sys.fails stat_temp) temp_not_stated
    fill_stated text original sys.temp_stat

  -- The deferred removal of the temporary file, whose error is ignored.
  discard : EditError → Disk → Disk × Check EditError
  discard e d = (if sys.fails remove_temp then d else record d { temp = none }, err e)

  sync_renamed : Disk → Disk × Check EditError
  sync_renamed d =
      if sys.fails open_folder
      then (d, err folder_not_opened)
      else if sys.fails sync_folder
      then (d, err folder_not_synced)
      else (d, ok tt)

  rename_temp : Check EditError → Disk → Disk × Check EditError
  unfolding pass discard sync_renamed
  rename_temp (err e) d = discard e d
  rename_temp (ok _) d =
      if sys.fails rename
      then discard policy_not_replaced (pass replacing d)
      else sync_renamed (record { policy = d.temp; temp = none })

  module _ (e : Editor) (text : String) (original : FileMetadata) where
    with_filled : Result EditError Node → Disk → Disk × Check EditError
    unfolding rename_temp pass check_same discard
    with_filled (err e') d = discard e' d
    with_filled (ok t) d =
        let d' = pass temp_writing (record d { temp = some t }) in
        rename_temp
          (check_same e.expected_owner original policy_changed_before_replacement d'.policy) d'

    with_temp : Check EditError → Disk → Disk × Check EditError
    unfolding with_filled fill_temp new_temp
    with_temp (err e') d = (d, err e')
    with_temp (ok _) d =
        if sys.fails create_temp
        then (d, err temp_not_created)
        else with_filled (fill_temp text original) (record d { temp = some new_temp })

    with_lock : Check EditError → Disk → Disk × Check EditError
    unfolding with_temp pass check_same
    with_lock (err e') d = (d, err e')
    with_lock (ok _) d =
        let d' = pass checking d in
        with_temp (check_same e.expected_owner original policy_changed_before_lock d'.policy) d'

    unfoldable pub write_atomic : Disk → Disk × Check EditError
    unfolding with_lock lock_policy pass
    write_atomic d =
        if ltb max_policy_bytes (byte_length text)
        then (d, err policy_too_large)
        else let d' = pass locking d in
          with_lock (lock_policy d'.policy (not (is_blank e.expected_revision))) d'

  -- `readPolicy`, by the policy file at the three moments at which it is looked at.
  module _ (parse_url : String → Option Url) (decode : Decoder) (digest : String → String)
      (e : Editor) where
    pub loaded : String → FileMetadata → Result EditError Snapshot
    unfolding parse validate_worker
    loaded text after = do
      reject (not (is_blank e.expected_revision) && not (digest text == e.expected_revision))
          policy_changed
      c ← map_err policy_not_loaded (parse parse_url decode text)
      map_err policy_not_worker (validate_worker c)
      ok (record { text = text; config = c; metadata = after })

    pub snapshot : Option Node → Option Node → Option Node → Result EditError Snapshot
    unfolding loaded metadata read same_file validate_trusted_dir
    snapshot first second third = do
      map_err policy_folder_refused (validate_trusted_dir sys.euid sys.policy_folder)
      before ← metadata e.expected_owner first
      text ←
          map_err policy_not_read (read sys.euid second sys.readable max_policy_bytes perm_022 true)
      after ← metadata e.expected_owner third
      reject (not (same_file before after)) policy_changed_while_read
      loaded text after

    unfoldable pub read_policy : Disk → Disk × Result EditError Snapshot
    unfolding snapshot pass
    read_policy d =
        let d1 = pass reading d in
        let d2 = pass content_reading d1 in
        let d3 = pass rechecking d2 in (d3, snapshot d1.policy d2.policy d3.policy)
