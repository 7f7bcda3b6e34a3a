-- ===== src/Admin/Files/Faultless.antt =====
-- A write succeeds when nobody interferes and no call fails.
use secrets_broker.Base.{
  ◌≤◌, String, ◌≡◌, refl, Bool, true, false, not, ◌&&◌, Option, none, some, ok, ltb, arith,
}
use secrets_broker.Go.{byte_length, is_blank}
use secrets_broker.Securefile.{Node, Stat, open_file}
use secrets_broker.Admin.Files.{
  System, Editor, Disk, FileMetadata, Moment, Call, granted, max_policy_bytes, metadata, pass,
  lock_policy, lock_answer, check_same, sync_renamed, rename_temp, with_filled, with_temp,
  with_lock, write_atomic, fill_owned, fill_stated, fill_temp, new_temp, temp_writing, checking,
  locking, create_temp, stat_temp, chown_temp, chmod_temp, write_temp, sync_temp, close_temp,
  open_policy, rename, open_folder, sync_folder, same_owner,
}
use secrets_broker.Admin.Files.Readable.{same_file_refl}

and_false : (b : Bool) → (b && false) ≡ false
and_false true = refl
and_false false = refl

-- A machine on which no call fails and nobody else changes the policy file.
pub record IsFaultless (sys : System) : Type 0 where
  pub quiet : (m : Moment) (path : Option Node) → sys.others m path ≡ path
  pub calls : (c : Call) → sys.fails c ≡ false
  pub lock : (nonblocking : Bool) → sys.flock nonblocking ≡ granted
  pub temp : Stat
  pub has_temp : sys.temp_stat ≡ some temp

module _ (sys : System) (e : Editor) (faultless : IsFaultless sys) where
  open faultless use {quiet, calls, lock, temp, has_temp}

  fill_owned-faultless :
      (text : String) (m : FileMetadata) (st : Stat)
      → (t : Node) × (fill_owned sys text m st ≡ ok t)
  unfolding fill_owned
  fill_owned-faultless text m st = (
    record (new_temp sys) {
      perm = m.perm;
      stat = some (record st { uid = m.stat.uid; gid = m.stat.gid });
      content = text;
    },
    rw
        (
          calls chown_temp,
          and_false (not (same_owner sys st m.stat)),
          calls chmod_temp,
          calls write_temp,
          calls sync_temp,
          calls close_temp,
        )
        refl,
  )

  fill_stated-faultless :
      (text : String) (m : FileMetadata) (o : Option Stat)
      → o ≡ some temp
      → (t : Node) × (fill_stated sys text m o ≡ ok t)
  unfolding fill_stated
  fill_stated-faultless text m none h = cc
  fill_stated-faultless text m (some st) h = fill_owned-faultless text m st

  fill_temp-faultless :
      (text : String) (m : FileMetadata) → (t : Node) × (fill_temp sys text m ≡ ok t)
  unfolding fill_temp
  fill_temp-faultless text m =
      let (t, filled) = fill_stated-faultless text m sys.temp_stat has_temp in
      (t, rw (calls stat_temp) filled)

  pub write_atomic-faultless :
      (text : String) (d : Disk) (n : Node) (m : FileMetadata)
      → byte_length text ≤ max_policy_bytes
      → d.policy ≡ some n
      → metadata e.expected_owner (some n) ≡ ok m
      → open_file (some n) ≡ ok n
      → (write_atomic sys e text m d).1 ≡ ok tt
  unfolding write_atomic with_lock with_temp with_filled rename_temp sync_renamed pass check_same
      lock_policy lock_answer
  write_atomic-faultless text d n m small has meta opens =
      rw
        (
          small_lem,
          quiet locking d.policy,
          has,
          opens,
          calls open_policy,
          lock (not (is_blank e.expected_revision)),
          quiet checking (some n),
          meta,
          same_file_refl m,
          calls create_temp,
          (fill_temp-faultless text m).1,
          quiet temp_writing (some n),
          meta,
          same_file_refl m,
          calls rename,
          calls open_folder,
          calls sync_folder,
        )
        (ground arith)
    where
      small_lem : ltb max_policy_bytes (byte_length text) ≡ false
      small_lem = ground arith
