-- ===== src/Admin/ArtifactFiles.antt =====
-- internal/admin/recovery.go: the directory of the recovery artifacts, one file for each removed project, and
-- its readers `List` and `Read`. The JSON encoder and decoder and the hexadecimal SHA-256 (`digest`) are
-- parameters.
use Prim.Native.String.{compare}
use text.Mathlib.Text.{is_lt}
use secrets_broker.Base.{
  ℕ, String, code, Bool, true, false, not, ◌&&◌, ◌||◌, Option, none, some, List, [], ◌∷◌, eqb, leb,
  ltb, ◌==◌, if◌then◌else◌, Result, Check, ok, err, reject, map_err, ◌>>=◌, ◌>>◌,
}
use secrets_broker.Go.{byte_length, is_blank}
use secrets_broker.Securefile.{
  Node, Stat, is_regular, is_folder, is_symlink, perm_077, perm_600, perm_700, read,
}
use secrets_broker.Admin.Files.{same_perm}
use secrets_broker.Admin.Errors.{
  RecoveryError, recovery_id_invalid, recovery_dir_not_found, recovery_dir_not_folder,
  recovery_dir_mode, recovery_dir_special_bits, recovery_identity, recovery_not_found,
  recovery_not_regular, recovery_mode, recovery_special_bits, recovery_size, recovery_not_decoded,
  recovery_trailing, recovery_version, recovery_id_mismatch, recovery_alias_empty,
  recovery_time_empty, recovery_digest, recovery_digest_mismatch, recovery_not_read,
  recovery_unsafe,
}

abbrev pub recovery_artifact_version : ℕ
recovery_artifact_version = 1

abbrev pub max_recovery_artifact_bytes : ℕ
max_recovery_artifact_bytes = 2_097_152

pub record RecoverySummary : Type 0 where
  pub recovery_id : String
  pub project : String
  pub created_at : ℕ

pub record RecoveryArtifactInput : Type 0 where
  pub recovery_id : String
  pub project : String
  pub before : String
  pub after : String

-- `created_at` is 0 for Go's zero time.
pub record RecoveryArtifact : Type 0 where
  pub version : ℕ
  pub recovery_id : String
  pub created_at : ℕ
  pub project : String
  pub before_sha256 : String
  pub after_sha256 : String
  pub policy : String

-- `[0-9a-f]`.
abbrev is_hex : ℕ → Bool
is_hex c = leb b'0' c && leb c b'9' || leb b'a' c && leb c b'f'

unfoldable pub all_hex : String → Bool
all_hex String.[] = true
all_hex (String.◌∷◌ c s) = is_hex (code c) && all_hex s

-- `validateRecoveryID` and `validateDigest`.
unfoldable pub validate_recovery_id : String → Check RecoveryError
unfolding all_hex byte_length
validate_recovery_id id = reject (not (eqb (byte_length id) 32 && all_hex id)) recovery_id_invalid

unfoldable pub validate_digest : String → Check RecoveryError
unfolding all_hex byte_length
validate_digest value = do
  reject (not (eqb (byte_length value) 64)) recovery_digest
  reject (not (all_hex value)) recovery_digest

-- The directory and its files by name; their order only decides which of several bad files `List` names.
-- `temp` is the temporary file of a publication.
pub record RecoveryDir : Type 0 where
  pub dir : Option Node
  pub files : List (String × Node)
  pub temp : Option Node

pub data RecoveryCall : Type 0 where
  create chmod write sync close link remove_temp remove_final sync_dir : RecoveryCall

-- The store's fields, and the machine.
pub record RecoveryStore : Type 0 where
  pub expected_owner : ℕ
  pub expected_group : ℕ
  pub euid : ℕ
  pub now : ℕ
  pub fails : RecoveryCall → Bool
  pub readable : Bool
  pub temp_stat : Option Stat

unfoldable pub find_file : String → List (String × Node) → Option Node
find_file name [] = none
find_file name (f ∷ rest) =
    let later = find_file name rest in if f.0 == name then some f.1 else later

unfoldable pub is_before : RecoverySummary → RecoverySummary → Bool
is_before a b =
    if eqb a.created_at b.created_at
    then is_lt (compare a.recovery_id b.recovery_id)
    else ltb a.created_at b.created_at

-- `sort.Slice`.
insert_summary : RecoverySummary → List RecoverySummary → List RecoverySummary
unfolding is_before
insert_summary a [] = a ∷ []
insert_summary a (b ∷ rest) =
    let later = b ∷ insert_summary a rest in if is_before a b then a ∷ b ∷ rest else later

sort_summaries : List RecoverySummary → List RecoverySummary
unfolding insert_summary
sort_summaries [] = []
sort_summaries (a ∷ rest) = insert_summary a (sort_summaries rest)

summary_of : RecoveryArtifact → RecoverySummary
summary_of a = record {
  recovery_id = a.recovery_id;
  project = a.project;
  created_at = a.created_at;
}

module _ (encode : RecoveryArtifact → String)
    (decode_json : String → Option (RecoveryArtifact × Bool)) (digest : String → String)
    (s : RecoveryStore) where
  -- `validateExpectedIdentity`.
  unfoldable pub validate_identity : Option Stat → Check RecoveryError
  validate_identity none = err recovery_identity
  validate_identity (some st) = do
    reject (not (eqb st.uid s.expected_owner)) recovery_identity
    reject (not (eqb st.gid s.expected_group)) recovery_identity

  unfoldable pub validate_recovery_dir : Option Node → Check RecoveryError
  unfolding validate_identity same_perm
  validate_recovery_dir none = err recovery_dir_not_found
  validate_recovery_dir (some n) = do
    reject (not (is_folder n.kind) || is_symlink n.kind) recovery_dir_not_folder
    reject (not (same_perm n.perm perm_700)) recovery_dir_mode
    reject n.special_bits recovery_dir_special_bits
    validate_identity n.stat

  unfoldable pub validate_recovery_file : Option Node → Check RecoveryError
  unfolding validate_identity same_perm
  validate_recovery_file none = err recovery_not_found
  validate_recovery_file (some n) = do
    reject (not (is_regular n.kind) || is_symlink n.kind) recovery_not_regular
    reject (not (same_perm n.perm perm_600)) recovery_mode
    reject n.special_bits recovery_special_bits
    validate_identity n.stat
    reject (ltb max_recovery_artifact_bytes (byte_length n.content)) recovery_size

  unfoldable pub validate_recovery_artifact : RecoveryArtifact → String → Check RecoveryError
  unfolding validate_digest
  validate_recovery_artifact a id = do
    reject (not (eqb a.version recovery_artifact_version)) recovery_version
    reject (not (a.recovery_id == id)) recovery_id_mismatch
    reject (is_blank a.project) recovery_alias_empty
    reject (eqb a.created_at 0) recovery_time_empty
    validate_digest a.before_sha256
    validate_digest a.after_sha256
    reject (not (digest a.policy == a.before_sha256)) recovery_digest_mismatch

  -- The strict decoder with `requireJSONEOF`; the flag tells that nothing follows the object.
  unfoldable pub decoded : Option (RecoveryArtifact × Bool) → Result RecoveryError RecoveryArtifact
  decoded none = err recovery_not_decoded
  decoded (some (a, true)) = ok a
  decoded (some (a, false)) = err recovery_trailing

  unfoldable pub read_artifact : String → RecoveryDir → Result RecoveryError RecoveryArtifact
  unfolding validate_recovery_id validate_recovery_dir validate_recovery_file find_file read decoded
      validate_recovery_artifact
  read_artifact id d = do
    validate_recovery_id id
    validate_recovery_dir d.dir
    validate_recovery_file (find_file id d.files)
    text ←
        map_err recovery_not_read
          (read s.euid (find_file id d.files) s.readable max_recovery_artifact_bytes perm_077 false)
    a ← decoded (decode_json text)
    validate_recovery_artifact a id
    ok a

  read_all : RecoveryDir → List (String × Node) → Result RecoveryError (List RecoverySummary)
  unfolding read_artifact validate_recovery_id summary_of
  read_all d [] = ok []
  read_all d (f ∷ rest) = do
    map_err (recovery_unsafe f.0) (validate_recovery_id f.0)
    a ← map_err (recovery_unsafe f.0) (read_artifact f.0 d)
    later ← read_all d rest
    ok (summary_of a ∷ later)

  -- A leftover temporary file is an entry whose name is no identifier.
  temp_refused : Option Node → Check RecoveryError
  temp_refused none = ok tt
  temp_refused (some n) = err (recovery_unsafe ".recovery.tmp" recovery_id_invalid)

  unfoldable pub list_artifacts : RecoveryDir → Result RecoveryError (List RecoverySummary)
  unfolding read_all validate_recovery_dir sort_summaries temp_refused
  list_artifacts d = do
    validate_recovery_dir d.dir
    temp_refused d.temp
    summaries ← read_all d d.files
    ok (sort_summaries summaries)
