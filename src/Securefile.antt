-- ===== src/Securefile.antt =====
-- internal/securefile/securefile.go: the checks of a file's metadata. A file is what stands at a path;
-- `readable` tells whether its content can be read, and `euid` is the process's effective user.
pub mod Checks
mod Examples
use secrets_broker.Base.{
  ℕ, String, Bool, true, false, not, ◌&&◌, ◌||◌, Option, none, some, eqb, ltb, if◌then◌else◌,
  Result, Check, ok, err, reject, ◌>>=◌, ◌>>◌,
}
use secrets_broker.Go.{byte_length}

pub data Kind : Type 0 where
  regular symlink folder special : Kind

abbrev pub is_regular : Kind → Bool
is_regular regular = true
is_regular _ = false

abbrev pub is_symlink : Kind → Bool
is_symlink symlink = true
is_symlink _ = false

abbrev pub is_folder : Kind → Bool
is_folder folder = true
is_folder _ = false

-- `os.FileMode.Perm`, for the owner, the group and the others.
pub record Access : Type 0 where
  pub reads : Bool
  pub writes : Bool
  pub executes : Bool

pub record Perm : Type 0 where
  pub owner : Access
  pub group : Access
  pub other : Access

abbrev access : Bool → Bool → Bool → Access
access r w x = record { reads = r; writes = w; executes = x }

abbrev pub perm_022 : Perm
perm_022 = record {
  owner = access false false false;
  group = access false true false;
  other = access false true false;
}

abbrev pub perm_077 : Perm
perm_077 = record {
  owner = access false false false;
  group = access true true true;
  other = access true true true;
}

abbrev pub perm_111 : Perm
perm_111 = record {
  owner = access false false true;
  group = access false false true;
  other = access false false true;
}

abbrev pub perm_600 : Perm
perm_600 = record {
  owner = access true true false;
  group = access false false false;
  other = access false false false;
}

abbrev pub perm_700 : Perm
perm_700 = record {
  owner = access true true true;
  group = access false false false;
  other = access false false false;
}

abbrev access_overlaps : Access → Access → Bool
access_overlaps a b = a.reads && b.reads || a.writes && b.writes || a.executes && b.executes

-- `perm&mask != 0`.
unfoldable pub overlaps : Perm → Perm → Bool
overlaps p mask =
    access_overlaps p.owner mask.owner
    || access_overlaps p.group mask.group
    || access_overlaps p.other mask.other

-- What the program reads of a `syscall.Stat_t`.
pub record Stat : Type 0 where
  pub uid : ℕ
  pub gid : ℕ
  pub dev : ℕ
  pub ino : ℕ
  pub modified : ℕ

-- A file or a directory. `special_bits` tells of the setuid, the setgid and the sticky bit.
pub record Node : Type 0 where
  pub kind : Kind
  pub perm : Perm
  pub special_bits : Bool
  pub stat : Option Stat
  pub content : String

pub data FileError : Type 0 where
  not_opened not_regular too_open unknown_owner wrong_owner not_read too_large : FileError
  not_executable no_stat not_directory : FileError

-- `open`: with `O_NOFOLLOW`, a symbolic link is not opened.
unfoldable pub open_file : Option Node → Result FileError Node
open_file none = err not_opened
open_file (some n) = if is_symlink n.kind then err not_opened else ok n

module _ (euid : ℕ) where
  unfoldable pub is_owner : Stat → Bool → Bool
  is_owner s allow_root = eqb s.uid euid || allow_root && eqb s.uid 0

  unfoldable pub validate_owner : Option Stat → Bool → Check FileError
  unfolding is_owner
  validate_owner none allow_root = err unknown_owner
  validate_owner (some s) allow_root = reject (not (is_owner s allow_root)) wrong_owner

  -- `validate`.
  unfoldable pub validate_node : Node → Perm → Bool → Check FileError
  unfolding validate_owner overlaps
  validate_node n forbidden allow_root = do
    reject (not (is_regular n.kind)) not_regular
    reject (overlaps n.perm forbidden) too_open
    validate_owner n.stat allow_root

  unfoldable pub read : Option Node → Bool → ℕ → Perm → Bool → Result FileError String
  unfolding open_file validate_node
  read path readable max_bytes forbidden allow_root = do
    n ← open_file path
    validate_node n forbidden allow_root
    reject (not readable) not_read
    reject (ltb max_bytes (byte_length n.content)) too_large
    ok n.content

  unfoldable pub validate_private_file : Option Node → ℕ → Result FileError ℕ
  unfolding open_file validate_node
  validate_private_file path max_bytes = do
    n ← open_file path
    validate_node n perm_077 false
    reject (ltb max_bytes (byte_length n.content)) too_large
    ok (byte_length n.content)

  -- `OpenAppend`; `created` is the empty file that opening a missing one makes, if it can.
  unfoldable pub created_or : Option Node → Option Node → Option Node
  created_or created none = created
  created_or created (some n) = some n

  unfoldable pub open_append : Option Node → Option Node → Result FileError Node
  unfolding open_file validate_node created_or
  open_append created path = do
    n ← open_file (created_or created path)
    validate_node n perm_077 false
    ok n

  -- `ValidatePrivateDir` and `ValidateTrustedDir`, of what `os.Stat` finds.
  validate_dir : Option Node → Perm → Bool → Check FileError
  unfolding validate_owner overlaps
  validate_dir none forbidden allow_root = err no_stat
  validate_dir (some n) forbidden allow_root = do
    reject (not (is_folder n.kind)) not_directory
    reject (overlaps n.perm forbidden) too_open
    validate_owner n.stat allow_root

  unfoldable pub validate_private_dir : Option Node → Check FileError
  unfolding validate_dir
  validate_private_dir path = validate_dir path perm_077 false

  unfoldable pub validate_trusted_dir : Option Node → Check FileError
  unfolding validate_dir
  validate_trusted_dir path = validate_dir path perm_022 true

  unfoldable pub validate_executable : Option Node → Check FileError
  unfolding open_file validate_node overlaps
  validate_executable path = do
    n ← open_file path
    validate_node n perm_022 true
    reject (not (overlaps n.perm perm_111)) not_executable
