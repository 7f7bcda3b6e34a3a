-- ===== src/Worker/RuntimeCheck.antt =====
-- internal/worker/check.go: the check of the worker's policy and runtime, which runs nothing. The policy
-- and the runtime's checks are those of the server's `World`; `look` and `stat` tell what
-- `filepath.EvalSymlinks` and `os.Stat` find, `stat` whether it is a directory.
pub mod Passed
mod Examples
use secrets_broker.Base.{
  ℕ, String, Option, none, some, Bool, not, List, [], ◌∷◌, length, eqb, if◌then◌else◌, Result,
  Check, ok, err, reject, map_err, ◌>>=◌, ◌>>◌,
}
use secrets_broker.Config.{Project}
use secrets_broker.Config.Worker.{LoadError, WorkerInvalid, load_worker, validate_worker}
use secrets_broker.Securefile.{Node, FileError, validate_private_file}
use secrets_broker.Worker.Server.{World, validate_runtime}

pub record CheckResult : Type 0 where
  pub projects : ℕ
  pub token_bytes : ℕ

pub data CheckError : Type 0 where
  runtime_invalid token_empty : CheckError
  not_loaded : LoadError → CheckError
  not_worker : WorkerInvalid → CheckError
  token_refused : FileError → CheckError
  dir_unresolved dir_not_stated dir_not_directory : String → CheckError

-- `token.MaxFileBytes`.
abbrev pub max_file_bytes : ℕ
max_file_bytes = 65536

unfoldable pub stat_dir : String → Option Bool → Check CheckError
stat_dir alias none = err (dir_not_stated alias)
stat_dir alias (some is_dir) = reject (not is_dir) (dir_not_directory alias)

module _ (w : World) (euid : ℕ) (token_file : String → Option Node)
    (stat : String → Option Bool) where
  unfoldable pub check_resolved : String → Option String → Check CheckError
  unfolding stat_dir
  check_resolved alias none = err (dir_unresolved alias)
  check_resolved alias (some resolved) = stat_dir alias (stat resolved)

  -- The loop over the projects.
  unfoldable pub check_dirs : List Project → Check CheckError
  unfolding check_resolved
  check_dirs [] = ok tt
  check_dirs (p ∷ rest) = do check_resolved p.alias (w.eval_symlinks p.working_dir); check_dirs rest

  -- `Check`.
  unfoldable pub check : Result CheckError CheckResult
  unfolding check_dirs load_worker validate_worker validate_runtime validate_private_file
  check = do
    cfg ← map_err not_loaded (load_worker w.parse_url w.decode w.policy)
    map_err not_worker (validate_worker cfg)
    reject (not (validate_runtime w cfg.runtime)) runtime_invalid
    size ←
        map_err token_refused
          (validate_private_file euid (token_file cfg.token_source.file_path) max_file_bytes)
    reject (eqb size 0) token_empty
    check_dirs cfg.projects
    ok (record { projects = length cfg.projects; token_bytes = size })
