-- ===== src/Admin/PathCheck.antt =====
-- internal/admin/path.go: whether the worker and the runner can enter a project's directory. What
-- `filepath.EvalSymlinks` and `os.Stat` find, and the runs of `runuser`, are parameters.
pub mod Ready
use secrets_broker.Base.{
  String, Option, none, some, Bool, true, false, not, ◌&&◌, List, [], ◌∷◌, ltb, ◌==◌, ℤ, is_zero,
  if◌then◌else◌, Result, ok, err, reject, ◌>>=◌, ◌>>◌,
}
use secrets_broker.Go.{is_blank}
use secrets_broker.Admin.Editor.{ProjectDetail}

abbrev pub path_resolved : String
path_resolved = "resolved"

abbrev pub path_missing : String
path_missing = "missing"

abbrev pub path_not_directory : String
path_not_directory = "not_directory"

abbrev pub path_unresolvable : String
path_unresolvable = "unresolvable"

pub record PathCheckResult : Type 0 where
  pub alias : String
  pub configured_path : String
  pub resolved_path : String
  pub resolution : String
  pub worker_can_enter : Bool
  pub runner_can_enter : Bool
  pub runner_can_write : Bool

-- `Ready`.
unfoldable pub is_ready : PathCheckResult → Bool
is_ready r = (r.resolution == path_resolved) && r.worker_can_enter && r.runner_can_enter

-- What a look at the file system finds; `not_there` is `fs.ErrNotExist`.
pub data Lookup (A : Type 0) : Type 0 where
  not_there not_found_out : Lookup A
  there : A → Lookup A

-- A finished process; `none` stands for an error of the runner.
pub record Probe : Type 0 where
  pub exit : ℤ
  pub stdout : String
  pub stderr : String

pub data PathError : Type 0 where
  worker_probe_failed runner_probe_failed write_probe_failed : PathError

pub probe_args : String → String → String → List String
probe_args user check path = "-u" ∷ user ∷ "--" ∷ "/usr/bin/test" ∷ check ∷ path ∷ []

exit_answer : PathError → ℤ → Result PathError Bool
exit_answer e (ℤ.pos n) = if ltb 1 n then err e else ok (is_zero (ℤ.pos n))
exit_answer e (ℤ.negsuc n) = err e

probe_answer : PathError → Option Probe → Result PathError Bool
unfolding exit_answer
probe_answer e none = err e
probe_answer e (some p) = do
  reject (not (is_blank p.stdout && is_blank p.stderr)) e
  exit_answer e p.exit

unresolved : ProjectDetail → String → PathCheckResult
unresolved p resolution = record {
  alias = p.alias;
  configured_path = p.working_dir;
  resolved_path = "";
  resolution = resolution;
  worker_can_enter = false;
  runner_can_enter = false;
  runner_can_write = false;
}

module _ (eval_symlinks : String → Lookup String) (is_dir : String → Lookup Bool)
    (runuser : List String → Option Probe) where
  -- `probePath`.
  unfoldable pub probe_path : PathError → String → String → String → Result PathError Bool
  unfolding probe_answer probe_args
  probe_path e user check path = probe_answer e (runuser (probe_args user check path))

  probe_write : Bool → String → Result PathError Bool
  unfolding probe_path
  probe_write false path = ok false
  probe_write true path = probe_path write_probe_failed "secrets-broker-runner" "-w" path

  unfoldable pub probe_resolved : ProjectDetail → String → Result PathError PathCheckResult
  unfolding probe_path probe_write
  probe_resolved p resolved = do
    worker ← probe_path worker_probe_failed "secrets-broker" "-x" p.working_dir
    runner ← probe_path runner_probe_failed "secrets-broker-runner" "-x" p.working_dir
    writes ← probe_write runner p.working_dir
    ok (record {
      alias = p.alias;
      configured_path = p.working_dir;
      resolved_path = resolved;
      resolution = path_resolved;
      worker_can_enter = worker;
      runner_can_enter = runner;
      runner_can_write = writes;
    })

  with_stat : ProjectDetail → String → Lookup Bool → Result PathError PathCheckResult
  unfolding unresolved probe_resolved
  with_stat p resolved not_there = ok (unresolved p path_missing)
  with_stat p resolved not_found_out = ok (unresolved p path_unresolvable)
  with_stat p resolved (there false) = ok (unresolved p path_not_directory)
  with_stat p resolved (there true) = probe_resolved p resolved

  with_resolved : ProjectDetail → Lookup String → Result PathError PathCheckResult
  unfolding unresolved with_stat
  with_resolved p not_there = ok (unresolved p path_missing)
  with_resolved p not_found_out = ok (unresolved p path_unresolvable)
  with_resolved p (there resolved) = with_stat p resolved (is_dir resolved)

  -- `checkProjectPath`.
  unfoldable pub check_project_path : ProjectDetail → Result PathError PathCheckResult
  unfolding with_resolved
  check_project_path p = with_resolved p (eval_symlinks p.working_dir)
