-- ===== src/Admin/Access.antt =====
-- internal/admin/access.go: how the administrator has the worker check the access to the projects. The
-- runner is a function from the arguments of `runuser` to what the process leaves; `is_print`, and the
-- strict JSON decoders, whose flag tells that nothing follows the object, are parameters.
pub mod Worker
pub mod Diagnostic
mod Examples
use secrets_broker.Base.{
  ℕ, String, Option, none, some, Bool, true, false, not, ◌&&◌, ◌||◌, List, [], ◌∷◌, ◌++◌, ltb, eqb,
  ◌==◌, ℤ, if◌then◌else◌, Result, ok, err, reject, map_err, ◌>>=◌, ◌>>◌,
}
use secrets_broker.Go.{is_blank}
use secrets_broker.Accessdiag.{AccessResult, outcome_all_accessible}
use secrets_broker.Accessdiag as Accessdiag
use secrets_broker.Projectlist.{ProjectList, validate_list}

abbrev pub access_output_limit : ℕ
access_output_limit = 2097152

-- The exit code, `none` for an error of the runner, and the two bounded buffers.
pub record Ran : Type 0 where
  pub exit : Option ℤ
  pub stdout : String
  pub stdout_exceeded : Bool
  pub stderr : String
  pub stderr_exceeded : Bool

pub data CheckerError : Type 0 where
  diagnostic_failed diagnostic_invalid list_failed list_invalid : CheckerError

-- The arguments of `/usr/sbin/runuser`.
abbrev pub worker_args : List String → List String
worker_args args =
    "-u" ∷ "secrets-broker" ∷ "--" ∷ "/usr/local/libexec/secrets-broker-worker" ∷ args

abbrev pub check_args : String → List String
check_args alias = if is_blank alias then "access-check" ∷ [] else "access-check" ∷ alias ∷ []

-- Neither buffer has overflowed, and nothing was written to the standard error.
unfoldable pub is_clean : Ran → Bool
is_clean r = not r.stdout_exceeded && not r.stderr_exceeded && is_blank r.stderr

-- The exit code zero is to tell that all is accessible, and one that it is not.
unfoldable pub exit_agrees : ℕ → String → Bool
exit_agrees code outcome = eqb code (if outcome == outcome_all_accessible then 0 else 1)

usable_code : CheckerError → Option ℤ → Result CheckerError ℕ
usable_code e none = err e
usable_code e (some (ℤ.pos n)) = ok n
usable_code e (some (ℤ.negsuc n)) = err e

decoded : {A : Type 0} → CheckerError → Option (A × Bool) → Result CheckerError A
decoded e none = err e
decoded e (some (a, true)) = ok a
decoded e (some (a, false)) = err e

module _ (is_print : ℕ → Bool) (runner : List String → Ran) where
  unfoldable pub read_diagnosis :
      (String → Option (AccessResult × Bool)) → Ran → Result CheckerError AccessResult
  unfolding is_clean exit_agrees usable_code decoded Accessdiag.validate
  read_diagnosis decode r = do
    reject (not (is_clean r)) diagnostic_failed
    code ← usable_code diagnostic_failed r.exit
    reject (ltb 1 code) diagnostic_failed
    result ← decoded diagnostic_invalid (decode r.stdout)
    map_err (λ e. diagnostic_invalid) (Accessdiag.validate is_print result)
    reject (not (exit_agrees code result.outcome)) diagnostic_invalid
    ok result

  -- `WorkerAccessChecker.CheckAccess`.
  unfoldable pub check_access :
      (String → Option (AccessResult × Bool)) → String → Result CheckerError AccessResult
  unfolding read_diagnosis
  check_access decode alias = read_diagnosis decode (runner (worker_args (check_args alias)))

  unfoldable pub read_listing :
      (String → Option (ProjectList × Bool)) → Ran → Result CheckerError ProjectList
  unfolding is_clean usable_code decoded validate_list
  read_listing decode r = do
    code ← usable_code list_failed r.exit
    reject (not (eqb code 0 && is_clean r)) list_failed
    result ← decoded list_invalid (decode r.stdout)
    map_err (λ e. list_invalid) (validate_list is_print result)
    ok result

  -- `WorkerAccessChecker.ListAvailable`.
  unfoldable pub list_available :
      (String → Option (ProjectList × Bool)) → Result CheckerError ProjectList
  unfolding read_listing
  list_available decode = read_listing decode (runner (worker_args ("projects-list" ∷ [])))
