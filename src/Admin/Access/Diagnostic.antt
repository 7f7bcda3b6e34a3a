-- ===== src/Admin/Access/Diagnostic.antt =====
-- internal/admin/access.go: `AuditedAccessDiagnostic`, which writes a start record before what the checker
-- does and a finish record after the caller has consumed the result. The logger, the checker and the caller are
-- the record `DiagnosticEnv`; the calls made are a list, newest first.
pub mod Complete
use secrets_broker.Base.{
  ℕ, String, Option, none, some, Bool, false, ◌&&◌, List, [], ◌∷◌, Result, ok, err, if◌then◌else◌,
}
use secrets_broker.Accessdiag.{AccessResult}
use secrets_broker.Projectlist.{ProjectList}
use secrets_broker.Admin.Access.{CheckerError}
use secrets_broker.Admin.Audited.{MutationStart, MutationFinish}

abbrev pub outcome_failed : String
outcome_failed = "failed"

pub data DiagnosticCall (A : Type 0) : Type 0 where
  started : MutationStart → Option String → DiagnosticCall A
  checked : Result CheckerError A → DiagnosticCall A
  consumed : A → Bool → DiagnosticCall A
  finished : String → MutationFinish → Bool → DiagnosticCall A

pub record DiagnosticEnv (A : Type 0) : Type 0 where
  pub start : MutationStart → Option String
  pub check : Result CheckerError A
  pub consume : A → Bool
  pub finish : String → MutationFinish → Bool

-- What is returned, with the joined errors as whether there was none.
pub record Diagnosed (A : Type 0) : Type 0 where
  pub outcome : String
  pub succeeded : Bool
  pub calls : List (DiagnosticCall A)

pub finish_of : String → MutationFinish
finish_of outcome = record { outcome = outcome; actor_login = "" }

module _ {A : Type 0} (env : DiagnosticEnv A) (logged : A → String) (returned : A → String) where
  finish_checked : String → String → String → Bool → List (DiagnosticCall A) → Diagnosed A
  unfolding finish_of
  finish_checked id outcome told good calls =
      let written = env.finish id (finish_of outcome) in
      record {
        outcome = told;
        succeeded = good && written;
        calls = finished id (finish_of outcome) written ∷ calls;
      }

  after_check : String → Result CheckerError A → List (DiagnosticCall A) → Diagnosed A
  unfolding finish_checked
  after_check id (err e) calls = finish_checked id outcome_failed "" false calls
  after_check id (ok a) calls =
      let good = env.consume a in
      finish_checked id (if good then logged a else outcome_failed) (returned a) good
        (consumed a good ∷ calls)

  started_check : MutationStart → Option String → Diagnosed A
  unfolding after_check
  started_check rec none = record { outcome = ""; succeeded = false; calls = started rec none ∷ [] }
  started_check rec (some id) =
      after_check id env.check (checked env.check ∷ started rec (some id) ∷ [])

  unfoldable pub diagnose : MutationStart → Diagnosed A
  unfolding started_check
  diagnose rec = started_check rec (env.start rec)

abbrev diagnostic_start : ℕ → String → String → MutationStart
diagnostic_start uid project operation = record {
  actor_uid = uid;
  actor_login = "";
  project = project;
  operation = operation;
  approval_mode = "";
  argv = [];
  recovery_id = "";
  fields = [];
}

-- `AuditedAccessDiagnostic.Run` and `ListAvailable`, which returns no outcome.
unfoldable pub run_diagnostic : ℕ → DiagnosticEnv AccessResult → String → Diagnosed AccessResult
unfolding diagnose
run_diagnostic uid env alias =
    diagnose env (λ r. r.outcome) (λ r. r.outcome)
      (diagnostic_start uid alias "check_project_access")

unfoldable pub list_diagnostic : ℕ → DiagnosticEnv ProjectList → Diagnosed ProjectList
unfolding diagnose
list_diagnostic uid env =
    diagnose env (λ r. "listed") (λ r. "") (diagnostic_start uid "" "list_available_projects")
