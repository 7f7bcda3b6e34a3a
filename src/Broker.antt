-- ===== src/Broker.antt =====
-- internal/broker/broker.go. The four interfaces that the broker is wired to are the functions of an
-- `Env`: each may answer by everything that was called before. Every call is an event of the trace,
-- newest first, with its answer.
mod Model
pub mod Table
pub mod Closed
pub mod Audit
pub mod Authorised
pub mod Preflight
mod Examples
pub use Model.*
use secrets_broker.Base.{
  ℕ, ◌+◌, String, Option, none, some, Bool, true, false, not, ◌&&◌, List, [], ◌∷◌, ℤ, if◌then◌else◌,
  ◌==◌,
}
use Prim.Native.String.{◌++◌ as ◌+s◌}
use secrets_broker.Go.{is_blank, join}
use secrets_broker.Go.Paths.{clean}
use secrets_broker.Go.Quoting.{decimal, quote, quote_to_ascii}
use secrets_broker.Config.{
  Config, Project, project, allow_argv, approval_always, approval_prompt,
  approval_allowlisted_prompt,
}
use secrets_broker.Policy.{match}
use secrets_broker.Approval.{Reply, denied, approved}

-- The outcome when `Start` fails.
abbrev pub unaudited : RunOutcome
unaudited = record {
  denied = true;
  reason = reason_audit_unavailable;
  approval_cause = "";
  exit_code = ℤ.pos 0;
  audit_incomplete = false;
}

-- `decide`.
unfoldable pub decide : Project → List String → Verdict
decide p argv =
    let allowlisted = match (allow_argv p) argv in
    if p.approval == approval_always
    then prompt
    else if allowlisted && p.approval == approval_allowlisted_prompt
    then prompt
    else if allowlisted
    then allow
    else if p.approval == approval_prompt
    then prompt
    else deny

-- The comparison of two resolved paths.
same_resolved : Option String → Option String → Bool
same_resolved none requested = false
same_resolved (some a) none = false
same_resolved (some a) (some r) = clean a == clean r

-- The loop of `formatPrompt`.
prompt_lines : ℕ → List String → List String
prompt_lines i [] = []
prompt_lines i (arg ∷ rest) =
    ("  argv[" +s decimal i +s "] = " +s quote_to_ascii arg) ∷ prompt_lines (i + 1) rest

module _ (env : Env) where
  unfoldable pub same_working_dir : String → String → Bool
  unfolding same_resolved
  same_working_dir allowed requested =
      if is_blank requested
      then false
      else same_resolved (env.eval_symlinks allowed) (env.eval_symlinks requested)

  unfoldable pub format_prompt : String → String → List String → String
  unfolding prompt_lines
  format_prompt project working_dir argv =
      "secrets-broker: allow project "
      +s quote env.is_print project
      +s " to run:\n\nworking directory: "
      +s quote_to_ascii working_dir
      +s "\n"
      +s join (prompt_lines 0 argv) "\n"

  -- The guard on the working directory.
  unfoldable pub wrong_working_dir : Project → String → Bool
  unfolding same_working_dir
  wrong_working_dir p requested =
      not (is_blank p.working_dir) && not (same_working_dir p.working_dir requested)

  -- The closure `deny` of `Run`, over the run's identifier.
  unfoldable pub deny_run : String → String → Trace → RunOutcome × Trace
  deny_run run_id reason t =
      let rec : FinishRecord = record { outcome = "denied:" +s reason; exit_code = none } in
      let written = env.finish t run_id rec in
      (
        record {
          denied = true;
          reason = reason;
          approval_cause = "";
          exit_code = ℤ.pos 0;
          audit_incomplete = not written;
        },
        finished run_id rec written ∷ t,
      )

  -- `Finish` with outcome "executed", and the outcome of a run.
  unfoldable pub complete : String → ℤ → Trace → RunOutcome × Trace
  complete run_id code t =
      let rec : FinishRecord = record { outcome = "executed"; exit_code = some code } in
      let written = env.finish t run_id rec in
      (
        record {
          denied = false;
          reason = "";
          approval_cause = "";
          exit_code = code;
          audit_incomplete = not written;
        },
        finished run_id rec written ∷ t,
      )

  -- From the resolved token on.
  unfoldable pub execute : String → Project → RunRequest → String → Trace → RunOutcome × Trace
  execute run_id p req token t =
      let spec : RunSpec = record {
        project_id = p.bws_project_id;
        token = token;
        working_dir = req.working_dir;
        argv = req.argv;
      } in
      let result = env.run_command t spec in
      let t' = executed spec result ∷ t in
      elim result [
        | none ↦ deny_run run_id reason_runner_start_failed t'
        | some code ↦ complete run_id code t'
      ]

  -- What follows a command that is allowed or approved.
  unfoldable pub proceed : String → Project → RunRequest → Trace → RunOutcome × Trace
  proceed run_id p req t =
      let found = env.resolve t p.token_entry in
      let t' = resolved p.token_entry found ∷ t in
      elim found [
        | none ↦ deny_run run_id reason_token_resolution_failed t'
        | some token ↦ execute run_id p req token t'
      ]

  -- `approveErr != nil || decision != approval.Approved`, negated.
  unfoldable pub is_approved : Reply → Bool
  is_approved r = elim r.decision [ denied ↦ false | approved ↦ not r.failed ]

  -- An `approve` that is no `CauseProvider` gives no cause.
  unfoldable pub cause_text : Option String → String
  cause_text none = ""
  cause_text (some c) = c

  -- The branch of a rejected approval; the cause is read after the finish record.
  unfoldable pub reject_approval : String → Trace → RunOutcome × Trace
  reject_approval run_id t =
      let (outcome, t') = deny_run run_id reason_approval_rejected t in
      (record outcome { approval_cause = cause_text (env.cause t') }, t')

  unfoldable pub ask : String → Project → RunRequest → Trace → RunOutcome × Trace
  ask run_id p req t =
      let text = format_prompt req.project req.working_dir req.argv in
      let reply = env.approve t text in
      let t' = asked text reply ∷ t in
      if is_approved reply then proceed run_id p req t' else reject_approval run_id t'

  unfoldable pub by_verdict : Verdict → String → Project → RunRequest → Trace → RunOutcome × Trace
  by_verdict deny run_id p req t = deny_run run_id reason_not_allowlisted t
  by_verdict prompt run_id p req t = ask run_id p req t
  by_verdict allow run_id p req t = proceed run_id p req t

  unfoldable pub run_project : Option Project → String → RunRequest → Trace → RunOutcome × Trace
  run_project none run_id req t = deny_run run_id reason_unknown_project t
  run_project (some p) run_id req t =
      if wrong_working_dir p req.working_dir
      then deny_run run_id reason_working_directory_not_allowed t
      else by_verdict (decide p req.argv) run_id p req t

  abbrev pub start_record : RunRequest → StartRecord
  start_record req = record {
    project = req.project;
    working_dir = req.working_dir;
    argv = req.argv;
  }

  -- `Run`, from the answer of `Start` on.
  unfoldable pub after_start : Config → RunRequest → Trace → Option String → RunOutcome × Trace
  after_start cfg req t none = (unaudited, started (start_record req) none ∷ t)
  after_start cfg req t (some run_id) =
      run_project (project cfg req.project) run_id req
        (started (start_record req) (some run_id) ∷ t)

  -- `(*Broker).Run`.
  unfoldable pub run : Config → RunRequest → Trace → RunOutcome × Trace
  run cfg req t = after_start cfg req t (env.start t (start_record req))

pub record DryRunResult : Type 0 where
  pub verdict : Verdict
  pub reason : String

module _ (env : Env) where
  -- The last switch of `DryRun`.
  unfoldable pub explain : Verdict → Project → DryRunResult
  explain allow p = record { verdict = allow; reason = "allowlisted" }
  explain prompt p = record {
    verdict = prompt;
    reason = "would prompt for approval (project approval=" +s quote env.is_print p.approval +s ")";
  }
  explain deny p = record {
    verdict = deny;
    reason = "not allowlisted and project approval=" +s quote env.is_print p.approval;
  }

  unfoldable pub dry_run_project : Option Project → String → List String → DryRunResult
  dry_run_project none working_dir argv = record { verdict = deny; reason = "unknown project" }
  dry_run_project (some p) working_dir argv =
      if wrong_working_dir env p working_dir
      then record { verdict = deny; reason = "working directory not allowed" }
      else explain (decide p argv) p

  -- `(*Broker).DryRun`.
  unfoldable pub dry_run : Config → String → String → List String → DryRunResult
  dry_run cfg alias working_dir argv = dry_run_project (project cfg alias) working_dir argv
