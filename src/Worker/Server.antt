-- ===== src/Worker/Server.antt =====
-- internal/worker/server.go: `Serve`. The adapters are built from the policy as the source builds them,
-- over parameters for what lies outside the process. The frames that carry the output of the command
-- itself are left out: they are written while the command runs.
pub mod Trust
mod Examples
use Prim.Native.String.{◌++◌ as ◌+s◌}
use secrets_broker.Base.{
  ℕ, String, Option, none, some, Bool, true, false, not, List, [], ◌∷◌, ◌++◌, ℤ, ◌==◌,
  if◌then◌else◌, Result, Check, ok, err, ◌>>=◌, ◌>>◌,
}
use secrets_broker.Go.{split}
use secrets_broker.Config.{Config, Runtime}
use secrets_broker.Config.Validate.{Url}
use secrets_broker.Config.Worker.{Decoder, LoadError, WorkerInvalid, load_worker, validate_worker}
use secrets_broker.Approval.{Reply}
use secrets_broker.Approval.Tailscale as Tailscale
use secrets_broker.Token as Token
use secrets_broker.Runner as Runner
use secrets_broker.Broker.{
  Env, RunRequest, RunOutcome, StartRecord, FinishRecord, Trace, DryRunResult, started, finished,
  asked, resolved, executed, allow, prompt, deny, run, dry_run, reason_runner_start_failed,
}
use secrets_broker.Worker.{WorkerRequest, WorkerResult, RequestError, Input, decode_request}

-- The relay's answers to one approval: the identifier made for it, whether the relay takes the
-- registration, and the polls.
pub record Approval : Type 0 where
  pub id : Option String
  pub registered : String → Bool
  pub polls : List Tailscale.Poll

-- What lies outside the worker.
pub record World : Type 0 where
  pub opens_log : Bool
  pub input : Option Input
  pub policy : Option String
  pub decode : Decoder
  pub parse_url : String → Option Url
  pub is_executable : String → Bool
  pub is_private_dir : String → Bool
  pub is_trusted_dir : String → Bool
  pub start : Trace → StartRecord → Option String
  pub finish : Trace → String → FinishRecord → Bool
  pub approval : String → String → Approval
  pub read_token : Trace → String → Option String
  pub run_passthrough : Trace → Runner.Call → Option ℤ
  pub eval_symlinks : String → Option String
  pub is_print : ℕ → Bool

-- The approval that was asked for last, from the newest event on.
unfoldable pub last_prompt : Trace → Option String
last_prompt [] = none
last_prompt (asked text reply ∷ t) = some text
last_prompt (started rec id ∷ t) = last_prompt t
last_prompt (finished id rec written ∷ t) = last_prompt t
last_prompt (resolved entry token ∷ t) = last_prompt t
last_prompt (executed spec result ∷ t) = last_prompt t

abbrev pub to_option {ℓ κ} : {E : Type ℓ} {A : Type κ} → Result E A → Option A
to_option (ok a) = some a
to_option (err e) = none

module _ (w : World) where
  -- The adapters of `Serve`: the relay approver, the file resolver and the bws runner.
  abbrev pub ask_relay : Config → String → Reply × String
  ask_relay cfg text =
      let answers = w.approval cfg.approval_source.tailscale_relay.control_url text in
      Tailscale.approve answers.id answers.registered answers.polls

  abbrev pub bws_of : Config → Runner.BwsRunner
  bws_of cfg = record {
    bws_binary = cfg.runtime.bws_binary;
    command_path = cfg.runtime.command_path;
    home = cfg.runtime.home;
  }

  abbrev pub cause_after : Config → Option String → Option String
  cause_after cfg none = none
  cause_after cfg (some text) = some (ask_relay cfg text).1

  abbrev pub env_of : Config → Env
  env_of cfg = record {
    start = w.start;
    finish = w.finish;
    approve = λ t text. (ask_relay cfg text).0;
    cause = λ t. cause_after cfg (last_prompt t);
    resolve = λ t entry. to_option (Token.resolve_file (w.read_token t cfg.token_source.file_path));
    run_command = λ t spec. to_option (Runner.run (w.run_passthrough t) (bws_of cfg) spec);
    eval_symlinks = w.eval_symlinks;
    is_print = w.is_print;
  }

  -- `validateRuntime`: `true` for no error.
  unfoldable pub all_trusted_dirs : List String → Bool
  all_trusted_dirs [] = true
  all_trusted_dirs (dir ∷ rest) =
      if not (w.is_trusted_dir dir) then false else all_trusted_dirs rest

  unfoldable pub validate_runtime : Runtime → Bool
  validate_runtime r =
      if not (w.is_executable r.bws_binary)
      then false
      else if not (w.is_private_dir r.home)
      then false
      else all_trusted_dirs (split b':' r.command_path)

-- A frame that the worker writes besides the command's output.
pub data Frame : Type 0 where
  stderr_warning : Frame
  result : WorkerResult → Frame
  error : Frame

module _ (w : World) where
  -- `auditDenied`.
  abbrev pub close_denied : StartRecord → String → Option String → Trace
  close_denied rec outcome none = started rec none ∷ []
  close_denied rec outcome (some id) =
      let t = started rec (some id) ∷ [] in
      let finish : FinishRecord = record { outcome = "denied:" +s outcome; exit_code = none } in
      finished id finish (w.finish t id finish) ∷ t

  abbrev pub record_of : WorkerRequest → StartRecord
  record_of req = record { project = req.project; working_dir = req.working_dir; argv = req.argv }

  unfoldable pub audit_denied : WorkerRequest → String → Trace
  audit_denied req outcome = close_denied (record_of req) outcome (w.start [] (record_of req))

  -- `writeAuditedWorkerError`.
  abbrev pub audited_error : WorkerRequest → String → List Frame × Trace
  audited_error req outcome = (error ∷ [], audit_denied req outcome)

  abbrev pub no_request : WorkerRequest
  no_request = record { project = ""; working_dir = ""; argv = []; is_dry_run = false }

  -- The policy that `Serve` goes on with: loaded, and checked for the worker and on the file system.
  unfoldable pub checked_policy : Config → Check WorkerInvalid → Option Config
  checked_policy cfg (err e) = none
  checked_policy cfg (ok u) = if not (validate_runtime w cfg.runtime) then none else some cfg

  unfoldable pub trusted_policy : Result LoadError Config → Option Config
  trusted_policy (err e) = none
  trusted_policy (ok cfg) = checked_policy cfg (validate_worker cfg)

  -- The result of a dry run.
  abbrev pub dry_result : DryRunResult → WorkerResult
  dry_result dry = elim dry.verdict [
    | allow ↦ record { denied = false; reason = dry.reason; cause = ""; exit_code = ℤ.pos 0 }
    | prompt ↦ record { denied = false; reason = dry.reason; cause = ""; exit_code = ℤ.pos 0 }
    | deny ↦ record { denied = true; reason = dry.reason; cause = ""; exit_code = ℤ.pos 125 }
  ]

  -- The result of a run.
  unfoldable pub run_exit_code : RunOutcome → ℤ
  run_exit_code o =
      if o.denied
      then (if o.reason == reason_runner_start_failed then ℤ.pos 126 else ℤ.pos 125)
      else o.exit_code

  abbrev pub run_result : RunOutcome → WorkerResult
  run_result o = record {
    denied = o.denied;
    reason = o.reason;
    cause = o.approval_cause;
    exit_code = run_exit_code o;
  }

  abbrev pub run_frames : RunOutcome → List Frame
  run_frames o =
      if o.audit_incomplete
      then stderr_warning ∷ result (run_result o) ∷ []
      else result (run_result o) ∷ []

  abbrev pub run_request : WorkerRequest → RunRequest
  run_request req = record { project = req.project; working_dir = req.working_dir; argv = req.argv }

  unfoldable pub serve_run : Config → WorkerRequest → List Frame × Trace
  serve_run cfg req =
      let (outcome, t) = run (env_of w cfg) cfg (run_request req) [] in (run_frames outcome, t)

  unfoldable pub serve_policy : WorkerRequest → Option Config → List Frame × Trace
  serve_policy req none = audited_error req "config_unavailable"
  serve_policy req (some cfg) =
      if req.is_dry_run
      then (
        result (dry_result (dry_run (env_of w cfg) cfg req.project req.working_dir req.argv)) ∷ [],
        [],
      )
      else serve_run cfg req

  unfoldable pub serve_request : Result RequestError WorkerRequest → List Frame × Trace
  serve_request (err e) = audited_error no_request "invalid_request"
  serve_request (ok req) =
      serve_policy req (trusted_policy (load_worker w.parse_url w.decode w.policy))

  -- `(*Server).Serve`: the frames, oldest first, and the calls made, newest first.
  unfoldable pub serve : List Frame × Trace
  serve = if not w.opens_log then (error ∷ [], []) else serve_request (decode_request w.input)
