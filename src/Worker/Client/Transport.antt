-- ===== src/Worker/Client/Transport.antt =====
-- The worker's frames as its client reads them: internal/worker/server.go against client.go.
use secrets_broker.Base.{
  ℕ, ◌≡◌, refl, ap, ◌∙◌, Option, none, some, Bool, true, false, not, List, [], ◌∷◌, ◌++◌, map,
  if◌then◌else◌, ◌==◌, ℤ, Result, ok, err,
}
use secrets_broker.Config.{Config}
use secrets_broker.Config.Worker.{load_worker}
use secrets_broker.Broker.{RunOutcome, Trace, run}
use secrets_broker.Worker.{WorkerRequest, WorkerResult, decode_request}
use secrets_broker.Worker.Server.{
  World, Frame, stderr_warning, result, error, env_of, run_request, run_result, run_frames,
  audited_error, trusted_policy, serve_run, serve_policy, serve_request, serve,
}
use secrets_broker.Worker.Server as Server
use secrets_broker.Worker.Client.{
  WireFrame, stdout_data, stderr_data, result_frame, error_frame, Reading, frame, ClientError,
  worker_failed, Session, read_frames, finish_run,
}
use secrets_broker.Worker.Client as Client

-- A piece of the command's output, on one of its streams.
pub data StreamOutput : Type 0 where
  to_stdout to_stderr : List ℕ → StreamOutput

abbrev pub output_reading : StreamOutput → Reading
output_reading (to_stdout p) = frame (stdout_data p)
output_reading (to_stderr p) = frame (stderr_data p)

-- The frame that the worker writes, as it is decoded; the text of the warning plays no part.
abbrev pub report_reading : Frame → Reading
report_reading stderr_warning = frame (stderr_data [])
report_reading (result r) = frame (result_frame (some r))
report_reading error = frame error_frame

-- What the worker reports: at most a warning, and then the one result or error.
pub data Reports : List Frame → Result ClientError WorkerResult → Type 0 where
  reports_result : (r : WorkerResult) → Reports (result r ∷ []) (ok r)
  reports_warned : (r : WorkerResult) → Reports (stderr_warning ∷ result r ∷ []) (ok r)
  reports_error : Reports (error ∷ []) (err worker_failed)

-- A session in which nothing outside fails.
abbrev pub healthy : Session
healthy = record {
  starts = true;
  sends = true;
  takes_stdout = true;
  takes_stderr = true;
  ends_well = true;
}

read_output :
    (out : List StreamOutput) (rest : List Reading) (last : Option WorkerResult)
    → read_frames healthy (map output_reading out ++ rest) last ≡ read_frames healthy rest last
unfolding read_frames
read_output [] rest last = refl
read_output (to_stdout p ∷ out) rest last = read_output out rest last
read_output (to_stderr p ∷ out) rest last = read_output out rest last

run-Reports :
    (out : List StreamOutput) (frames : List Frame) (r : Result ClientError WorkerResult)
    → Reports frames r
    → Client.run healthy (map output_reading out ++ map report_reading frames) ≡ r
unfolding Client.run finish_run read_frames
run-Reports out frames r (reports_result x) =
    rw (read_output out (map report_reading frames) none) refl
run-Reports out frames r (reports_warned x) =
    rw (read_output out (map report_reading frames) none) refl
run-Reports out frames r reports_error = rw (read_output out (map report_reading frames) none) refl

run_frames-Reports : (w : World) (o : RunOutcome) → Reports (run_frames w o) (ok (run_result w o))
run_frames-Reports w o = warned o.audit_incomplete
  where
    warned :
        (incomplete : Bool)
        → Reports
            (if incomplete
              then stderr_warning ∷ result (run_result w o) ∷ []
              else result (run_result w o) ∷ [])
            (ok (run_result w o))
    warned true = reports_warned (run_result w o)
    warned false = reports_result (run_result w o)

guarded : (b : Bool) (x y : List Frame × Trace) → b ≡ true → (if not b then x else y) ≡ y
guarded b x y h = rw h refl

chosen : (b : Bool) (x y : List Frame × Trace) → b ≡ false → (if b then x else y) ≡ y
chosen b x y h = rw h refl

-- The request that the worker reads, no dry run, under the policy that it trusts.
pub record IsRun (w : World) (req : WorkerRequest) (cfg : Config) : Type 0 where
  pub log : w.opens_log ≡ true
  pub read : decode_request w.input ≡ ok req
  pub wet : req.is_dry_run ≡ false
  pub policy : trusted_policy w (load_worker w.parse_url w.decode w.policy) ≡ some cfg

serve-run_frames :
    (w : World) (req : WorkerRequest) (cfg : Config)
    → IsRun w req cfg
    → (serve w).0 ≡ run_frames w (run (env_of w cfg) cfg (run_request w req) []).0
unfolding serve serve_request serve_policy serve_run
serve-run_frames w req cfg h =
    ap (λ x. x.0)
      (guarded w.opens_log _ _ h.log
        ∙ ap (serve_request w) h.read
        ∙ ap (serve_policy w req) h.policy
        ∙ chosen req.is_dry_run _ _ h.wet)

-- Where nothing fails between the client and the worker, the client returns for a request that the worker
-- runs what the run came to: whether it was denied, the reason and the cause of that, and the exit code;
-- the code is 126 where the runner could not start, 125 for any other denial, and else the command's. The
-- output of the command in front of the result, and a warning about the audit log, do not change it.
pub client-serve :
    (w : World) (req : WorkerRequest) (cfg : Config) (out : List StreamOutput)
    → IsRun w req cfg
    → let o = (run (env_of w cfg) cfg (run_request w req) []).0 in
      Client.run healthy (map output_reading out ++ map report_reading (serve w).0)
      ≡ ok (record {
        denied = o.denied;
        reason = o.reason;
        cause = o.approval_cause;
        exit_code =
            if o.denied
            then (if o.reason == "runner_start_failed" then ℤ.pos 126 else ℤ.pos 125)
            else o.exit_code;
      })
unfolding Server.run_exit_code
client-serve w req cfg out h =
    ap (λ fs. Client.run healthy (map output_reading out ++ map report_reading fs))
      (serve-run_frames w req cfg h)
    ∙ run-Reports out _ _ (run_frames-Reports w _)
