-- ===== src/Worker/Client/Examples.antt =====
-- The shared command through the worker and back to its client.
use secrets_broker.Base.{◌≡◌, refl, ℤ, [], ◌∷◌, ◌++◌, map, ok, if◌then◌else◌, ◌==◌, List}
use secrets_broker.Go.{is_abs, split}
use secrets_broker.Config.{
  apply_defaults, default_approval, default_backend, default_source, default_relay, or_default,
}
use secrets_broker.Config.Validate.{
  validate, validate_token_source, validate_approval_source, validate_relay, is_http_origin,
  validate_projects, validate_project, validate_allow, is_approval_mode,
}
use secrets_broker.Config.Worker.{
  parse, load_worker, validate_worker, validate_path_entries, validate_working_dirs,
}
use secrets_broker.Samples.{policy}
use secrets_broker.Broker.{run}
use secrets_broker.Worker.{decode_request, check_decoded, check_request}
use secrets_broker.Worker.Cases.{world, apply_request}
use secrets_broker.Worker.Server.{
  env_of, run_request, serve, trusted_policy, checked_policy, validate_runtime, all_trusted_dirs,
}
use secrets_broker.Worker.Client as Client
use secrets_broker.Worker.Client.Transport.{
  StreamOutput, to_stdout, healthy, output_reading, report_reading, IsRun, client-serve,
}

abbrev output : List StreamOutput
output = to_stdout (104 ∷ 105 ∷ []) ∷ []

apply_request-IsRun : IsRun world apply_request policy
unfolding load_worker parse apply_defaults default_approval default_backend default_source
    default_relay or_default validate validate_token_source validate_approval_source validate_relay
    is_http_origin validate_projects validate_project validate_allow is_approval_mode trusted_policy
    checked_policy validate_runtime all_trusted_dirs validate_worker validate_path_entries
    validate_working_dirs is_abs split decode_request check_decoded check_request
apply_request-IsRun = record { log = refl; read = refl; wet = refl; policy = refl }

client-serve_example :
    let o = (run (env_of world policy) policy (run_request world apply_request) []).0 in
    Client.run healthy (map output_reading output ++ map report_reading (serve world).0)
    ≡ ok (record {
      denied = o.denied;
      reason = o.reason;
      cause = o.approval_cause;
      exit_code =
          if o.denied
          then (if o.reason == "runner_start_failed" then ℤ.pos 126 else ℤ.pos 125)
          else o.exit_code;
    })
client-serve_example = client-serve world apply_request policy output apply_request-IsRun
