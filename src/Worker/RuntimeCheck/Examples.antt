-- ===== src/Worker/RuntimeCheck/Examples.antt =====
-- The check of the sample worker.
use secrets_broker.Base.{String, ◌≡◌, ◌↔◌, refl, Option, some, true, false, ok}
use secrets_broker.Go.{byte_length, is_abs, split}
use secrets_broker.Config.{
  apply_defaults, default_source, default_backend, default_approval, default_relay, or_default,
}
use secrets_broker.Config.Validate.{
  validate, validate_token_source, validate_approval_source, validate_relay, is_http_origin,
  validate_projects, validate_project, is_approval_mode, validate_allow,
}
use secrets_broker.Config.Worker.{
  load_worker, parse, validate_worker, validate_path_entries, validate_working_dirs,
}
use secrets_broker.Securefile.{
  Node, regular, perm_600, validate_private_file, open_file, validate_node, validate_owner,
  overlaps, is_owner,
}
use secrets_broker.Worker.Server.{validate_runtime, all_trusted_dirs}
use secrets_broker.Worker.Cases.{world}
use secrets_broker.Worker.RuntimeCheck.{CheckResult, check, check_dirs, check_resolved, stat_dir}
use secrets_broker.Worker.RuntimeCheck.Passed.{IsChecked, check-IsChecked_iff}

abbrev token_file : String → Option Node
token_file path = some (record {
  kind = regular;
  perm = perm_600;
  special_bits = false;
  stat = some (record { uid = 990; gid = 990; dev = 1; ino = 9; modified = 5 });
  content = "0.token\n";
})

abbrev result : CheckResult
result = record { projects = 1; token_bytes = 8 }

passes : check world 990 token_file (λ dir. some true) ≡ ok result
unfolding check load_worker parse apply_defaults default_source default_backend default_approval
    default_relay or_default validate validate_token_source validate_approval_source validate_relay
    is_http_origin validate_projects validate_project is_approval_mode validate_allow
    validate_worker validate_path_entries validate_working_dirs is_abs split byte_length
    validate_private_file open_file validate_node validate_owner overlaps is_owner validate_runtime
    all_trusted_dirs check_dirs check_resolved stat_dir
passes = refl

check-IsChecked_iff_example :
    (check world 990 token_file (λ dir. some true) ≡ ok result)
    ↔ IsChecked world 990 token_file (λ dir. some true) result
check-IsChecked_iff_example = check-IsChecked_iff world 990 token_file (λ dir. some true) result
