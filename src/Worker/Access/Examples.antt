-- ===== src/Worker/Access/Examples.antt =====
-- A diagnosis of one project that BWS does not show.
use secrets_broker.Base.{String, ◌≡◌, refl, some, true, false, [], ◌∷◌, ℤ, All, ok}
use secrets_broker.Go.{is_abs, split, contains, has_prefix, trim_newlines}
use secrets_broker.Config.Worker.{load_worker}
use secrets_broker.Samples.{policy, parse_origin, decode_policy}
use secrets_broker.Accessdiag.{AccessResult, aggregate, aggregate_from, worsen}
use secrets_broker.Accessdiag.Validity.{IsDiagnosis}
use secrets_broker.Config.Validate.{
  validate, validate_token_source, validate_approval_source, validate_relay, is_http_origin,
  validate_projects, validate_project, validate_allow, is_approval_mode,
}
use secrets_broker.Config.{
  apply_defaults, default_approval, default_backend, default_source, default_relay, or_default,
}
use secrets_broker.Config.Worker.{
  parse, validate_worker, validate_path_entries, validate_working_dirs,
}
use secrets_broker.Token.{resolve_file}
use secrets_broker.Worker.Cases.{world}
use secrets_broker.Worker.Server.{
  trusted_policy, checked_policy, validate_runtime, all_trusted_dirs,
}
use secrets_broker.Runner.{Call}
use secrets_broker.Worker.Access.{
  BwsAnswer, check_access, check_policy, select_access_projects, find_alias, probe_all,
  probe_access, classify_access, classify_message,
}
use secrets_broker.Worker.Access.Diagnosis.{IsNamed, check_access-IsDiagnosis}

abbrev pub missing : Call → BwsAnswer
missing call = record {
  exit = some (ℤ.pos 1);
  timed_out = false;
  stdout = "";
  stdout_exceeded = false;
  stderr = "Error: [404 Not Found]";
  stderr_exceeded = false;
}

-- The one message of this test in lower case.
abbrev pub as_is : String → String
as_is s = "error: [404 not found]"

abbrev pub found : AccessResult
found = record {
  version = 1;
  outcome = "inaccessible";
  projects = record { alias = "infra"; bws_project_id = "p-1"; status = "inaccessible" } ∷ [];
}

pub policy-loaded : load_worker parse_origin decode_policy (some "policy") ≡ ok policy
unfolding load_worker parse apply_defaults default_approval default_backend default_source
    default_relay or_default validate validate_token_source validate_approval_source validate_relay
    is_http_origin validate_projects validate_project validate_allow is_approval_mode
policy-loaded = refl

pub access-checked : check_access as_is missing world "infra" ≡ ok found
unfolding load_worker parse apply_defaults default_approval default_backend default_source
    default_relay or_default validate validate_token_source validate_approval_source validate_relay
    is_http_origin validate_projects validate_project validate_allow is_approval_mode check_access
    check_policy trusted_policy checked_policy validate_runtime all_trusted_dirs validate_worker
    validate_path_entries validate_working_dirs is_abs split select_access_projects find_alias
    resolve_file trim_newlines probe_all probe_access classify_access classify_message contains
    has_prefix aggregate aggregate_from worsen
access-checked = refl

pub policy-IsNamed : All (IsNamed as_is missing (λ c. true)) policy.projects
policy-IsNamed = (
  ((λ e. cc, (refl, (refl, (refl, (refl, (refl, tt)))))), (λ e. cc, (refl, (refl, (refl, tt))))),
  tt,
)

check_access-IsDiagnosis_example : IsDiagnosis (λ c. true) found
check_access-IsDiagnosis_example =
    check_access-IsDiagnosis as_is missing (λ c. true) world "infra" policy found policy-loaded
      policy-IsNamed access-checked
