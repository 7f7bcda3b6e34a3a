-- ===== src/Config/Examples.antt =====
-- The theorems on policies at a small policy.
use secrets_broker.Base.{◌≡◌, refl, ◌↔◌, Option, some, ok, [], ◌∷◌, pos}
use secrets_broker.Config.{
  Config, apply_defaults, default_approval, default_backend, default_source, default_relay,
  or_default,
}
use secrets_broker.Config.Validate.{
  validate, validate_token_source, validate_approval_source, validate_relay, is_http_origin,
  validate_projects, validate_project, validate_allow, is_approval_mode,
}
use secrets_broker.Config.Validity.{IsValid, validate-IsValid_iff}
use secrets_broker.Config.Worker.{validate_worker, parse}
use secrets_broker.Config.Trusted.{IsWorker, validate_worker-IsWorker_iff}
use secrets_broker.Config.Loaded.{FilledConfig, parse-FilledConfig_iff}
use secrets_broker.Samples.{policy, deploys, parse_origin, decode_policy}

-- The sample policy is valid, and the defaults leave it as it is.
policy-valid : validate parse_origin policy ≡ ok tt
unfolding validate validate_token_source validate_approval_source validate_relay is_http_origin
    validate_projects validate_project validate_allow is_approval_mode
policy-valid = refl

policy-parsed : parse parse_origin decode_policy "" ≡ ok policy
unfolding parse apply_defaults default_approval default_backend default_source default_relay
    or_default validate validate_token_source validate_approval_source validate_relay is_http_origin
    validate_projects validate_project validate_allow is_approval_mode
policy-parsed = refl

validate-IsValid_iff_example : (validate parse_origin policy ≡ ok tt) ↔ IsValid parse_origin policy
validate-IsValid_iff_example = validate-IsValid_iff parse_origin policy

validate_worker-IsWorker_iff_example : (validate_worker policy ≡ ok tt) ↔ IsWorker policy
validate_worker-IsWorker_iff_example = validate_worker-IsWorker_iff policy

-- The sample policy, less what the defaults fill in.
abbrev sparse : Config
sparse = record policy {
  approval_source = record {
    backend = "tailscale-relay";
    tailscale_relay = record {
      control_url = "http://100.64.0.1:7620";
      poll_interval_seconds = pos 0;
      timeout_seconds = pos 0;
    };
  };
  projects = record deploys { approval = "" } ∷ [];
}

parse-FilledConfig_iff_example : (parse parse_origin (λ text. some sparse) "" ≡ ok policy) ↔ (
    (d : Config) × (Path (Option Config) (some sparse) (some d))
    × FilledConfig d policy
    × IsValid parse_origin policy)
parse-FilledConfig_iff_example = parse-FilledConfig_iff parse_origin (λ text. some sparse) "" policy
