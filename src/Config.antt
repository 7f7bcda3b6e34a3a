-- ===== src/Config.antt =====
-- internal/config/config.go: the policy's data, its defaults and its lookups. A text that the TOML
-- file leaves out is the empty one, a number is 0.
pub mod Validate
pub mod Validity
pub mod Worker
pub mod Trusted
pub mod Equality
pub mod Defaults
pub mod Loaded
mod Examples
use secrets_broker.Base.{String, Option, none, some, List, [], ◌∷◌, map, if◌then◌else◌, ◌==◌}
use secrets_broker.Base.{ℤ, pos, is_zero}
use secrets_broker.Go.{is_blank}

-- The approval modes.
abbrev pub approval_always : String
approval_always = "always"

abbrev pub approval_prompt : String
approval_prompt = "prompt"

abbrev pub approval_allowlisted_prompt : String
approval_allowlisted_prompt = "allowlisted-prompt"

abbrev pub approval_never : String
approval_never = "never"

-- The backends of `token_source` and of `approval_source`.
abbrev pub backend_secret_service : String
backend_secret_service = "secret-service"

abbrev pub backend_env : String
backend_env = "env"

abbrev pub backend_file : String
backend_file = "file"

abbrev pub approval_backend_kdialog : String
approval_backend_kdialog = "kdialog"

abbrev pub approval_backend_tailscale_relay : String
approval_backend_tailscale_relay = "tailscale-relay"

abbrev pub default_relay_poll_interval_seconds : ℤ
default_relay_poll_interval_seconds = pos 2

abbrev pub default_relay_timeout_seconds : ℤ
default_relay_timeout_seconds = pos 300

pub record Runtime : Type 0 where
  pub bws_binary : String
  pub command_path : String
  pub home : String

pub record TokenSource : Type 0 where
  pub backend : String
  pub env_var : String
  pub file_path : String

pub record TailscaleRelaySource : Type 0 where
  pub control_url : String
  pub poll_interval_seconds : ℤ
  pub timeout_seconds : ℤ

pub record ApprovalSource : Type 0 where
  pub backend : String
  pub tailscale_relay : TailscaleRelaySource

pub record AllowEntry : Type 0 where
  pub argv : List String

pub record Project : Type 0 where
  pub alias : String
  pub bws_project_id : String
  pub token_entry : String
  pub working_dir : String
  pub approval : String
  pub allow : List AllowEntry

pub record Config : Type 0 where
  pub runtime : Runtime
  pub token_source : TokenSource
  pub approval_source : ApprovalSource
  pub projects : List Project

unfoldable pub allow_argv : Project → List (List String)
allow_argv p = map (λ e. e.argv) p.allow

unfoldable pub find_project : String → List Project → Option Project
find_project alias [] = none
find_project alias (p ∷ rest) = if p.alias == alias then some p else find_project alias rest

-- `(*Config).Project`.
unfoldable pub project : Config → String → Option Project
unfolding find_project
project c alias = find_project alias c.projects

-- `(*Config).applyDefaults`.
unfoldable pub default_approval : Project → Project
default_approval p = if is_blank p.approval then record p { approval = approval_never } else p

unfoldable pub default_backend : ApprovalSource → ApprovalSource
default_backend s =
    if is_blank s.backend then record s { backend = approval_backend_kdialog } else s

unfoldable pub or_default : ℤ → ℤ → ℤ
or_default n d = if is_zero n then d else n

unfoldable pub default_relay : TailscaleRelaySource → TailscaleRelaySource
default_relay r = record r {
  poll_interval_seconds = or_default r.poll_interval_seconds default_relay_poll_interval_seconds;
  timeout_seconds = or_default r.timeout_seconds default_relay_timeout_seconds;
}

unfoldable pub default_source : ApprovalSource → ApprovalSource
unfolding default_relay or_default
default_source s =
    if s.backend == approval_backend_tailscale_relay
    then record s { tailscale_relay = default_relay s.tailscale_relay }
    else s

unfoldable pub apply_defaults : Config → Config
apply_defaults c = record c {
  projects = map default_approval c.projects;
  approval_source = default_source (default_backend c.approval_source);
}
