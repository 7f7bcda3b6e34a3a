-- ===== src/Samples.antt =====
-- A small policy that the tests of several parts share.
use secrets_broker.Base.{String, Option, some, [], ◌∷◌, ℤ, false}
use secrets_broker.Config.{Config, Project}
use secrets_broker.Config.Validate.{Url}

abbrev pub deploys : Project
deploys = record {
  alias = "infra";
  bws_project_id = "p-1";
  token_entry = "bws";
  working_dir = "/srv/infra";
  approval = "never";
  allow = record { argv = "terraform" ∷ "apply" ∷ [] } ∷ [];
}

abbrev pub policy : Config
policy = record {
  runtime = record {
    bws_binary = "/usr/bin/bws";
    command_path = "/usr/bin:/bin";
    home = "/var/lib/sb";
  };
  token_source = record { backend = "file"; env_var = ""; file_path = "/etc/sb/token" };
  approval_source = record {
    backend = "tailscale-relay";
    tailscale_relay = record {
      control_url = "http://100.64.0.1:7620";
      poll_interval_seconds = ℤ.pos 2;
      timeout_seconds = ℤ.pos 300;
    };
  };
  projects = deploys ∷ [];
}

-- A parser that reads every text as the same origin.
abbrev pub parse_origin : String → Option Url
parse_origin text = some (record {
  scheme = "http";
  host = "100.64.0.1:7620";
  has_user = false;
  path = "";
  raw_query = "";
  fragment = "";
})

-- A decoder that reads every text as the policy.
abbrev pub decode_policy : String → Option Config
decode_policy text = some policy
