-- ===== src/Worker/Cases.antt =====
-- A worker that the tests share: its policy is the sample policy, and it is sent one command.
use secrets_broker.Base.{some, true, false, [], ◌∷◌, ℤ}
use secrets_broker.Samples.{parse_origin, decode_policy}
use secrets_broker.Worker.{WorkerRequest}
use secrets_broker.Worker.Server.{World}

abbrev pub apply_request : WorkerRequest
apply_request = record {
  project = "infra";
  working_dir = "/srv/infra";
  argv = "terraform" ∷ "apply" ∷ [];
  is_dry_run = false;
}

abbrev pub world : World
world = record {
  opens_log = true;
  input = some (record { size = 80; decoded = some apply_request; ends = true });
  policy = some "policy";
  decode = decode_policy;
  parse_url = parse_origin;
  is_executable = λ path. true;
  is_private_dir = λ path. true;
  is_trusted_dir = λ path. true;
  start = λ t rec. some "r1";
  finish = λ t id rec. true;
  approval = λ url text. record { id = some "a1"; registered = λ id. true; polls = [] };
  read_token = λ t path. some "0.token\n";
  run_passthrough = λ t call. some (ℤ.pos 0);
  eval_symlinks = λ path. some path;
  is_print = λ c. true;
}
