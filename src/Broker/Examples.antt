-- ===== src/Broker/Examples.antt =====
-- The broker's theorems at a small policy, with an environment that answers at once.
use secrets_broker.Base.{◌⊎◌, ◌≡◌, refl, true, false, none, some, [], ◌∷◌, ℤ}
use secrets_broker.Config.{project, allow_argv}
use secrets_broker.Samples.{deploys, policy}
use secrets_broker.Policy.{match}
use secrets_broker.Go.Paths.{clean}
use secrets_broker.Approval.{approved}
use secrets_broker.Broker.{
  Env, RunRequest, started, run, after_start, run_project, wrong_working_dir, same_working_dir,
  by_verdict, proceed, execute, complete, deny_run, dry_run, decide, start_record,
}
use secrets_broker.Broker.Closed.{IsClosed}
use secrets_broker.Broker.Table.{decide-table, table, never, IsListed}
use secrets_broker.Broker.Audit.{run-Audited, Audited}
use secrets_broker.Broker.Authorised.{run-IsAuthorised, IsAuthorised}
use secrets_broker.Broker.Preflight.{run-Follows-dry_run, Follows}

abbrev yes_env : Env
yes_env = record {
  start = λ t rec. some "r1";
  finish = λ t id rec. true;
  approve = λ t text. record { decision = approved; failed = false };
  cause = λ t. none;
  resolve = λ t entry. some "token";
  run_command = λ t spec. some (ℤ.pos 0);
  eval_symlinks = λ path. some path;
  is_print = λ c. false;
}

abbrev apply : RunRequest
apply = record { project = "infra"; working_dir = "/srv/infra/"; argv = "terraform" ∷ "apply" ∷ [] }

abbrev destroy : RunRequest
destroy = record apply { argv = "terraform" ∷ "apply" ∷ "-destroy" ∷ [] }

apply_runs : (run yes_env policy apply []).0.denied ≡ false
unfolding run after_start run_project project wrong_working_dir same_working_dir clean decide match
    allow_argv by_verdict proceed execute complete
apply_runs = refl

destroy_denied : (run yes_env policy destroy []).0.reason ≡ "not_allowlisted"
unfolding run after_start run_project project wrong_working_dir same_working_dir clean decide match
    allow_argv by_verdict deny_run
destroy_denied = refl

decide-table_example :
    (IsListed deploys destroy.argv × (decide deploys destroy.argv ≡ table never true))
    ⊎ ((¬ IsListed deploys destroy.argv) × (decide deploys destroy.argv ≡ table never false))
decide-table_example = decide-table deploys destroy.argv never refl

run-Audited_example : Audited yes_env apply [] (run yes_env policy apply []) (some "r1")
run-Audited_example = run-Audited yes_env policy apply []

run-IsAuthorised_example :
    let t' = started (start_record yes_env apply) (some "r1") ∷ [] in
    IsClosed (IsAuthorised yes_env policy apply t') "r1" t' (run yes_env policy apply [])
run-IsAuthorised_example = run-IsAuthorised yes_env policy apply [] "r1" refl

run-Follows-dry_run_example :
    Follows yes_env apply "r1"
      (started (start_record yes_env apply) (some "r1") ∷ [])
      (dry_run yes_env policy "infra" "/srv/infra/" ("terraform" ∷ "apply" ∷ [])).verdict
      (run yes_env policy apply [])
run-Follows-dry_run_example = run-Follows-dry_run yes_env policy apply [] "r1" refl
