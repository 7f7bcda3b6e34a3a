-- ===== src/Runner/Calls.antt =====
-- What `(*BWSRunner).Run` calls, and when it calls nothing.
use Prim.Native.String.{◌++◌ as ◌+s◌}
use secrets_broker.Base.{String, ◌≡◌, ◌≢◌, some, true, List, [], ◌∷◌, ◌++◌}
use secrets_broker.Go.{is_abs, join}
use secrets_broker.Broker.{RunSpec}
use secrets_broker.Runner.{BwsRunner, Call}
use secrets_broker.Runner.Shell.{sh_words}

-- A command that may be handed to `bws`.
pub record IsComplete (r : BwsRunner) (spec : RunSpec) : Type 0 where
  pub argv : spec.argv ≢ []
  pub project_id : spec.project_id ≢ ""
  pub token : spec.token ≢ ""
  pub binary : is_abs r.bws_binary ≡ true
  pub working_dir : spec.working_dir ≢ ""

-- The call of `bws run` for a command: the binary and the directory are the given ones, the arguments
-- before the command are fixed but for the project, the shell reads the words behind them as the fixed
-- sudo hop and the command itself, and the environment holds the four given variables.
pub record Launches (r : BwsRunner) (spec : RunSpec) (call : Call) : Type 0 where
  pub name : call.name ≡ r.bws_binary
  pub dir : call.dir ≡ spec.working_dir
  pub words : List String
  pub args :
      call.args ≡ "run" ∷ "--project-id" ∷ spec.project_id ∷ "--no-inherit-env" ∷ "--" ∷ words
  pub command :
      sh_words (join words " ")
      ≡ some ("/usr/bin/sudo" ∷ "-n" ∷ "-H" ∷ "-u" ∷ "secrets-broker-runner" ∷ "--" ∷ spec.argv)
  pub env :
      call.env
      ≡ ("PATH=" +s r.command_path)
        ∷ ("HOME=" +s r.home)
        ∷ "LANG=C.UTF-8"
        ∷ ("BWS_ACCESS_TOKEN=" +s spec.token)
        ∷ []
