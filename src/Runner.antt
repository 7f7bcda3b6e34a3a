-- ===== src/Runner.antt =====
-- internal/runner/bws.go: the one call of `bws run`, through the `execx.Runner` that is a parameter.
pub mod Shell
pub mod Quoting
pub mod Calls
mod Examples
use Prim.Native.String
use Prim.Native.String.{◌++◌ as ◌+s◌}
use secrets_broker.Base.{
  String, code, Option, none, some, not, List, [], ◌∷◌, ◌++◌, map, ℤ, is_empty, eqb, if◌then◌else◌,
  Result, ok, err, reject, ◌>>=◌, ◌>>◌,
}
use secrets_broker.Go.{is_blank, is_abs}
use secrets_broker.Broker.{RunSpec}

abbrev pub isolated_sudo_binary : String
isolated_sudo_binary = "/usr/bin/sudo"

abbrev pub isolated_runner_user : String
isolated_runner_user = "secrets-broker-runner"

pub record BwsRunner : Type 0 where
  pub bws_binary : String
  pub command_path : String
  pub home : String

-- `strings.ReplaceAll(s, "'", `'\''`)`.
unfoldable pub replace_quotes : String → String
replace_quotes String.[] = ""
replace_quotes (String.◌∷◌ c s) =
    let rest = replace_quotes s in
    if eqb (code c) 39
    then String.◌∷◌ "'" (String.◌∷◌ "\\" (String.◌∷◌ "'" (String.◌∷◌ "'" rest)))
    else String.◌∷◌ c rest

-- `shellQuote`.
unfoldable pub shell_quote : String → String
shell_quote s = String.◌∷◌ "'" (replace_quotes s +s "'")

-- `buildEnv`.
unfoldable pub build_env : String → String → String → List String
build_env token_value command_path home =
    ("PATH=" +s command_path)
    ∷ ("HOME=" +s home)
    ∷ "LANG=C.UTF-8"
    ∷ ("BWS_ACCESS_TOKEN=" +s token_value)
    ∷ []

-- The words of the fixed hop to the runner account.
abbrev pub sudo_words : List String
sudo_words = isolated_sudo_binary ∷ "-n" ∷ "-H" ∷ "-u" ∷ isolated_runner_user ∷ "--" ∷ []

unfoldable pub bws_args : String → List String → List String
bws_args project_id argv =
    "run"
    ∷ "--project-id"
    ∷ project_id
    ∷ "--no-inherit-env"
    ∷ "--"
    ∷ (map shell_quote sudo_words ++ map shell_quote argv)

pub data RunnerError : Type 0 where
  empty_command empty_project_id empty_token relative_binary empty_working_dir : RunnerError
  start_failed : RunnerError

-- One call of `RunPassthrough`, less the caller's streams.
pub record Call : Type 0 where
  pub name : String
  pub args : List String
  pub env : List String
  pub dir : String

-- The call for a command.
unfoldable pub launch : BwsRunner → RunSpec → Call
launch r spec = record {
  name = r.bws_binary;
  args = bws_args spec.project_id spec.argv;
  env = build_env spec.token r.command_path r.home;
  dir = spec.working_dir;
}

-- The guards of `Run`, and the call that is made when all pass.
unfoldable pub prepare : BwsRunner → RunSpec → Result RunnerError Call
prepare r spec = do
  reject (is_empty spec.argv) empty_command
  reject (is_blank spec.project_id) empty_project_id
  reject (is_blank spec.token) empty_token
  reject (not (is_abs r.bws_binary)) relative_binary
  reject (is_blank spec.working_dir) empty_working_dir
  ok (launch r spec)

-- The answer of the call; `none` is an error of it.
abbrev pub exit_code : Option ℤ → Result RunnerError ℤ
exit_code none = err start_failed
exit_code (some code) = ok code

-- `(*BWSRunner).Run`.
unfoldable pub run : (Call → Option ℤ) → BwsRunner → RunSpec → Result RunnerError ℤ
run run_passthrough r spec = do call ← prepare r spec; exit_code (run_passthrough call)
