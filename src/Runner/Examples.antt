-- ===== src/Runner/Examples.antt =====
-- The runner's theorems at a command with a quote and a substitution in it.
use secrets_broker.Base.{◌≡◌, refl, Option, some, [], ◌∷◌, map, ℤ, ok}
use secrets_broker.Go.{is_abs, join}
use secrets_broker.Broker.{RunSpec}
use secrets_broker.Runner.{BwsRunner, Call, run, prepare, shell_quote, replace_quotes}
use secrets_broker.Runner.Shell.{sh_words}
use secrets_broker.Runner.Quoting.{sh_words-join-shell_quote}

abbrev bws : BwsRunner
bws = record { bws_binary = "/usr/bin/bws"; command_path = "/usr/bin:/bin"; home = "/var/lib/sb" }

abbrev git_commit : RunSpec
git_commit = record {
  project_id = "p-1";
  token = "t";
  working_dir = "/srv";
  argv = "git" ∷ "commit" ∷ "-m" ∷ "it's $(id)" ∷ [];
}

abbrev exits_zero : Call → Option ℤ
exits_zero call = some (ℤ.pos 0)

quoted_word : shell_quote "it's" ≡ "'it'\\''s'"
unfolding shell_quote replace_quotes
quoted_word = refl

commit_runs : run exits_zero bws git_commit ≡ ok (ℤ.pos 0)
unfolding run prepare is_abs
commit_runs = refl

sh_words-join-shell_quote_example :
    sh_words (join (map shell_quote ("git" ∷ "it's $(id)" ∷ "" ∷ [])) " ")
    ≡ some ("git" ∷ "it's $(id)" ∷ "" ∷ [])
sh_words-join-shell_quote_example = sh_words-join-shell_quote ("git" ∷ "it's $(id)" ∷ "" ∷ [])
