-- ===== src/Worker/Command.antt =====
-- cmd/secrets-broker-worker/main.go: the commands of the worker's process. `encode` stands for the JSON
-- encoder with its newline, and `prints` tells whether the output takes what is written to it. What `Serve`
-- and `Check` make of their own output is a parameter: the output, and whether there was an error.
use secrets_broker.Base.{
  ℕ, String, Option, Bool, true, false, List, [], ◌∷◌, ◌==◌, ℤ, Result, ok, err, if◌then◌else◌,
}
use secrets_broker.Accessdiag.{AccessResult, outcome_all_accessible}
use secrets_broker.Projectlist.{ProjectList, Item}
use secrets_broker.Runner.{Call}
use secrets_broker.Worker.Server.{World}
use secrets_broker.Worker.Access.{AccessError, BwsAnswer, check_access, list_projects}

pub record Output : Type 0 where
  pub code : ℤ
  pub out : String
  pub err_out : String

abbrev output : ℕ → String → String → Output
output code out err_out = record { code = ℤ.pos code; out = out; err_out = err_out }

-- The texts on the standard error; each ends with a newline.
abbrev pub list_failed_text : String
list_failed_text = "secrets-broker-worker: project list failed\n"

abbrev pub list_output_failed_text : String
list_output_failed_text = "secrets-broker-worker: project list output failed\n"

abbrev pub check_failed_text : String
check_failed_text = "secrets-broker-worker: access check failed\n"

abbrev pub check_output_failed_text : String
check_output_failed_text = "secrets-broker-worker: access check output failed\n"

abbrev pub usage_text : String
usage_text = "usage: secrets-broker-worker [check | access-check [ALIAS] | projects-list]\n"

unfoldable pub show_list : (ProjectList → String) → Bool → Result AccessError ProjectList → Output
show_list encode prints (err e) = output 2 "" list_failed_text
show_list encode true (ok r) = output 0 (encode r) ""
show_list encode false (ok r) = output 2 "" list_output_failed_text

unfoldable pub outcome_code : String → ℕ
outcome_code outcome = if outcome == outcome_all_accessible then 0 else 1

unfoldable pub show_access :
    (AccessResult → String) → Bool → Result AccessError AccessResult → Output
unfolding outcome_code
show_access encode prints (err e) = output 2 "" check_failed_text
show_access encode true (ok r) = output (outcome_code r.outcome) (encode r) ""
show_access encode false (ok r) = output 2 "" check_output_failed_text

module _ (to_lower : String → String) (bws : Call → BwsAnswer)
    (decode_list : String → Option (List Item)) (encode_list : ProjectList → String)
    (encode : AccessResult → String) (prints : Bool) (served checked : Output) where
  run_single : World → String → Output
  unfolding show_list show_access check_access list_projects
  run_single w command =
      if command == "projects-list"
      then show_list encode_list prints (list_projects to_lower bws decode_list w)
      else if command == "access-check"
      then show_access encode prints (check_access to_lower bws w "")
      else if command == "check"
      then checked
      else output 2 "" usage_text

  run_pair : World → String → String → Output
  unfolding show_access check_access
  run_pair w command alias =
      if command == "access-check"
      then show_access encode prints (check_access to_lower bws w alias)
      else output 2 "" usage_text

  unfoldable pub run : World → List String → Output
  unfolding run_single run_pair
  run w [] = served
  run w (command ∷ []) = run_single w command
  run w (command ∷ alias ∷ []) = run_pair w command alias
  run w (command ∷ alias ∷ more ∷ rest) = output 2 "" usage_text
