-- ===== src/Web/Controls.antt =====
-- internal/adminweb/controls.go: `review`, which stores a change with a new token. What the calls of the
-- reader find is given.
pub mod Widening
use secrets_broker.Base.{
  ℕ, String, Option, none, some, Bool, true, false, not, ◌&&◌, ◌||◌, List, [], ◌∷◌, any, is_empty,
  length, ltb, ◌==◌, if◌then◌else◌, Result, Check, ok, err, reject, ◌>>=◌, ◌>>◌,
}
use secrets_broker.Go.{is_blank}
use secrets_broker.Projectlist.{ListedProject}
use secrets_broker.Admin.Editor.{
  ProjectInput, ProjectDetail, ProjectSummary, mode_automatic, mode_confirm,
}
use secrets_broker.Web.{
  or_else, WebConfig, PolicyChange, WebError, policy_not_read, project_not_read,
  invalid_project_form, invalid_input, alias_exists, project_unavailable, invalid_approval_form,
  invalid_mode, argv_required, invalid_argument, invalid_removal_form, invalid_entry,
  changed_before_review, too_many_forms,
}
use secrets_broker.Web.Forms.{
  Form, values, form_value, valid_fields, valid_input, printable_argv, index_value, entry_at,
}
use secrets_broker.Web.Tokens.{Tokens, issue_target_token, set_change}

-- The projects that Bitwarden has, until a time.
pub record Available : Type 0 where
  pub projects : List ListedProject
  pub until : ℕ

-- `GetProject` and `ListProjects`, the policy's revision, the random bytes, and the readings of the clock.
pub record Reads : Type 0 where
  pub detail : Option ProjectDetail
  pub projects : Option (List ProjectSummary)
  pub latest : Option String
  pub random : Option String
  pub available_now : ℕ
  pub issue_now : ℕ

abbrev no_input : ProjectInput
no_input = record { alias = ""; bws_project_id = ""; token_entry = ""; working_dir = "" }

abbrev blank_change : String → String → PolicyChange
blank_change kind alias = record {
  kind = kind;
  alias = alias;
  project_name = "";
  input = no_input;
  mode = "";
  argv = [];
  widen = false;
}

input_of : Form → ProjectInput
unfolding form_value values
input_of form = record {
  alias = form_value form "alias";
  bws_project_id = form_value form "project_id";
  token_entry = form_value form "token_entry";
  working_dir = form_value form "working_dir";
}

-- The name of the first available project with the identifier.
project_name : List ListedProject → String → String
project_name [] id = ""
project_name (p ∷ rest) id =
    let later = project_name rest id in if p.id == id then p.name else later

available_name : Available → ℕ → String → String
unfolding project_name
available_name a now id = if ltb now a.until then project_name a.projects id else ""

unfoldable pub widens : ProjectInput → ProjectDetail → Bool
widens input d =
    not (input.bws_project_id == d.bws_project_id)
    || not (input.token_entry == d.token_entry)
    || not (input.working_dir == d.working_dir)

module _ (is_print : ℕ → Bool) where
  checked_input : Form → Result WebError ProjectInput
  unfolding input_of valid_fields valid_input
  checked_input form = do
    reject (not (valid_fields form ("project_id" ∷ "token_entry" ∷ "working_dir" ∷ [])))
        invalid_project_form
    reject (not (valid_input is_print (input_of form))) invalid_input
    ok (input_of form)

  create_change : Available → Reads → Form → Result WebError PolicyChange
  unfolding checked_input available_name
  create_change a reads form = do
    input ← checked_input form
    projects ← or_else policy_not_read reads.projects
    reject (any (λ p. p.alias == input.alias) projects) alias_exists
    reject (is_blank (available_name a reads.available_now input.bws_project_id))
        project_unavailable
    ok (record (blank_change "create" input.alias) {
      input = input;
      project_name = available_name a reads.available_now input.bws_project_id;
    })

  metadata_form : Form → ProjectDetail → Result WebError PolicyChange
  unfolding checked_input widens
  metadata_form form d = do
    input ← checked_input form
    ok (record (blank_change "metadata" input.alias) { input = input; widen = widens input d })

  mode_change : Form → ProjectDetail → Result WebError PolicyChange
  unfolding valid_fields form_value values
  mode_change form d = do
    let mode = form_value form "mode"
    reject (not (valid_fields form ("mode" ∷ []))) invalid_approval_form
    reject (not (mode == mode_confirm) && not (mode == mode_automatic)) invalid_mode
    ok (record (blank_change "mode" (form_value form "alias")) {
      mode = mode;
      widen = mode == mode_automatic && not (d.mode == mode_automatic);
    })

  add_change : Form → Result WebError PolicyChange
  unfolding valid_fields form_value values printable_argv
  add_change form = do
    let argv = values form "argv"
    reject (not (valid_fields form ("argv" ∷ [])) || is_empty argv || ltb 256 (length argv))
        argv_required
    reject (not (printable_argv is_print false argv)) invalid_argument
    ok (record (blank_change "add" (form_value form "alias")) { argv = argv; widen = true })

  chosen_entry : ProjectDetail → Option ℕ → Result WebError (List String)
  unfolding entry_at
  chosen_entry d none = err invalid_entry
  chosen_entry d (some index) = or_else invalid_entry (entry_at d.allow index)

  remove_change : Form → ProjectDetail → Result WebError PolicyChange
  unfolding valid_fields form_value values chosen_entry index_value
  remove_change form d = do
    reject (not (valid_fields form ("entry" ∷ []))) invalid_removal_form
    argv ← chosen_entry d (index_value (form_value form "entry"))
    ok (record (blank_change "remove" (form_value form "alias")) { argv = argv })

  -- The change of a kind other than "create", by the current project.
  change_current : String → Form → ProjectDetail → Result WebError PolicyChange
  unfolding metadata_form mode_change add_change remove_change
  change_current kind form d =
      if kind == "metadata"
      then metadata_form form d
      else if kind == "mode"
      then mode_change form d
      else if kind == "add"
      then add_change form
      else remove_change form d

  -- The change that `review` makes of the form.
  unfoldable pub reviewed_change : Available → String → Reads → Form → Result WebError PolicyChange
  unfolding create_change change_current
  reviewed_change a kind reads form =
      if kind == "create"
      then create_change a reads form
      else or_else project_not_read reads.detail >>= change_current kind form

  same_policy : String → Option String → Check WebError
  same_policy revision none = err policy_not_read
  same_policy revision (some latest) = reject (not (latest == revision)) changed_before_review

  unfoldable pub check_review :
      Available → String → String → Reads → Form → Result WebError PolicyChange
  unfolding reviewed_change same_policy
  check_review a kind revision reads form = do
    change ← reviewed_change a kind reads form
    same_policy revision reads.latest
    ok change

-- The page with the change, and the token to commit it.
pub record Review : Type 0 where
  pub change : PolicyChange
  pub token : String

unfoldable pub stored : PolicyChange → Tokens × Option String → Tokens × Result WebError Review
unfolding set_change
stored change (tokens, none) = (tokens, err too_many_forms)
stored change (tokens, some token) =
    (set_change token change tokens, ok (record { change = change; token = token }))

unfoldable pub issue_commit :
    WebConfig
    → String
    → Reads
    → Tokens
    → Result WebError PolicyChange
    → Tokens × Result WebError Review
unfolding stored issue_target_token
issue_commit cfg revision reads tokens (err e) = (tokens, err e)
issue_commit cfg revision reads tokens (ok change) =
    stored change
      (issue_target_token cfg "commit" revision change.alias reads.random reads.issue_now tokens)

-- `review`, of the form whose token was for the revision.
unfoldable pub review :
    (ℕ → Bool)
    → WebConfig
    → Available
    → String
    → String
    → Reads
    → Form
    → Tokens
    → Tokens × Result WebError Review
unfolding issue_commit check_review
review is_print cfg a kind revision reads form tokens =
    issue_commit cfg revision reads tokens (check_review is_print a kind revision reads form)
