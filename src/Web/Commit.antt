-- ===== src/Web/Commit.antt =====
-- internal/adminweb/controls.go: `commit`, with `metadataChange`: the call of the editor for a change, and what is
-- told after it.
use secrets_broker.Base.{
  String, Option, none, some, is_some, Bool, not, ◌&&◌, ◌||◌, List, [], ◌∷◌, any, ◌==◌,
  if◌then◌else◌, Result, ok, err, reject, ◌>>◌,
}
use secrets_broker.Admin.Editor.{ProjectInput, ProjectDetail, ProjectSummary, ProjectMetadataUpdate}
use secrets_broker.Admin.Editor.Spec.{
  Edit, create_project, update_project_metadata, set_approval, add_allowlist, remove_allowlist,
}
use secrets_broker.Web.{
  PolicyChange, WebError, project_not_read, change_not_confirmed, invalid_change, policy_busy,
  changed_before_commit, change_not_completed, audit_not_completed, list_not_read,
}
use secrets_broker.Web.Forms.{Form, values, form_value, valid_fields}

-- `metadataChange`.
abbrev changed_field : String → String → Option String
changed_field value current = if not (value == current) then some value else none

some_field : ProjectInput → ProjectMetadataUpdate → ProjectMetadataUpdate
some_field input u =
    if is_some u.bws_project_id || is_some u.token_entry || is_some u.working_dir
    then u
    else record u { working_dir = some input.working_dir }

unfoldable pub metadata_change : ProjectDetail → ProjectInput → ProjectMetadataUpdate
unfolding some_field
metadata_change d input = some_field input (record {
  bws_project_id = changed_field input.bws_project_id d.bws_project_id;
  token_entry = changed_field input.token_entry d.token_entry;
  working_dir = changed_field input.working_dir d.working_dir;
})

-- The switch of `commit`: the call of the editor.
metadata_edit : PolicyChange → Option ProjectDetail → Result WebError Edit
unfolding metadata_change
metadata_edit c none = err project_not_read
metadata_edit c (some d) = ok (update_project_metadata c.alias (metadata_change d c.input))

unfoldable pub edit_of : PolicyChange → Option ProjectDetail → Result WebError Edit
unfolding metadata_edit
edit_of c detail =
    if c.kind == "create"
    then ok (create_project c.input)
    else if c.kind == "metadata"
    then metadata_edit c detail
    else if c.kind == "mode"
    then ok (set_approval c.alias c.mode)
    else if c.kind == "add"
    then ok (add_allowlist c.alias c.argv)
    else if c.kind == "remove"
    then ok (remove_allowlist c.alias c.argv)
    else err invalid_change

unfoldable pub commit_edit : PolicyChange → Form → Option ProjectDetail → Result WebError Edit
unfolding edit_of valid_fields form_value values
commit_edit c form detail = do
  reject
      (not (valid_fields form ("confirm" ∷ []))
        || c.widen && not (form_value form "confirm" == "yes"))
      change_not_confirmed
  edit_of c detail

-- What the editor answers: whether the policy changed, and the error.
pub data EditFailure : Type 0 where
  busy revision_changed other_failure : EditFailure

pub record EditAnswer : Type 0 where
  pub changed : Bool
  pub failure : Option EditFailure

unfoldable pub failure_of : Bool → EditFailure → WebError
failure_of changed busy = policy_busy
failure_of changed revision_changed = changed_before_commit
failure_of changed other_failure = if changed then audit_not_completed else change_not_completed

-- The saved page, by its message, for a project that the list still has.
pub data Saved : Type 0 where
  policy_saved no_change_needed project_created : Saved

saved_message : PolicyChange → Bool → Saved
saved_message c changed =
    if c.kind == "create"
    then project_created
    else if changed
    then policy_saved
    else no_change_needed

saved_for : PolicyChange → Bool → Option (List ProjectSummary) → Result WebError Saved
unfolding saved_message
saved_for c changed none = err list_not_read
saved_for c changed (some projects) =
    if any (λ p. p.alias == c.alias) projects
    then ok (saved_message c changed)
    else err list_not_read

answer_failure :
    PolicyChange → Bool → Option EditFailure → Option (List ProjectSummary) → Result WebError Saved
unfolding saved_for failure_of
answer_failure c changed (some f) projects = err (failure_of changed f)
answer_failure c changed none projects = saved_for c changed projects

unfoldable pub commit_answer :
    PolicyChange → EditAnswer → Option (List ProjectSummary) → Result WebError Saved
unfolding answer_failure
commit_answer c a projects = answer_failure c a.changed a.failure projects
