-- ===== src/Admin/Editor.antt =====
-- internal/admin/policy.go: the editor's operations on the allowlists, the approval modes and the projects.
-- Each reads the policy, edits its text, checks that the edited text loads as the policy with that one
-- edit, and replaces the file. An operation is the check of its arguments and a plan: what it makes of the
-- policy that it read, `none` when there is nothing to change.
pub mod Spec
pub mod Found
pub mod Planned
use secrets_broker.Base.{
  ℕ, zero, suc, ◌+◌, String, Bool, false, not, ◌&&◌, ◌||◌, Option, none, some, is_some, List, [],
  ◌∷◌, ◌++◌, any, keep, length, is_empty, ◌==◌, if◌then◌else◌, Result, Check, ok, err, reject,
  map_err, ◌>>=◌, ◌>>◌,
}
use secrets_broker.Go.{is_blank, is_abs}
use secrets_broker.Policy.{argv_equal}
use secrets_broker.Config.{
  Config, Project, AllowEntry, approval_never, approval_allowlisted_prompt, approval_prompt,
  approval_always,
}
use secrets_broker.Config.Validate.{Url}
use secrets_broker.Config.Worker.{Decoder, parse, validate_worker}
use secrets_broker.Config.Equality.{deep_equal}
use secrets_broker.Admin.Layout.Edits.{
  append_project, replace_approval, replace_project_field, insert_allow_entry, remove_allow_entries,
}
use secrets_broker.Admin.Errors.{
  EditError, alias_required, bws_project_id_required, token_entry_required, working_dir_required,
  working_dir_not_absolute, metadata_required, unknown_project, project_exists, unsupported_mode,
  layout_refused, updated_not_loaded, updated_not_worker, updated_elsewhere,
}
use secrets_broker.Admin.Files.{Snapshot}

abbrev pub mode_automatic : String
mode_automatic = "automatic"

abbrev pub mode_confirm : String
mode_confirm = "confirm"

pub record ProjectInput : Type 0 where
  pub alias : String
  pub bws_project_id : String
  pub token_entry : String
  pub working_dir : String

pub record ProjectMetadataUpdate : Type 0 where
  pub bws_project_id : Option String
  pub token_entry : Option String
  pub working_dir : Option String

pub record ProjectSummary : Type 0 where
  pub alias : String
  pub mode : String
  pub behavior : String

pub record ProjectDetail : Type 0 where
  pub alias : String
  pub bws_project_id : String
  pub token_entry : String
  pub working_dir : String
  pub mode : String
  pub behavior : String
  pub allow : List (List String)

-- `findProject`, with the project at the index that it finds.
pub find_from : String → ℕ → List Project → Result EditError (ℕ × Project)
find_from alias index [] = err (unknown_project alias)
find_from alias index (p ∷ rest) =
    let later = find_from alias (index + 1) rest in
    if p.alias == alias then ok (index, p) else later

unfoldable pub find_indexed : Config → String → Result EditError (ℕ × Project)
unfolding find_from
find_indexed c alias = find_from alias 0 c.projects

-- `projects[index] = p`.
unfoldable pub set_project : List Project → ℕ → Project → List Project
set_project [] index p = []
set_project (q ∷ rest) zero p = p ∷ rest
set_project (q ∷ rest) (suc index) p = q ∷ set_project rest index p

unfoldable pub stored_approval : String → Result EditError String
stored_approval mode =
    if mode == mode_automatic
    then ok approval_never
    else if mode == mode_confirm
    then ok approval_allowlisted_prompt
    else err (unsupported_mode mode)

unfoldable pub display_approval : String → String × String
display_approval approval =
    if approval == approval_never
    then (mode_automatic, "allowlisted commands run without confirmation")
    else if approval == approval_allowlisted_prompt
    then (mode_confirm, "allowlisted commands require confirmation")
    else if approval == approval_prompt
    then ("prompt-unlisted", "allowlisted commands run; unlisted commands may be confirmed")
    else if approval == approval_always
    then ("prompt-any", "every command may be confirmed, including unlisted commands")
    else (approval, "unknown")

-- `validateProjectInput`.
unfoldable pub validate_project_input : ProjectInput → Check EditError
validate_project_input input = do
  reject (is_blank input.alias) alias_required
  reject (is_blank input.bws_project_id) bws_project_id_required
  reject (is_blank input.token_entry) token_entry_required
  reject (is_blank input.working_dir) working_dir_required
  reject (not (is_abs input.working_dir)) working_dir_not_absolute

-- The checks at the head of `UpdateProjectMetadata`.
check_field : Option String → EditError → Check EditError
check_field none e = ok tt
check_field (some value) e = reject (is_blank value) e

check_absolute : Option String → Check EditError
check_absolute none = ok tt
check_absolute (some value) = reject (not (is_abs value)) working_dir_not_absolute

unfoldable pub validate_metadata_update : ProjectMetadataUpdate → Check EditError
unfolding check_field check_absolute
validate_metadata_update u = do
  reject
      (not (is_some u.bws_project_id) && not (is_some u.token_entry) && not (is_some u.working_dir))
      metadata_required
  check_field u.bws_project_id bws_project_id_required
  check_field u.token_entry token_entry_required
  check_field u.working_dir working_dir_required
  check_absolute u.working_dir

-- The indices of the entries with an argv, and the other entries.
pub has_argv : List String → AllowEntry → Bool
has_argv argv e = argv_equal e.argv argv

pub matching_from : List String → ℕ → List AllowEntry → List ℕ
unfolding has_argv
matching_from argv index [] = []
matching_from argv index (e ∷ rest) =
    let later = matching_from argv (index + 1) rest in
    if has_argv argv e then index ∷ later else later

-- The project that `CreateProject` adds.
unfoldable pub new_project : ProjectInput → Project
new_project input = record {
  alias = input.alias;
  bws_project_id = input.bws_project_id;
  token_entry = input.token_entry;
  working_dir = input.working_dir;
  approval = approval_allowlisted_prompt;
  allow = [];
}

-- A field of `UpdateProjectMetadata` against the current value.
unfoldable pub is_changed : Option String → String → Bool
is_changed none current = false
is_changed (some value) current = not (value == current)

unfoldable pub field_value : Option String → String → String
field_value none current = current
field_value (some value) current = value

abbrev pub Plan : Type 0
Plan = Snapshot → Result EditError (Option String)

module _ (json_text : String → String) (json_argv : List String → String)
    (parse_url : String → Option Url) (decode : Decoder) where
  -- The checks that each operation makes of the edited text, `validateAllowlistUpdate` among them.
  unfoldable pub check_updated : Config → String → Check EditError
  unfolding parse validate_worker deep_equal
  check_updated expected text = do
    c ← map_err updated_not_loaded (parse parse_url decode text)
    map_err updated_not_worker (validate_worker c)
    reject (not (deep_equal expected c)) updated_elsewhere

  -- The edited text, checked.
  pub checked_text : Config → Result EditError String → Result EditError (Option String)
  unfolding check_updated
  checked_text expected edited = do text ← edited; check_updated expected text; ok (some text)

  unfoldable pub plan_create : ProjectInput → Plan
  unfolding checked_text new_project append_project
  plan_create input s = do
    reject (any (λ p. p.alias == input.alias) s.config.projects) (project_exists input.alias)
    checked_text (record s.config { projects = s.config.projects ++ new_project input ∷ [] })
        (ok (append_project json_text s.text (new_project input)))

  unfoldable pub plan_approval : String → String → Plan
  unfolding checked_text find_indexed replace_approval set_project
  plan_approval alias approval s = do
    found ← find_indexed s.config alias
    if found.1.approval == approval
        then ok none
        else checked_text
            (record s.config {
              projects =
                  set_project s.config.projects found.0 (record found.1 { approval = approval });
            })
            (map_err layout_refused
              (replace_approval s.text (length s.config.projects) found.0 approval))

  -- One round of the loop over the fields of `UpdateProjectMetadata`.
  edit_field : ℕ → ℕ → String → Option String → String → String → Result EditError String
  unfolding is_changed field_value replace_project_field
  edit_field count index field value current text =
      if is_changed value current
      then map_err layout_refused
          (replace_project_field json_text text count index field (field_value value current))
      else ok text

  unfoldable pub plan_metadata : String → ProjectMetadataUpdate → Plan
  unfolding checked_text find_indexed edit_field is_changed field_value set_project
  plan_metadata alias u s = do
    found ← find_indexed s.config alias
    let p = found.1
    let count = length s.config.projects
    first ← edit_field count found.0 "bws_project_id" u.bws_project_id p.bws_project_id s.text
    second ← edit_field count found.0 "token_entry" u.token_entry p.token_entry first
    third ← edit_field count found.0 "working_dir" u.working_dir p.working_dir second
    if is_changed u.bws_project_id p.bws_project_id
          || is_changed u.token_entry p.token_entry
          || is_changed u.working_dir p.working_dir
        then checked_text
            (record s.config {
              projects = set_project s.config.projects found.0 (record p {
                bws_project_id = field_value u.bws_project_id p.bws_project_id;
                token_entry = field_value u.token_entry p.token_entry;
                working_dir = field_value u.working_dir p.working_dir;
              });
            })
            (ok third)
        else ok none

  unfoldable pub plan_add : String → List String → Plan
  unfolding checked_text find_indexed has_argv insert_allow_entry set_project
  plan_add alias argv s = do
    found ← find_indexed s.config alias
    let p = found.1
    if any (has_argv argv) p.allow
        then ok none
        else checked_text
            (record s.config {
              projects =
                  set_project s.config.projects found.0
                    (record p { allow = p.allow ++ record { argv = argv } ∷ [] });
            })
            (map_err layout_refused (
              insert_allow_entry json_argv s.text (length s.config.projects) found.0
                (length p.allow) argv))

  unfoldable pub plan_remove : String → List String → Plan
  unfolding checked_text find_indexed has_argv matching_from remove_allow_entries set_project
  plan_remove alias argv s = do
    found ← find_indexed s.config alias
    let p = found.1
    let remove = matching_from argv 0 p.allow
    if is_empty remove
        then ok none
        else checked_text
            (record s.config {
              projects =
                  set_project s.config.projects found.0
                    (record p { allow = keep (λ e. not (has_argv argv e)) p.allow });
            })
            (map_err layout_refused (
              remove_allow_entries s.text (length s.config.projects) found.0 (length p.allow)
                remove))
