-- ===== src/Admin/Operations.antt =====
-- internal/admin/policy.go: the operations on the disk, as the editor's methods run them.
pub mod Refines
pub mod Readback
mod Examples
use secrets_broker.Base.{
  String, Bool, true, false, Option, none, some, List, map, is_empty, Result, Check, ok, err,
  reject, ◌>>=◌, ◌>>◌,
}
use secrets_broker.Config.{Project, allow_argv}
use secrets_broker.Config.Validate.{Url}
use secrets_broker.Config.Worker.{Decoder}
use secrets_broker.Admin.Errors.{EditError, argv_required}
use secrets_broker.Admin.Files.{System, Editor, Disk, Snapshot, read_policy, write_atomic}
use secrets_broker.Admin.Editor.{
  ProjectSummary, ProjectDetail, Plan, find_indexed, stored_approval, display_approval,
  validate_project_input, validate_metadata_update, plan_create, plan_approval, plan_metadata,
  plan_add, plan_remove,
}
use secrets_broker.Admin.Editor.Spec.{
  Edit, create_project, update_project_metadata, set_approval, add_allowlist, remove_allowlist,
}

module _ (json_text : String → String) (json_argv : List String → String)
    (parse_url : String → Option Url) (decode : Decoder) (digest : String → String) (sys : System)
    (e : Editor) where
  abbrev looked_at :
      {A : Type 0} → Disk → (Snapshot → Result EditError A) → Disk × Result EditError A
  looked_at d view =
      let (d', seen) = read_policy sys parse_url decode digest e d in (d', seen >>= view)

  summary_of : Project → ProjectSummary
  unfolding display_approval
  summary_of p = record {
    alias = p.alias;
    mode = (display_approval p.approval).0;
    behavior = (display_approval p.approval).1;
  }

  detail_of : Project → ProjectDetail
  unfolding display_approval allow_argv
  detail_of p = record {
    alias = p.alias;
    bws_project_id = p.bws_project_id;
    token_entry = p.token_entry;
    working_dir = p.working_dir;
    mode = (display_approval p.approval).0;
    behavior = (display_approval p.approval).1;
    allow = allow_argv p;
  }

  unfoldable pub list_projects : Disk → Disk × Result EditError (List ProjectSummary)
  unfolding summary_of read_policy
  list_projects d = looked_at d (λ s. ok (map summary_of s.config.projects))

  unfoldable pub revision : Disk → Disk × Result EditError String
  unfolding read_policy
  revision d = looked_at d (λ s. ok (digest s.text))

  unfoldable pub get_project : String → Disk → Disk × Result EditError ProjectDetail
  unfolding detail_of read_policy find_indexed
  get_project alias d =
      looked_at d (λ s. find_indexed s.config alias >>= λ found. ok (detail_of found.1))

  unfoldable pub list_allowlist : String → Disk → Disk × Result EditError (List (List String))
  unfolding read_policy find_indexed allow_argv
  list_allowlist alias d =
      looked_at d (λ s. find_indexed s.config alias >>= λ found. ok (allow_argv found.1))

  -- The end of each edit: the write, and whether the policy changed.
  finished : Disk × Check EditError → Disk × Result EditError Bool
  finished (d, err e') = (d, err e')
  finished (d, ok _) = (d, ok true)

  write_planned : Snapshot → Result EditError (Option String) → Disk → Disk × Result EditError Bool
  unfolding finished write_atomic
  write_planned s (err e') d = (d, err e')
  write_planned s (ok none) d = (d, ok false)
  write_planned s (ok (some text)) d = finished (write_atomic sys e text s.metadata d)

  planned : Plan → Disk → Result EditError Snapshot → Disk × Result EditError Bool
  unfolding write_planned
  planned plan d (err e') = (d, err e')
  planned plan d (ok s) = write_planned s (plan s) d

  apply_plan : Plan → Disk → Disk × Result EditError Bool
  unfolding planned read_policy
  apply_plan plan d =
      let (d', seen) = read_policy sys parse_url decode digest e d in planned plan d' seen

  -- The checks of the arguments come first.
  guarded : Check EditError → Plan → Disk → Disk × Result EditError Bool
  unfolding apply_plan
  guarded (err e') plan d = (d, err e')
  guarded (ok _) plan d = apply_plan plan d

  with_stored : String → Result EditError String → Disk → Disk × Result EditError Bool
  unfolding apply_plan plan_approval
  with_stored alias (err e') d = (d, err e')
  with_stored alias (ok approval) d =
      apply_plan (plan_approval json_text json_argv parse_url decode alias approval) d

  -- `CreateProject`, `UpdateProjectMetadata`, `SetApproval`, `AddAllowlist` and `RemoveAllowlist`.
  unfoldable pub perform : Edit → Disk → Disk × Result EditError Bool
  unfolding guarded with_stored plan_create plan_metadata plan_add plan_remove stored_approval
      validate_project_input validate_metadata_update
  perform (create_project input) d =
      guarded (validate_project_input input)
        (plan_create json_text json_argv parse_url decode input) d
  perform (update_project_metadata alias u) d =
      guarded (validate_metadata_update u)
        (plan_metadata json_text json_argv parse_url decode alias u) d
  perform (set_approval alias mode) d = with_stored alias (stored_approval mode) d
  perform (add_allowlist alias argv) d =
      guarded (reject (is_empty argv) argv_required)
        (plan_add json_text json_argv parse_url decode alias argv) d
  perform (remove_allowlist alias argv) d =
      guarded (reject (is_empty argv) argv_required)
        (plan_remove json_text json_argv parse_url decode alias argv) d
