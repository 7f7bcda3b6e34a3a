-- ===== src/Admin/Editor/Planned.antt =====
-- What a plan that succeeds has found, against the specification.
use secrets_broker.Base.{
  ℕ, String, ◌≡◌, refl, sym, ap, ◌∙◌, ◌||◌, Option, none, some, List, [], ◌∷◌, ◌++◌, any, is_empty,
  length, ◌==◌, eq_iff, if◌then◌else◌, arith, inl, inr, Result, ok, map_err, >>=-eq-ok,
  reject-eq-ok, map_err-eq-ok, not-eq_false, reject->>-eq-ok, ok_inj,
}
use mathlib.Core.Path.{subst}
use secrets_broker.Config.{Config, Project}
use secrets_broker.Config.Validate.{Url}
use secrets_broker.Config.Worker.{Decoder, parse, validate_worker}
use secrets_broker.Config.Equality.{deep_equal-eq_iff}
use secrets_broker.Admin.Errors.{
  EditError, project_exists, updated_not_loaded, updated_not_worker, updated_elsewhere,
}
use secrets_broker.Admin.Files.{Snapshot}
use secrets_broker.Admin.Layout.Edits.{append_project}
use secrets_broker.Admin.Editor.{
  ProjectInput, ProjectMetadataUpdate, find_indexed, set_project, check_updated, checked_text,
  plan_create, plan_approval, plan_metadata, plan_add, plan_remove, has_argv, matching_from,
  is_changed, edit_field, new_project,
}
use secrets_broker.Admin.Editor.Found.{
  if-eq-ok, keep-matching_from, field_value_kept, changed_found, unchanged_found,
}
use secrets_broker.Admin.Editor.Spec.{
  Edit, create_project, add_allowlist, remove_allowlist, update_project_metadata, edit_config,
  change_first, with_projects, with_approval, with_metadata, with_entry, without_entry,
}

module _ (json_text : String → String) (json_argv : List String → String)
    (parse_url : String → Option Url) (decode : Decoder) where
  -- What a plan leaves to do once the policy should become `after`: nothing, or a text that loads as it.
  abbrev pub Meets : Config → Config → Option String → Type 0
  Meets before after none = after ≡ before
  Meets before after (some text) =
      (parse parse_url decode text ≡ ok after) × (validate_worker after ≡ ok tt)

  pub check_updated-eq-ok :
      (expected : Config) (text : String)
      → check_updated json_text json_argv parse_url decode expected text ≡ ok tt
      → (parse parse_url decode text ≡ ok expected) × (validate_worker expected ≡ ok tt)
  unfolding check_updated
  check_updated-eq-ok expected text h =
      let (c, loaded, h1) =
        >>=-eq-ok (map_err updated_not_loaded (parse parse_url decode text)) _ h in
      let (_, worker, same) = >>=-eq-ok (map_err updated_not_worker (validate_worker c)) _ h1 in
      let e : expected ≡ c =
        (deep_equal-eq_iff expected c).0 (not-eq_false _ (reject-eq-ok _ updated_elsewhere same)) in
      (map_err-eq-ok _ _ loaded ∙ ap ok (sym e), ap validate_worker e ∙ map_err-eq-ok _ _ worker)

  checked_text-Meets :
      (before expected : Config) (edited : Result EditError String) (o : Option String)
      → checked_text json_text json_argv parse_url decode expected edited ≡ ok o
      → Meets before expected o
  unfolding checked_text
  checked_text-Meets before expected edited o h =
      let (text, _, h1) = >>=-eq-ok edited _ h in
      let (_, checked, same) =
        >>=-eq-ok (check_updated json_text json_argv parse_url decode expected text) _ h1 in
      subst (Meets before expected) (ok_inj same) (check_updated-eq-ok expected text checked)

  -- A plan meets an edit: it succeeds only if the edit applies, and then leaves what makes the policy the
  -- edited one.
  abbrev pub PlanMeets : Edit → Snapshot → Option String → Type 0
  PlanMeets edit s o =
      (after : Config) × (edit_config edit s.config ≡ some after) × Meets s.config after o

  pub create-PlanMeets :
      (input : ProjectInput) (s : Snapshot) (o : Option String)
      → plan_create json_text json_argv parse_url decode input s ≡ ok o
      → PlanMeets (create_project input) s o
  unfolding plan_create edit_config new_project
  create-PlanMeets input s o h =
      let (fresh, checked) =
        reject->>-eq-ok (any (λ p. p.alias == input.alias) s.config.projects)
          (project_exists input.alias) _ h in
      let after : Config = record s.config {
        projects = s.config.projects ++ new_project input ∷ [];
      } in
      (
        after,
        rw fresh refl,
        checked_text-Meets s.config after (ok (append_project json_text s.text (new_project input)))
            o checked,
      )

  -- The cases of a plan that changes the project found, or that finds nothing to change.
  changed-PlanMeets :
      (s : Snapshot) (alias : String) (found : ℕ × Project) (change : Project → Project)
      (p : Project) (edited : Result EditError String) (o : Option String)
      → find_indexed s.config alias ≡ ok found
      → change found.1 ≡ p
      → checked_text json_text json_argv parse_url decode
          (record s.config { projects = set_project s.config.projects found.0 p })
          edited
        ≡ ok o
      → (after : Config) × (with_projects s.config (change_first change alias s.config.projects)
          ≡ some after)
        × Meets s.config after o
  changed-PlanMeets s alias found change p edited o h same checked =
      let after : Config = record s.config { projects = set_project s.config.projects found.0 p } in
      (
        after,
        changed_found s.config alias found change h ∙ λ i.
            some (record s.config { projects = set_project s.config.projects found.0 (same i) }),
        checked_text-Meets s.config after edited o checked,
      )

  unchanged-PlanMeets :
      (s : Snapshot) (alias : String) (found : ℕ × Project) (change : Project → Project)
      (o : Option String)
      → find_indexed s.config alias ≡ ok found
      → change found.1 ≡ found.1
      → Path (Result EditError (Option String)) (ok none) (ok o)
      → (after : Config) × (with_projects s.config (change_first change alias s.config.projects)
          ≡ some after)
        × Meets s.config after o
  unchanged-PlanMeets s alias found change o h fixed same = (
    s.config,
    unchanged_found s.config alias found change h fixed,
    subst (Meets s.config s.config) (ok_inj same) refl,
  )

  pub approval-PlanMeets :
      (alias approval : String) (s : Snapshot) (o : Option String)
      → plan_approval json_text json_argv parse_url decode alias approval s ≡ ok o
      → (after : Config) × (with_projects s.config
            (change_first (with_approval approval) alias s.config.projects)
          ≡ some after)
        × Meets s.config after o
  unfolding plan_approval
  approval-PlanMeets alias approval s o h =
      let (found, here, h1) = >>=-eq-ok (find_indexed s.config alias) _ h in
      elim (if-eq-ok (found.1.approval == approval) (ok none) _ h1) [
        | inl (same, kept) ↦
            let e = (eq_iff found.1.approval approval).0 same in
            unchanged-PlanMeets s alias found (with_approval approval) o here
              (λ i. record found.1 { approval = sym e i }) kept
        | inr (_, checked) ↦
            changed-PlanMeets s alias found (with_approval approval) _ _ o here refl checked
      ]

  pub add-PlanMeets :
      (alias : String) (argv : List String) (s : Snapshot) (o : Option String)
      → plan_add json_text json_argv parse_url decode alias argv s ≡ ok o
      → PlanMeets (add_allowlist alias argv) s o
  unfolding plan_add edit_config has_argv
  add-PlanMeets alias argv s o h =
      let (found, here, h1) = >>=-eq-ok (find_indexed s.config alias) _ h in
      elim (if-eq-ok (any (has_argv argv) found.1.allow) (ok none) _ h1) [
        | inl (same, kept) ↦
            unchanged-PlanMeets s alias found (with_entry argv) o here (rw same refl) kept
        | inr (fresh, checked) ↦
            changed-PlanMeets s alias found (with_entry argv)
              (record found.1 { allow = found.1.allow ++ record { argv = argv } ∷ [] }) _ o here
              (rw fresh refl) checked
      ]

  pub remove-PlanMeets :
      (alias : String) (argv : List String) (s : Snapshot) (o : Option String)
      → plan_remove json_text json_argv parse_url decode alias argv s ≡ ok o
      → PlanMeets (remove_allowlist alias argv) s o
  unfolding plan_remove edit_config has_argv
  remove-PlanMeets alias argv s o h =
      let (found, here, h1) = >>=-eq-ok (find_indexed s.config alias) _ h in
      elim (if-eq-ok (is_empty (matching_from argv 0 found.1.allow)) (ok none) _ h1) [
        | inl (same, kept) ↦
            let e = keep-matching_from argv 0 found.1.allow same in
            unchanged-PlanMeets s alias found (without_entry argv) o here
              (λ i. record found.1 { allow = e i }) kept
        | inr (_, checked) ↦
            changed-PlanMeets s alias found (without_entry argv) _ _ o here refl checked
      ]

  metadata_choice :
      (alias : String) (u : ProjectMetadataUpdate) (s : Snapshot) (found : ℕ × Project)
      (third : String) (o : Option String)
      → find_indexed s.config alias ≡ ok found
      → (if is_changed u.bws_project_id found.1.bws_project_id
            || is_changed u.token_entry found.1.token_entry
            || is_changed u.working_dir found.1.working_dir
          then checked_text json_text json_argv parse_url decode
              (record s.config {
                projects = set_project s.config.projects found.0 (with_metadata u found.1);
              })
              (ok third)
          else ok none)
        ≡ ok o
      → (after : Config) × (with_projects s.config
            (change_first (with_metadata u) alias s.config.projects)
          ≡ some after)
        × Meets s.config after o
  metadata_choice alias u s found third o here h =
      let p = found.1 in
      elim (if-eq-ok
        (is_changed u.bws_project_id p.bws_project_id
          || is_changed u.token_entry p.token_entry
          || is_changed u.working_dir p.working_dir)
        (checked_text json_text json_argv parse_url decode
          (record s.config {
            projects = set_project s.config.projects found.0 (with_metadata u found.1);
          })
          (ok third))
        (ok none) h) [
          | inl (_, checked) ↦
              changed-PlanMeets s alias found (with_metadata u) _ _ o here refl checked
          | inr (same, kept) ↦
              let a = field_value_kept u.bws_project_id p.bws_project_id (ground arith) in
              let b = field_value_kept u.token_entry p.token_entry (ground arith) in
              let c = field_value_kept u.working_dir p.working_dir (ground arith) in
              unchanged-PlanMeets s alias found (with_metadata u) o here
                (λ i. record p { bws_project_id = a i; token_entry = b i; working_dir = c i }) kept
        ]

  pub metadata-PlanMeets :
      (alias : String) (u : ProjectMetadataUpdate) (s : Snapshot) (o : Option String)
      → plan_metadata json_text json_argv parse_url decode alias u s ≡ ok o
      → PlanMeets (update_project_metadata alias u) s o
  unfolding plan_metadata edit_config
  metadata-PlanMeets alias u s o h =
      let (found, here, h1) = >>=-eq-ok (find_indexed s.config alias) _ h in
      let p = found.1 in
      let field =
        edit_field json_text json_argv parse_url decode (length s.config.projects) found.0 in
      let (first, _, h2) =
        >>=-eq-ok (field "bws_project_id" u.bws_project_id p.bws_project_id s.text) _ h1 in
      let (second, _, h3) =
        >>=-eq-ok (field "token_entry" u.token_entry p.token_entry first) _ h2 in
      let (third, _, h4) =
        >>=-eq-ok (field "working_dir" u.working_dir p.working_dir second) _ h3 in
      metadata_choice alias u s found third o here h4
