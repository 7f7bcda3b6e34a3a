-- ===== src/Web/Controls/Widening.antt =====
-- Which changes `review` says widen what the policy allows.
use mathlib.Core.Path.{subst}
use secrets_broker.Base.{
  ℕ, String, ◌≡◌, refl, ◌≢◌, ◌↔◌, Option, none, some, Bool, Bool-cases, true, false, not, ◌&&◌,
  ◌||◌, inl, inr, [], ◌∷◌, any, is_empty, length, ltb, ◌==◌, eq_iff, ok, ◌>>=◌, arith, >>=-eq-ok,
  reject->>-eq-ok, >>-eq-ok, ok_inj,
}
use secrets_broker.Go.{is_blank}
use secrets_broker.Admin.Editor.{ProjectInput, ProjectDetail, mode_automatic, mode_confirm}
use secrets_broker.Web.{
  or_else, PolicyChange, policy_not_read, project_not_read, alias_exists, project_unavailable,
  invalid_approval_form, invalid_mode, argv_required, invalid_argument, invalid_removal_form,
}
use secrets_broker.Web.Forms.{Form, values, form_value, valid_fields, printable_argv, index_value}
use secrets_broker.Web.Controls.{
  Available, Reads, widens, checked_input, create_change, metadata_form, mode_change, add_change,
  remove_change, chosen_entry, change_current, reviewed_change, same_policy, check_review,
  available_name,
}

-- By the change and the project that the review has read: another Bitwarden project, token or directory
-- widens the policy, as does a mode that becomes automatic, and every new allowlist entry; a new project,
-- which allows no command, does not, nor does a removal.
pub data ShowsWidening : Option ProjectDetail → PolicyChange → Type 0 where
  creates :
      (seen : Option ProjectDetail) (c : PolicyChange)
      → c.kind ≡ "create"
      → c.widen ≡ false
      → ShowsWidening seen c
  changes_metadata :
      (d : ProjectDetail) (c : PolicyChange)
      → c.kind ≡ "metadata"
      → (c.widen ≡ false) ↔ (
          (c.input.bws_project_id ≡ d.bws_project_id)
          × (c.input.token_entry ≡ d.token_entry)
          × (c.input.working_dir ≡ d.working_dir))
      → ShowsWidening (some d) c
  sets_mode :
      (d : ProjectDetail) (c : PolicyChange)
      → c.kind ≡ "mode"
      → (c.widen ≡ true) ↔ ((c.mode ≡ "automatic") × (d.mode ≢ "automatic"))
      → ShowsWidening (some d) c
  adds_entry :
      (d : ProjectDetail) (c : PolicyChange)
      → c.kind ≡ "add"
      → c.widen ≡ true
      → ShowsWidening (some d) c
  removes_entry :
      (d : ProjectDetail) (c : PolicyChange)
      → c.kind ≡ "remove"
      → c.widen ≡ false
      → ShowsWidening (some d) c

widens-eq_false_iff :
    (input : ProjectInput) (d : ProjectDetail)
    → (widens input d ≡ false) ↔ (
        (input.bws_project_id ≡ d.bws_project_id)
        × (input.token_entry ≡ d.token_entry)
        × (input.working_dir ≡ d.working_dir))
unfolding widens
widens-eq_false_iff input d =
    let a = eq_iff input.bws_project_id d.bws_project_id in
    let b = eq_iff input.token_entry d.token_entry in
    let c = eq_iff input.working_dir d.working_dir in
    (
      λ h. (a.0 (ground arith), b.0 (ground arith), c.0 (ground arith)),
      λ (x, y, z). rw (a.1 x, b.1 y, c.1 z),
    )

becomes_automatic_iff :
    (mode before : String)
    → ((mode == mode_automatic && not (before == mode_automatic)) ≡ true)
      ↔ ((mode ≡ "automatic") × (before ≢ "automatic"))
becomes_automatic_iff mode before =
    let a = eq_iff mode "automatic" in
    let b = eq_iff before "automatic" in
    (
      λ h. (a.0 (ground arith), λ e. let k = b.1 e in ground arith),
      λ (x, n).
          let k = a.1 x in
          elim (Bool-cases (before == mode_automatic)) [
            | inl e ↦ absurd (n (b.0 e))
            | inr e ↦ rw (k, e)
          ],
    )

module _ (is_print : ℕ → Bool) where
  create_change-ShowsWidening :
      (a : Available) (reads : Reads) (form : Form) (c : PolicyChange)
      → create_change is_print a reads form ≡ ok c
      → ShowsWidening reads.detail c
  unfolding create_change
  create_change-ShowsWidening a reads form c h =
      let (input, _, h1) = >>=-eq-ok (checked_input is_print form) _ h in
      let (projects, _, h2) = >>=-eq-ok (or_else policy_not_read reads.projects) _ h1 in
      let (_, h3) =
        reject->>-eq-ok (any (λ p. p.alias == input.alias) projects) alias_exists _ h2 in
      let (_, same) =
        reject->>-eq-ok (is_blank (available_name a reads.available_now input.bws_project_id))
          project_unavailable _ h3 in
      subst (ShowsWidening reads.detail) (ok_inj same) (creates reads.detail _ refl refl)

  metadata_form-ShowsWidening :
      (form : Form) (d : ProjectDetail) (c : PolicyChange)
      → metadata_form is_print form d ≡ ok c
      → ShowsWidening (some d) c
  unfolding metadata_form
  metadata_form-ShowsWidening form d c h =
      let (input, _, same) = >>=-eq-ok (checked_input is_print form) _ h in
      subst (ShowsWidening (some d)) (ok_inj same)
        (changes_metadata d _ refl (widens-eq_false_iff input d))

  mode_change-ShowsWidening :
      (form : Form) (d : ProjectDetail) (c : PolicyChange)
      → mode_change is_print form d ≡ ok c
      → ShowsWidening (some d) c
  unfolding mode_change
  mode_change-ShowsWidening form d c h =
      let mode = form_value form "mode" in
      let (_, h1) =
        reject->>-eq-ok (not (valid_fields form ("mode" ∷ []))) invalid_approval_form _ h in
      let (_, same) =
        reject->>-eq-ok (not (mode == mode_confirm) && not (mode == mode_automatic)) invalid_mode _
          h1 in
      subst (ShowsWidening (some d)) (ok_inj same)
        (sets_mode d _ refl (becomes_automatic_iff mode d.mode))

  add_change-ShowsWidening :
      (form : Form) (d : ProjectDetail) (c : PolicyChange)
      → add_change is_print form ≡ ok c
      → ShowsWidening (some d) c
  unfolding add_change
  add_change-ShowsWidening form d c h =
      let argv = values form "argv" in
      let (_, h1) =
        reject->>-eq-ok
          (not (valid_fields form ("argv" ∷ [])) || is_empty argv || ltb 256 (length argv))
          argv_required _ h in
      let (_, same) =
        reject->>-eq-ok (not (printable_argv is_print false argv)) invalid_argument _ h1 in
      subst (ShowsWidening (some d)) (ok_inj same) (adds_entry d _ refl refl)

  remove_change-ShowsWidening :
      (form : Form) (d : ProjectDetail) (c : PolicyChange)
      → remove_change is_print form d ≡ ok c
      → ShowsWidening (some d) c
  unfolding remove_change
  remove_change-ShowsWidening form d c h =
      let (_, h1) =
        reject->>-eq-ok (not (valid_fields form ("entry" ∷ []))) invalid_removal_form _ h in
      let (argv, _, same) =
        >>=-eq-ok (chosen_entry is_print d (index_value (form_value form "entry"))) _ h1 in
      subst (ShowsWidening (some d)) (ok_inj same) (removes_entry d _ refl refl)

  change_current-ShowsWidening :
      (kind : String) (form : Form) (d : ProjectDetail) (c : PolicyChange)
      → change_current is_print kind form d ≡ ok c
      → ShowsWidening (some d) c
  unfolding change_current
  change_current-ShowsWidening kind form d c h = elim (Bool-cases (kind == "metadata")) [
    | inl e ↦ metadata_form-ShowsWidening form d c (rw e at h)
    | inr e ↦ elim (Bool-cases (kind == "mode")) [
      | inl m ↦ mode_change-ShowsWidening form d c (rw (e, m) at h)
      | inr m ↦ elim (Bool-cases (kind == "add")) [
        | inl a ↦ add_change-ShowsWidening form d c (rw (e, m, a) at h)
        | inr a ↦ remove_change-ShowsWidening form d c (rw (e, m, a) at h)
      ]
    ]
  ]

  read_change-ShowsWidening :
      (kind : String) (form : Form) (seen : Option ProjectDetail) (c : PolicyChange)
      → (or_else project_not_read seen >>= change_current is_print kind form) ≡ ok c
      → ShowsWidening seen c
  read_change-ShowsWidening kind form none c h = cc
  read_change-ShowsWidening kind form (some d) c h = change_current-ShowsWidening kind form d c h

  reviewed_change-ShowsWidening :
      (a : Available) (kind : String) (reads : Reads) (form : Form) (c : PolicyChange)
      → reviewed_change is_print a kind reads form ≡ ok c
      → ShowsWidening reads.detail c
  unfolding reviewed_change
  reviewed_change-ShowsWidening a kind reads form c h = elim (Bool-cases (kind == "create")) [
    | inl e ↦ create_change-ShowsWidening a reads form c (rw e at h)
    | inr e ↦ read_change-ShowsWidening kind form reads.detail c (rw e at h)
  ]

  pub check_review-ShowsWidening :
      (a : Available) (kind revision : String) (reads : Reads) (form : Form) (c : PolicyChange)
      → check_review is_print a kind revision reads form ≡ ok c
      → ShowsWidening reads.detail c
  unfolding check_review
  check_review-ShowsWidening a kind revision reads form c h =
      let (change, made, h1) = >>=-eq-ok (reviewed_change is_print a kind reads form) _ h in
      let (_, same) = >>-eq-ok (same_policy is_print revision reads.latest) _ h1 in
      subst (ShowsWidening reads.detail) (ok_inj same)
        (reviewed_change-ShowsWidening a kind reads form change made)
