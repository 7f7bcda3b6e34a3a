-- ===== src/Admin/Editor/Spec.antt =====
-- What the editor's operations promise, on the policy alone: each changes one project, found by its
-- alias, or adds one.
use secrets_broker.Base.{
  ℕ, zero, suc, ◌+◌, String, ◌≡◌, refl, Bool, true, false, not, Option, none, some, List, [], ◌∷◌,
  ◌++◌, any, keep, ◌==◌, if◌then◌else◌, arith, ok, ok_inj, ◌≤◌, ap, sym,
}
use secrets_broker.Config.{Config, Project, approval_allowlisted_prompt, approval_never}
use secrets_broker.Policy.{argv_equal}
use secrets_broker.Admin.Editor.{
  ProjectInput, ProjectMetadataUpdate, find_from, set_project, mode_automatic, mode_confirm,
  field_value,
}

pub data Edit : Type 0 where
  create_project : ProjectInput → Edit
  update_project_metadata : String → ProjectMetadataUpdate → Edit
  set_approval : String → String → Edit
  add_allowlist : String → List String → Edit
  remove_allowlist : String → List String → Edit

-- The first project with the alias, changed; `none` without one.
unfoldable prepend : Project → Option (List Project) → Option (List Project)
prepend p none = none
prepend p (some rest) = some (p ∷ rest)

unfoldable pub change_first : (Project → Project) → String → List Project → Option (List Project)
unfolding prepend
change_first change alias [] = none
change_first change alias (p ∷ rest) =
    let later = prepend p (change_first change alias rest) in
    if p.alias == alias then some (change p ∷ rest) else later

unfoldable pub with_projects : Config → Option (List Project) → Option Config
with_projects c none = none
with_projects c (some projects) = some (record c { projects = projects })

abbrev pub with_approval : String → Project → Project
with_approval approval p = record p { approval = approval }

abbrev pub with_metadata : ProjectMetadataUpdate → Project → Project
with_metadata u p = record p {
  bws_project_id = field_value u.bws_project_id p.bws_project_id;
  token_entry = field_value u.token_entry p.token_entry;
  working_dir = field_value u.working_dir p.working_dir;
}

abbrev pub with_entry : List String → Project → Project
with_entry argv p =
    if any (λ e. argv_equal e.argv argv) p.allow
    then p
    else record p { allow = p.allow ++ record { argv = argv } ∷ [] }

abbrev pub without_entry : List String → Project → Project
without_entry argv p = record p { allow = keep (λ e. not (argv_equal e.argv argv)) p.allow }

-- The policy after the edit; `none` when the edit does not apply.
unfoldable pub edit_config : Edit → Config → Option Config
unfolding change_first with_projects
edit_config (create_project input) c =
    if any (λ p. p.alias == input.alias) c.projects
    then none
    else some (record c {
      projects =
          c.projects
          ++ record {
            alias = input.alias;
            bws_project_id = input.bws_project_id;
            token_entry = input.token_entry;
            working_dir = input.working_dir;
            approval = approval_allowlisted_prompt;
            allow = [];
          }
            ∷ [];
    })
edit_config (update_project_metadata alias u) c =
    with_projects c (change_first (with_metadata u) alias c.projects)
edit_config (set_approval alias mode) c =
    if mode == mode_automatic
    then with_projects c (change_first (with_approval approval_never) alias c.projects)
    else if mode == mode_confirm
    then with_projects c (change_first (with_approval approval_allowlisted_prompt) alias c.projects)
    else none
edit_config (add_allowlist alias argv) c =
    with_projects c (change_first (with_entry argv) alias c.projects)
edit_config (remove_allowlist alias argv) c =
    with_projects c (change_first (without_entry argv) alias c.projects)

find_from-le :
    (alias : String) (start : ℕ) (ps : List Project) (found : ℕ × Project)
    → find_from alias start ps ≡ ok found
    → start ≤ found.0
unfolding find_from
find_from-le alias start [] found h = cc
find_from-le alias start (p ∷ ps) found h =
    by_alias (p.alias == alias) (find_from-le alias (start + 1) ps found) h
  where
    by_alias :
        (b : Bool)
        → (find_from alias (start + 1) ps ≡ ok found → start + 1 ≤ found.0)
        → (if b then ok (start, p) else find_from alias (start + 1) ps) ≡ ok found
        → start ≤ found.0
    by_alias true later h = let same : start ≡ found.0 = ap (λ f. f.0) (ok_inj h) in omega arith
    by_alias false later h = omega (arith, later h)

-- The index that `find_indexed` finds is that of the project which the specification changes.
pub change_first-set_project :
    (change : Project → Project) (alias : String) (start k : ℕ) (ps : List Project)
    (found : ℕ × Project)
    → find_from alias start ps ≡ ok found
    → start + k ≡ found.0
    → (change_first change alias ps ≡ some (set_project ps k (change found.1)))
      × (set_project ps k found.1 ≡ ps)
unfolding find_from change_first set_project
change_first-set_project change alias start k [] found h e = cc
change_first-set_project change alias start k (p ∷ ps) found h e =
    by_alias (p.alias == alias) k
      (λ k'. change_first-set_project change alias (start + 1) k' ps found) refl h e
  where
    by_alias :
        (b : Bool) (k : ℕ)
        → ((k' : ℕ)
            → find_from alias (start + 1) ps ≡ ok found
            → start + 1 + k' ≡ found.0
            → (change_first change alias ps ≡ some (set_project ps k' (change found.1)))
              × (set_project ps k' found.1 ≡ ps))
        → (p.alias == alias) ≡ b
        → (if b then ok (start, p) else find_from alias (start + 1) ps) ≡ ok found
        → start + k ≡ found.0
        → ((if b then some (change p ∷ ps) else prepend p (change_first change alias ps))
            ≡ some (set_project (p ∷ ps) k (change found.1)))
          × (set_project (p ∷ ps) k found.1 ≡ p ∷ ps)
    by_alias true zero later t h e =
        (ap (λ f. some (change f.1 ∷ ps)) (ok_inj h), ap (λ f. f.1 ∷ ps) (sym (ok_inj h)))
    by_alias true (suc k) later t h e =
        let same : start ≡ found.0 = ap (λ f. f.0) (ok_inj h) in absurd (omega arith)
    by_alias false zero later t h e =
        let far = find_from-le alias (start + 1) ps found h in absurd (omega arith)
    by_alias false (suc k) later t h e =
        let (a, b) = later k h (omega arith) in (rw a, ap (λ qs. p ∷ qs) b)
