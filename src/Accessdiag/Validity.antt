-- ===== src/Accessdiag/Validity.antt =====
-- `Result.Validate` of internal/accessdiag/result.go: which diagnoses the administrator accepts.
use secrets_broker.Base.{
  ℕ, String, ◌≡◌, refl, ◌∙◌, sym, ◌≢◌, ◌⊎◌, inl, inr, ◌↔◌, Bool, true, Bool-cases, not, ◌||◌, List,
  [], ◌∷◌, All, any, is_empty, is_empty_of_ne, ne_of_is_empty, any-eq_false_iff, eqb, eqb-eq_iff,
  ◌==◌, eq_iff, arith, ok, reject->>-eq-ok, reject-eq-ok, >>-eq-ok,
}
use secrets_broker.Go.Printing.{IsPrintable, all_print_iff}
use secrets_broker.Go.{is_blank}
use secrets_broker.Go.Blank.{ne_of_is_blank}
use secrets_broker.Accessdiag.{
  ProjectResult, AccessResult, unsupported_version, no_projects, invalid_identifier,
  outcome_mismatch, duplicate_alias, invalid_status, aggregate, is_valid_status, is_safe_identifier,
  validate_projects, validate,
}
use secrets_broker.Accessdiag.Severity.{outcome_name, worst, aggregate-worst}

abbrev pub IsStatus : String → Type 0
IsStatus s =
    (s ≡ "accessible")
    ⊎ (s ≡ "inaccessible")
    ⊎ (s ≡ "authentication_error")
    ⊎ (s ≡ "network_error")
    ⊎ (s ≡ "api_error")
    ⊎ (s ≡ "unknown_error")

is_valid_status_iff : (s : String) → (is_valid_status s ≡ true) ↔ IsStatus s
unfolding is_valid_status
is_valid_status_iff s = (
  λ h. ground (
    arith,
    eq_iff s "accessible",
    eq_iff s "inaccessible",
    eq_iff s "authentication_error",
    eq_iff s "network_error",
    eq_iff s "api_error",
    eq_iff s "unknown_error",
  ),
  λ v. ground (
    arith,
    eq_iff s "accessible",
    eq_iff s "inaccessible",
    eq_iff s "authentication_error",
    eq_iff s "network_error",
    eq_iff s "api_error",
    eq_iff s "unknown_error",
  ),
)

module _ (is_print : ℕ → Bool) where
  abbrev pub IsIdentifier : String → Type 0
  IsIdentifier s = (s ≢ "") × IsPrintable is_print s

  pub record IsProject (p : ProjectResult) : Type 0 where
    pub alias : IsIdentifier p.alias
    pub bws_project_id : IsIdentifier p.bws_project_id
    pub status : IsStatus p.status

  -- No project has the alias of one before it; `seen` holds those from before the list.
  abbrev pub HasFreshAliases : List String → List ProjectResult → Type 0
  HasFreshAliases seen [] = Unit
  HasFreshAliases seen (p ∷ rest) =
      All (λ a. a ≢ p.alias) seen × HasFreshAliases (p.alias ∷ seen) rest

  pub record IsDiagnosis (r : AccessResult) : Type 0 where
    pub version : r.version ≡ 1
    pub some_project : r.projects ≢ []
    pub projects : All IsProject r.projects
    pub fresh : HasFreshAliases [] r.projects
    pub outcome : r.outcome ≡ outcome_name (worst r.projects)

  is_safe_identifier_iff : (s : String) → (is_safe_identifier is_print s ≡ true) ↔ IsIdentifier s
  unfolding is_safe_identifier
  is_safe_identifier_iff s = elim (Bool-cases (is_blank s)) [
    | inl blank ↦ (λ h. ground (arith, h, blank), λ v. absurd (v.0 ((eq_iff s "").0 blank)))
    | inr full ↦ (
      λ h. (ne_of_is_blank full, (all_print_iff is_print s).0 (ground (arith, h, full))),
      λ v. rw full ((all_print_iff is_print s).1 v.1),
    )
  ]

  projects_iff :
      (seen : List String) (ps : List ProjectResult)
      → (validate_projects is_print seen ps ≡ ok tt) ↔ (All IsProject ps × HasFreshAliases seen ps)
  unfolding validate_projects
  projects_iff seen [] = (λ h. (tt, tt), λ h. refl)
  projects_iff seen (p ∷ ps) = (
    λ h.
        let (named, h1) =
          reject->>-eq-ok
            (not (is_safe_identifier is_print p.alias)
              || not (is_safe_identifier is_print p.bws_project_id))
            invalid_identifier _ h in
        let (fresh, h2) =
          reject->>-eq-ok (any (λ a. a == p.alias) seen) (duplicate_alias p.alias) _ h1 in
        let (good, h3) =
          reject->>-eq-ok (not (is_valid_status p.status)) (invalid_status p.status)
            (validate_projects is_print (p.alias ∷ seen) ps) h2 in
        let (projects, freshes) = (projects_iff (p.alias ∷ seen) ps).0 h3 in
        (
          (
            record {
              alias = (is_safe_identifier_iff p.alias).0 (ground arith);
              bws_project_id = (is_safe_identifier_iff p.bws_project_id).0 (ground arith);
              status = (is_valid_status_iff p.status).0 (ground arith);
            },
            projects,
          ),
          ((any-eq_false_iff p.alias seen).0 fresh, freshes),
        ),
    λ v.
        rw
          (
            (is_safe_identifier_iff p.alias).1 v.0.0.alias,
            (is_safe_identifier_iff p.bws_project_id).1 v.0.0.bws_project_id,
            (any-eq_false_iff p.alias seen).1 v.1.0,
            (is_valid_status_iff p.status).1 v.0.0.status,
          )
          ((projects_iff (p.alias ∷ seen) ps).1 (v.0.1, v.1.1)),
  )

  -- `Validate` passes exactly the diagnoses of version 1 with at least one project, whose aliases and
  -- project identifiers are printable and not empty, whose aliases are all different, whose statuses are
  -- known, and whose outcome is that of the worst project.
  pub validate-IsDiagnosis_iff : (r : AccessResult) → (validate is_print r ≡ ok tt) ↔ IsDiagnosis r
  unfolding validate
  validate-IsDiagnosis_iff r = (
    λ h.
        let (v, h1) = reject->>-eq-ok (not (eqb r.version 1)) unsupported_version _ h in
        let (some_project, h2) = reject->>-eq-ok (is_empty r.projects) no_projects _ h1 in
        let (each, last) = >>-eq-ok (validate_projects is_print [] r.projects) _ h2 in
        let (projects, fresh) = (projects_iff [] r.projects).0 each in
        record {
          version = (eqb-eq_iff r.version 1).0 (ground arith);
          some_project = ne_of_is_empty r.projects some_project;
          projects = projects;
          fresh = fresh;
          outcome =
              (eq_iff r.outcome (aggregate r.projects)).0
                (ground (arith, reject-eq-ok _ outcome_mismatch last))
              ∙ aggregate-worst r.projects;
        },
    λ v.
        rw
          (
            (eqb-eq_iff r.version 1).1 v.version,
            is_empty_of_ne r.projects v.some_project,
            (projects_iff [] r.projects).1 (v.projects, v.fresh),
            (eq_iff r.outcome (aggregate r.projects)).1
                (v.outcome ∙ sym (aggregate-worst r.projects)),
          )
          refl,
  )
