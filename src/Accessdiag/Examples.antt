-- ===== src/Accessdiag/Examples.antt =====
-- The diagnosis of a project that BWS does not show and one that it could not be asked for.
use secrets_broker.Base.{◌≡◌, ◌↔◌, true, List, [], ◌∷◌, ok}
use secrets_broker.Accessdiag.{ProjectResult, AccessResult, aggregate, validate}
use secrets_broker.Accessdiag.Severity.{outcome_name, worst, aggregate-worst}
use secrets_broker.Accessdiag.Validity.{IsDiagnosis, validate-IsDiagnosis_iff}

abbrev projects : List ProjectResult
projects =
    record { alias = "infra"; bws_project_id = "p1"; status = "inaccessible" }
    ∷ record { alias = "site"; bws_project_id = "p2"; status = "network_error" }
    ∷ []

abbrev diagnosis : AccessResult
diagnosis = record { version = 1; outcome = "network_error"; projects = projects }

aggregate-worst_example : aggregate projects ≡ outcome_name (worst projects)
aggregate-worst_example = aggregate-worst projects

validate-IsDiagnosis_iff_example :
    (validate (λ c. true) diagnosis ≡ ok tt) ↔ IsDiagnosis (λ c. true) diagnosis
validate-IsDiagnosis_iff_example = validate-IsDiagnosis_iff (λ c. true) diagnosis
