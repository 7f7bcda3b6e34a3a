-- ===== src/Accessdiag.antt =====
-- internal/accessdiag/result.go. `unicode.IsPrint` is a parameter, by the code of the character.
pub mod Severity
pub mod Validity
mod Examples
use Prim.Native.String
use secrets_broker.Base.{
  ℕ, String, Bool, false, not, ◌&&◌, ◌||◌, List, [], ◌∷◌, any, is_empty, eqb, if◌then◌else◌, ◌==◌,
  Check, ok, reject, ◌>>=◌, ◌>>◌,
}
use secrets_broker.Go.{is_blank}
use secrets_broker.Go.Printing.{all_print}

abbrev pub version : ℕ
version = 1

-- The valid values of `Status` and of `Outcome`; the source's are texts.
abbrev pub status_accessible : String
status_accessible = "accessible"

abbrev pub status_inaccessible : String
status_inaccessible = "inaccessible"

abbrev pub status_authentication_error : String
status_authentication_error = "authentication_error"

abbrev pub status_network_error : String
status_network_error = "network_error"

abbrev pub status_api_error : String
status_api_error = "api_error"

abbrev pub status_unknown_error : String
status_unknown_error = "unknown_error"

abbrev pub outcome_all_accessible : String
outcome_all_accessible = "all_accessible"

pub record ProjectResult : Type 0 where
  pub alias : String
  pub bws_project_id : String
  pub status : String

pub record AccessResult : Type 0 where
  pub version : ℕ
  pub outcome : String
  pub projects : List ProjectResult

-- What one project makes of the worst outcome so far, but for `authentication_error`, at which the loop
-- returns. The outcomes but `all_accessible` are spelled as the statuses are.
unfoldable pub worsen : String → String → String
worsen status worst =
    if status == status_network_error
    then (if not (worst == status_authentication_error) then status_network_error else worst)
    else if status == status_api_error
    then (if not (worst == status_network_error) then status_api_error else worst)
    else if status == status_unknown_error
    then (if not (worst == status_network_error) && not (worst == status_api_error)
        then status_unknown_error
        else worst)
    else if status == status_inaccessible
    then (if worst == outcome_all_accessible then status_inaccessible else worst)
    else worst

-- The loop of `Aggregate`, over the projects that are left.
unfoldable pub aggregate_from : String → List ProjectResult → String
unfolding worsen
aggregate_from worst [] = worst
aggregate_from worst (p ∷ rest) =
    let more = aggregate_from (worsen p.status worst) rest in
    if p.status == status_authentication_error then status_authentication_error else more

unfoldable pub aggregate : List ProjectResult → String
aggregate projects = aggregate_from outcome_all_accessible projects

-- `Status.Valid`.
unfoldable pub is_valid_status : String → Bool
is_valid_status s =
    (s == status_accessible)
    || (s == status_inaccessible)
    || (s == status_authentication_error)
    || (s == status_network_error)
    || (s == status_api_error)
    || (s == status_unknown_error)

pub data Invalid : Type 0 where
  unsupported_version no_projects invalid_identifier outcome_mismatch : Invalid
  duplicate_alias invalid_status : String → Invalid

module _ (is_print : ℕ → Bool) where
  -- `safeIdentifier`.
  unfoldable pub is_safe_identifier : String → Bool
  is_safe_identifier value = if is_blank value then false else all_print is_print value

  -- The loop of `Validate`, with the aliases seen.
  unfoldable pub validate_projects : List String → List ProjectResult → Check Invalid
  validate_projects seen [] = ok tt
  validate_projects seen (p ∷ rest) =
      reject (not (is_safe_identifier p.alias) || not (is_safe_identifier p.bws_project_id))
        invalid_identifier
      >> (reject (any (λ a. a == p.alias) seen) (duplicate_alias p.alias)
          >> (reject (not (is_valid_status p.status)) (invalid_status p.status)
              >> validate_projects (p.alias ∷ seen) rest))

  -- `Result.Validate`.
  unfoldable pub validate : AccessResult → Check Invalid
  validate r = do
    reject (not (eqb r.version version)) unsupported_version
    reject (is_empty r.projects) no_projects
    validate_projects [] r.projects
    reject (not (r.outcome == aggregate r.projects)) outcome_mismatch
