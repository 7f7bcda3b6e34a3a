-- ===== src/Web.antt =====
-- internal/adminweb: the administrator's web pages. The state of the server is its form tokens; a form's
-- values are texts, so the refusal of bytes that are no UTF-8 is left out.
pub mod Forms
pub mod Tokens
pub mod Guard
pub mod Controls
pub mod Commit
pub mod Serve
mod Examples
use secrets_broker.Base.{ℕ, String, Bool, Option, none, some, List, Result, ok, err}
use secrets_broker.Admin.Editor.{ProjectInput}

-- `Config`; the approval link is only shown.
pub record WebConfig : Type 0 where
  pub host : String
  pub login : String
  pub approval_url : String

pub record PolicyChange : Type 0 where
  pub kind : String
  pub alias : String
  pub project_name : String
  pub input : ProjectInput
  pub mode : String
  pub argv : List String
  pub widen : Bool

pub record FormToken : Type 0 where
  pub action : String
  pub login : String
  pub revision : String
  pub target : String
  pub expires : ℕ
  pub change : Option PolicyChange

-- The refusals, by their messages.
pub data WebError : Type 0 where
  access_denied method_not_allowed origin_denied unsupported_form_type invalid_form : WebError
  invalid_form_token form_expired form_target_changed policy_not_read policy_changed : WebError
  project_not_read invalid_project_form invalid_input alias_exists project_unavailable : WebError
  invalid_approval_form invalid_mode argv_required invalid_argument invalid_removal_form : WebError
  invalid_entry changed_before_review too_many_forms change_not_confirmed invalid_change : WebError
  policy_busy changed_before_commit change_not_completed audit_not_completed list_not_read :
      WebError

abbrev pub error_code : WebError → ℕ
error_code access_denied = 403
error_code method_not_allowed = 405
error_code origin_denied = 403
error_code unsupported_form_type = 415
error_code invalid_form = 400
error_code invalid_form_token = 403
error_code form_expired = 403
error_code form_target_changed = 403
error_code policy_not_read = 503
error_code policy_changed = 409
error_code project_not_read = 503
error_code invalid_project_form = 400
error_code invalid_input = 400
error_code alias_exists = 400
error_code project_unavailable = 409
error_code invalid_approval_form = 400
error_code invalid_mode = 400
error_code argv_required = 400
error_code invalid_argument = 400
error_code invalid_removal_form = 400
error_code invalid_entry = 400
error_code changed_before_review = 409
error_code too_many_forms = 503
error_code change_not_confirmed = 400
error_code invalid_change = 400
error_code policy_busy = 409
error_code changed_before_commit = 409
error_code change_not_completed = 503
error_code audit_not_completed = 503
error_code list_not_read = 503

-- The refusal of what is missing.
abbrev pub or_else : {A : Type 0} → WebError → Option A → Result WebError A
or_else e none = err e
or_else e (some a) = ok a
