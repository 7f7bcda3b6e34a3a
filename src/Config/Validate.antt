-- ===== src/Config/Validate.antt =====
-- internal/config/config.go: `validate`. `url.Parse` is a parameter of it.
use secrets_broker.Base.{
  ◌+◌, pos, String, Option, none, some, Bool, false, not, ◌&&◌, ◌||◌, List, [], ◌∷◌, any, is_empty,
  ℤ, pos_part, neg_part, leb, if◌then◌else◌, ◌==◌, Check, ok, err, reject, ◌>>◌,
}
use secrets_broker.Go.{is_blank}
use secrets_broker.Config.{
  Config, TokenSource, ApprovalSource, TailscaleRelaySource, Project, AllowEntry, approval_always,
  approval_prompt, approval_allowlisted_prompt, approval_never, backend_secret_service, backend_env,
  backend_file, approval_backend_kdialog, approval_backend_tailscale_relay,
}

-- What `validate` and `sameOrigin` read of a `url.URL`.
pub record Url : Type 0 where
  pub scheme : String
  pub host : String
  pub has_user : Bool
  pub path : String
  pub raw_query : String
  pub fragment : String

pub data Invalid : Type 0 where
  env_var_required file_path_required token_backend_unsupported : Invalid
  control_url_required control_url_not_origin : Invalid
  poll_interval_not_positive timeout_not_positive poll_interval_not_less : Invalid
  approval_backend_unsupported no_projects missing_alias : Invalid
  duplicate_alias project_id_required token_entry_required : String → Invalid
  approval_unsupported empty_allow_argv : String → Invalid

-- `a <= b` on integers.
abbrev pub leb_ℤ : ℤ → ℤ → Bool
leb_ℤ a b = leb (pos_part a + neg_part b) (pos_part b + neg_part a)

unfoldable pub validate_token_source : TokenSource → Check Invalid
validate_token_source s =
    if s.backend == backend_secret_service
    then ok tt
    else if s.backend == backend_env
    then reject (is_blank s.env_var) env_var_required
    else if s.backend == backend_file
    then reject (is_blank s.file_path) file_path_required
    else err token_backend_unsupported

-- The condition on the parsed control URL, negated.
unfoldable pub is_http_origin : Option Url → Bool
is_http_origin none = false
is_http_origin (some u) =
    u.scheme == "http"
    && not (is_blank u.host)
    && not u.has_user
    && is_blank u.path
    && is_blank u.raw_query
    && is_blank u.fragment

module _ (parse_url : String → Option Url) where
  unfoldable pub validate_relay : TailscaleRelaySource → Check Invalid
  validate_relay r = do
    reject (is_blank r.control_url) control_url_required
    reject (not (is_http_origin (parse_url r.control_url))) control_url_not_origin
    reject (leb_ℤ r.poll_interval_seconds (pos 0)) poll_interval_not_positive
    reject (leb_ℤ r.timeout_seconds (pos 0)) timeout_not_positive
    reject (leb_ℤ r.timeout_seconds r.poll_interval_seconds) poll_interval_not_less

  unfoldable pub validate_approval_source : ApprovalSource → Check Invalid
  validate_approval_source s =
      if s.backend == approval_backend_kdialog
      then ok tt
      else if s.backend == approval_backend_tailscale_relay
      then validate_relay s.tailscale_relay
      else err approval_backend_unsupported

unfoldable pub is_approval_mode : String → Bool
is_approval_mode a =
    a == approval_always
    || a == approval_prompt
    || a == approval_allowlisted_prompt
    || a == approval_never

-- The inner loop over `p.Allow`.
unfoldable pub validate_allow : String → List AllowEntry → Check Invalid
validate_allow alias [] = ok tt
validate_allow alias (e ∷ rest) =
    reject (is_empty e.argv) (empty_allow_argv alias) >> validate_allow alias rest

-- One round of the loop over the projects; `seen` lists the aliases that came before.
unfoldable pub validate_project : List String → Project → Check Invalid
validate_project seen p = do
  reject (is_blank p.alias) missing_alias
  reject (any (λ a. a == p.alias) seen) (duplicate_alias p.alias)
  reject (is_blank p.bws_project_id) (project_id_required p.alias)
  reject (is_blank p.token_entry) (token_entry_required p.alias)
  reject (not (is_approval_mode p.approval)) (approval_unsupported p.alias)
  validate_allow p.alias p.allow

unfoldable pub validate_projects : List String → List Project → Check Invalid
validate_projects seen [] = ok tt
validate_projects seen (p ∷ rest) =
    validate_project seen p >> validate_projects (p.alias ∷ seen) rest

-- `(*Config).validate`.
unfoldable pub validate : (String → Option Url) → Config → Check Invalid
validate parse_url c = do
  validate_token_source c.token_source
  validate_approval_source parse_url c.approval_source
  reject (is_empty c.projects) no_projects
  validate_projects [] c.projects
