-- ===== src/Config/Validity.antt =====
-- What a valid policy is, stated without the order of the checks, and that `validate` decides it.
use secrets_broker.Base.{
  ◌<◌, String, ◌≡◌, refl, ◌≢◌, ◌↔◌, ◌⊎◌, inl, inr, Option, true, not, List, [], ◌∷◌, any,
  any-eq_false_iff, All, arith, eq_iff, ◌==◌, pos_part, ok, reject->>-eq-ok, >>-eq-ok, is_empty,
  is_empty_of_ne, ne_of_is_empty,
}
use secrets_broker.Go.{is_blank}
use secrets_broker.Go.Blank.{is_blank_of_ne, ne_of_is_blank}
use secrets_broker.Config.{
  Config, TokenSource, ApprovalSource, TailscaleRelaySource, Project, AllowEntry,
}
use secrets_broker.Config.Validate.{
  Url, is_http_origin, is_approval_mode, validate_token_source, validate_relay,
  validate_approval_source, validate_allow, validate_project, validate_projects, validate,
  empty_allow_argv, missing_alias, duplicate_alias, project_id_required, token_entry_required,
  approval_unsupported, no_projects,
}

abbrev pub IsTokenSource : TokenSource → Type 0
IsTokenSource s =
    (s.backend ≡ "secret-service")
    ⊎ (s.backend ≡ "env") × (s.env_var ≢ "")
    ⊎ (s.backend ≡ "file") × (s.file_path ≢ "")

pub record IsRelay (parse_url : String → Option Url) (r : TailscaleRelaySource) : Type 0 where
  pub url : r.control_url ≢ ""
  pub origin : is_http_origin (parse_url r.control_url) ≡ true
  pub polls : 0 < pos_part r.poll_interval_seconds
  pub less : pos_part r.poll_interval_seconds < pos_part r.timeout_seconds

abbrev pub IsApprovalSource : (String → Option Url) → ApprovalSource → Type 0
IsApprovalSource parse_url s =
    (s.backend ≡ "kdialog") ⊎ (s.backend ≡ "tailscale-relay") × IsRelay parse_url s.tailscale_relay

abbrev pub IsApprovalMode : String → Type 0
IsApprovalMode a = (a ≡ "always") ⊎ (a ≡ "prompt") ⊎ (a ≡ "allowlisted-prompt") ⊎ (a ≡ "never")

pub record IsProject (p : Project) : Type 0 where
  pub alias : p.alias ≢ ""
  pub bws_project_id : p.bws_project_id ≢ ""
  pub token_entry : p.token_entry ≢ ""
  pub approval : IsApprovalMode p.approval
  pub allow : All (λ e. e.argv ≢ []) p.allow

-- No project has the alias of one before it; `seen` holds those from before the list.
abbrev pub HasFreshAliases : List String → List Project → Type 0
HasFreshAliases seen [] = Unit
HasFreshAliases seen (p ∷ rest) =
    All (λ a. a ≢ p.alias) seen × HasFreshAliases (p.alias ∷ seen) rest

pub record IsValid (parse_url : String → Option Url) (c : Config) : Type 0 where
  pub token_source : IsTokenSource c.token_source
  pub approval_source : IsApprovalSource parse_url c.approval_source
  pub some_project : c.projects ≢ []
  pub projects : All IsProject c.projects
  pub fresh : HasFreshAliases [] c.projects

token_source_iff : (s : TokenSource) → (validate_token_source s ≡ ok tt) ↔ IsTokenSource s
unfolding validate_token_source
token_source_iff s = (
  λ h. ground (
    arith,
    eq_iff s.backend "secret-service",
    eq_iff s.backend "env",
    eq_iff s.backend "file",
    eq_iff s.env_var "",
    eq_iff s.file_path "",
  ),
  elim [
    | inl e ↦ rw e
    | inr (inl (e, n)) ↦ rw (e, is_blank_of_ne n)
    | inr (inr (e, n)) ↦ rw (e, is_blank_of_ne n)
  ],
)

is_approval_mode_iff : (a : String) → (is_approval_mode a ≡ true) ↔ IsApprovalMode a
unfolding is_approval_mode
is_approval_mode_iff a = (
  λ h. ground (
    arith,
    eq_iff a "always",
    eq_iff a "prompt",
    eq_iff a "allowlisted-prompt",
    eq_iff a "never",
  ),
  elim [ inl e ↦ rw e | inr (inl e) ↦ rw e | inr (inr (inl e)) ↦ rw e | inr (inr (inr e)) ↦ rw e ],
)

IsRelay-iff :
    (parse_url : String → Option Url) (r : TailscaleRelaySource)
    → (validate_relay parse_url r ≡ ok tt) ↔ IsRelay parse_url r
unfolding validate_relay
IsRelay-iff parse_url r = (
  λ h. record {
    url = λ e. ground (arith, eq_iff r.control_url "");
    origin = ground arith;
    polls = ground arith;
    less = ground arith;
  },
  λ v. rw (is_blank_of_ne v.url, v.origin) (ground arith),
)

approval_source_iff :
    (parse_url : String → Option Url) (s : ApprovalSource)
    → (validate_approval_source parse_url s ≡ ok tt) ↔ IsApprovalSource parse_url s
unfolding validate_approval_source
approval_source_iff parse_url s = (
  λ h. ground (
    arith,
    eq_iff s.backend "kdialog",
    eq_iff s.backend "tailscale-relay",
    IsRelay-iff parse_url s.tailscale_relay,
  ),
  elim [ inl e ↦ rw e | inr (e, v) ↦ rw e ((IsRelay-iff parse_url s.tailscale_relay).1 v) ],
)

allow_iff :
    (alias : String) (es : List AllowEntry)
    → (validate_allow alias es ≡ ok tt) ↔ All (λ e. e.argv ≢ []) es
unfolding validate_allow
allow_iff alias [] = (λ h. tt, λ h. refl)
allow_iff alias (e ∷ es) = (
  λ h.
      let (full, rest) = reject->>-eq-ok (is_empty e.argv) (empty_allow_argv alias) _ h in
      (ne_of_is_empty e.argv full, (allow_iff alias es).0 rest),
  λ v. rw (is_empty_of_ne e.argv v.0) ((allow_iff alias es).1 v.1),
)

project_iff :
    (seen : List String) (p : Project)
    → (validate_project seen p ≡ ok tt) ↔ (IsProject p × All (λ a. a ≢ p.alias) seen)
unfolding validate_project
project_iff seen p = (
  λ h.
      let (a, h1) = reject->>-eq-ok (is_blank p.alias) missing_alias _ h in
      let (b, h2) = reject->>-eq-ok (any (λ a. a == p.alias) seen) (duplicate_alias p.alias) _ h1 in
      let (c, h3) =
        reject->>-eq-ok (is_blank p.bws_project_id) (project_id_required p.alias) _ h2 in
      let (d, h4) = reject->>-eq-ok (is_blank p.token_entry) (token_entry_required p.alias) _ h3 in
      let (e, h5) =
        reject->>-eq-ok (not (is_approval_mode p.approval)) (approval_unsupported p.alias)
          (validate_allow p.alias p.allow) h4 in
      (
        record {
          alias = ne_of_is_blank a;
          bws_project_id = ne_of_is_blank c;
          token_entry = ne_of_is_blank d;
          approval = (is_approval_mode_iff p.approval).0 (ground arith);
          allow = (allow_iff p.alias p.allow).0 h5;
        },
        (any-eq_false_iff p.alias seen).0 b,
      ),
  λ v.
      rw
        (
          is_blank_of_ne v.0.alias,
          (any-eq_false_iff p.alias seen).1 v.1,
          is_blank_of_ne v.0.bws_project_id,
          is_blank_of_ne v.0.token_entry,
          (is_approval_mode_iff p.approval).1 v.0.approval,
        )
        ((allow_iff p.alias p.allow).1 v.0.allow),
)

projects_iff :
    (seen : List String) (ps : List Project)
    → (validate_projects seen ps ≡ ok tt) ↔ (All IsProject ps × HasFreshAliases seen ps)
unfolding validate_projects
projects_iff seen [] = (λ h. (tt, tt), λ h. refl)
projects_iff seen (p ∷ ps) =
    let (to, from) = project_iff seen p in
    let (rest_to, rest_from) = projects_iff (p.alias ∷ seen) ps in
    (
      λ h.
          let (first, rest) = >>-eq-ok (validate_project seen p) _ h in
          let (valid, fresh) = to first in
          let (valids, freshes) = rest_to rest in ((valid, valids), (fresh, freshes)),
      λ v. rw (from (v.0.0, v.1.0)) (rest_from (v.0.1, v.1.1)),
    )

-- `validate` passes exactly the valid policies: a supported token source and approval backend with
-- what they need, at least one project, every project complete with a known approval mode and no
-- empty allow entry, and no alias used twice.
pub validate-IsValid_iff :
    (parse_url : String → Option Url) (c : Config)
    → (validate parse_url c ≡ ok tt) ↔ IsValid parse_url c
unfolding validate
validate-IsValid_iff parse_url c = (
  λ h.
      let (a, h1) = >>-eq-ok (validate_token_source c.token_source) _ h in
      let (b, h2) = >>-eq-ok (validate_approval_source parse_url c.approval_source) _ h1 in
      let (d, h3) =
        reject->>-eq-ok (is_empty c.projects) no_projects (validate_projects [] c.projects) h2 in
      let (valids, fresh) = (projects_iff [] c.projects).0 h3 in
      record {
        token_source = (token_source_iff c.token_source).0 a;
        approval_source = (approval_source_iff parse_url c.approval_source).0 b;
        some_project = ne_of_is_empty c.projects d;
        projects = valids;
        fresh = fresh;
      },
  λ v.
      rw
        (
          (token_source_iff c.token_source).1 v.token_source,
          (approval_source_iff parse_url c.approval_source).1 v.approval_source,
          is_empty_of_ne c.projects v.some_project,
        )
        ((projects_iff [] c.projects).1 (v.projects, v.fresh)),
)
