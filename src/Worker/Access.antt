-- ===== src/Worker/Access.antt =====
-- internal/worker/access.go and projects.go: what the worker asks `bws` about projects. The call of `bws`,
-- with what its bounded buffers hold, and `strings.ToLower` are parameters.
pub mod Diagnosis
pub mod Examples
use Prim.Native.String
use Prim.Native.String.{◌++◌ as ◌+s◌}
use secrets_broker.Base.{
  ℕ, String, code, Option, none, some, Bool, true, false, not, ◌&&◌, ◌||◌, List, [], ◌∷◌, any, leb,
  eqb, ℤ, is_zero, if◌then◌else◌, ◌==◌, Result, ok, err, ◌>>=◌, ◌>>◌, map_err,
}
use secrets_broker.Go.{is_blank, contains}
use secrets_broker.Config.{Config, Project}
use secrets_broker.Config.Worker.{load_worker}
use secrets_broker.Token.{resolve_file}
use secrets_broker.Accessdiag.{
  AccessResult, ProjectResult, aggregate, version, status_accessible, status_inaccessible,
  status_authentication_error, status_network_error, status_api_error, status_unknown_error,
}
use secrets_broker.Projectlist.{ProjectList, Item, from_bws}
use secrets_broker.Runner.{Call, build_env}
use secrets_broker.Worker.Server.{World, trusted_policy}

-- The test of `httpStatusPattern` from an opening bracket on: a status of the 400s or 500s, a blank, and a
-- text of at least one character up to a closing bracket.
abbrev pub is_digit : ℕ → Bool
is_digit c = leb 48 c && leb c 57

unfoldable pub has_bracket : String → Bool
has_bracket String.[] = false
has_bracket (String.◌∷◌ c s) = if eqb (code c) 93 then true else has_bracket s

unfoldable pub is_reason : String → Bool
is_reason String.[] = false
is_reason (String.◌∷◌ c s) = not (eqb (code c) 93) && has_bracket s

unfoldable pub starts_status : String → Bool
starts_status (String.◌∷◌ a (String.◌∷◌ b (String.◌∷◌ c (String.◌∷◌ d (String.◌∷◌ e s))))) =
    eqb (code a) 91
    && (eqb (code b) 52 || eqb (code b) 53)
    && is_digit (code c)
    && is_digit (code d)
    && eqb (code e) 32
    && is_reason s
starts_status s = false

unfoldable pub has_http_status : String → Bool
has_http_status String.[] = false
has_http_status (String.◌∷◌ c s) = starts_status (String.◌∷◌ c s) || has_http_status s

abbrev pub network_patterns : List String
network_patterns =
    "dns error" ∷ "failed to lookup address" ∷ "name or service not known"
    ∷ "temporary failure in name resolution" ∷ "connection refused" ∷ "connection reset"
    ∷ "connection timed out" ∷ "request timed out" ∷ "operation timed out" ∷ "deadline has elapsed"
    ∷ "error sending request" ∷ "tcp connect error" ∷ "connect error" ∷ "tls error"
    ∷ "certificate verify failed" ∷ "invalid peer certificate" ∷ "transport error" ∷ []

unfoldable pub has_network_error : String → Bool
has_network_error message = any (λ pattern. contains message pattern) network_patterns

-- The switch of `classifyAccess`, by the message in lower case and the message as it is.
unfoldable pub classify_message : String → String → String
classify_message lower stderr =
    if contains lower "[401 unauthorized]" || contains lower "[403 forbidden]"
    then status_authentication_error
    else if contains lower "[404 not found]"
    then status_inaccessible
    else if has_http_status stderr
    then status_api_error
    else if contains lower "authentication failed"
        || contains lower "invalid access token"
        || contains lower "missing access token"
    then status_authentication_error
    else if has_network_error lower
    then status_network_error
    else status_unknown_error

unfoldable pub classify_access : (String → String) → ℤ → String → String
classify_access to_lower code stderr =
    if is_zero code then status_accessible else classify_message (to_lower stderr) stderr

-- What a call of `bws` leaves: the exit code, or `none` for an error of the call; whether the time for it
-- was over; what the buffers hold, and whether more was written.
pub record BwsAnswer : Type 0 where
  pub exit : Option ℤ
  pub timed_out : Bool
  pub stdout : String
  pub stdout_exceeded : Bool
  pub stderr : String
  pub stderr_exceeded : Bool

pub data AccessError : Type 0 where
  policy_unavailable unknown_alias token_unavailable output_exceeded not_started : AccessError
  list_failed list_invalid : AccessError

abbrev pub bws_call : Config → String → List String → Call
bws_call cfg token args = record {
  name = cfg.runtime.bws_binary;
  args = args;
  env = build_env token cfg.runtime.command_path cfg.runtime.home;
  dir = cfg.runtime.home;
}

abbrev pub get_args : String → List String
get_args project_id = "project" ∷ "get" ∷ project_id ∷ "--output" ∷ "none" ∷ "--color" ∷ "no" ∷ []

-- `selectAccessProjects`.
unfoldable pub find_alias : String → List Project → Result AccessError (List Project)
find_alias alias [] = err unknown_alias
find_alias alias (p ∷ rest) = if p.alias == alias then ok (p ∷ []) else find_alias alias rest

unfoldable pub select_access_projects : List Project → String → Result AccessError (List Project)
select_access_projects projects alias =
    if is_blank alias then ok projects else find_alias alias projects

module _ (to_lower : String → String) (bws : Call → BwsAnswer) where
  abbrev pub classify_exit : Option ℤ → String → Result AccessError String
  classify_exit none stderr = err not_started
  classify_exit (some code) stderr = ok (classify_access to_lower code stderr)

  abbrev pub judge : BwsAnswer → Result AccessError String
  judge a =
      if a.stderr_exceeded
      then err output_exceeded
      else if a.timed_out
      then ok status_network_error
      else classify_exit a.exit a.stderr

  -- `probeAccess`.
  unfoldable pub probe_access : Config → String → String → Result AccessError String
  probe_access cfg token project_id = judge (bws (bws_call cfg token (get_args project_id)))

  -- The loop of `CheckAccess`.
  unfoldable pub probe_all :
      Config → String → List Project → Result AccessError (List ProjectResult)
  probe_all cfg token [] = ok []
  probe_all cfg token (p ∷ rest) = do
    status ← probe_access cfg token p.bws_project_id
    results ← probe_all cfg token rest
    ok (record { alias = p.alias; bws_project_id = p.bws_project_id; status = status } ∷ results)

  abbrev pub access_result : List ProjectResult → AccessResult
  access_result results = record {
    version = version;
    outcome = aggregate results;
    projects = results;
  }

  unfoldable pub check_policy : World → String → Option Config → Result AccessError AccessResult
  check_policy w alias none = err policy_unavailable
  check_policy w alias (some cfg) = do
    projects ← select_access_projects cfg.projects alias
    token ←
        map_err (λ e. token_unavailable) (resolve_file (w.read_token [] cfg.token_source.file_path))
    results ← probe_all cfg token projects
    ok (access_result results)

  -- `CheckAccess`.
  unfoldable pub check_access : World → String → Result AccessError AccessResult
  check_access w alias =
      check_policy w alias (trusted_policy w (load_worker w.parse_url w.decode w.policy))

  -- The checks of `ListProjects` on the answer.
  abbrev pub succeeded : BwsAnswer → Bool
  succeeded a =
      (elim a.exit [ none ↦ false | some code ↦ is_zero code ])
      && not a.stdout_exceeded
      && not a.stderr_exceeded
      && is_blank a.stderr

  abbrev pub read_list :
      (ℕ → Bool) → (String → Option (List Item)) → BwsAnswer → Result AccessError ProjectList
  read_list is_print decode_list a =
      if not (succeeded a)
      then err list_failed
      else map_err (λ e. list_invalid) (from_bws is_print decode_list a.stdout)

  unfoldable pub list_policy :
      (String → Option (List Item)) → World → Option Config → Result AccessError ProjectList
  list_policy decode_list w none = err policy_unavailable
  list_policy decode_list w (some cfg) = do
    token ←
        map_err (λ e. token_unavailable) (resolve_file (w.read_token [] cfg.token_source.file_path))
    read_list w.is_print decode_list (
        bws (bws_call cfg token ("project" ∷ "list" ∷ "--output" ∷ "json" ∷ "--color" ∷ "no" ∷ [])))

  -- `ListProjects`.
  unfoldable pub list_projects :
      (String → Option (List Item)) → World → Result AccessError ProjectList
  list_projects decode_list w =
      list_policy decode_list w (trusted_policy w (load_worker w.parse_url w.decode w.policy))
