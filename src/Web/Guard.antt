-- ===== src/Web/Guard.antt =====
-- internal/adminweb/server.go: `ServeHTTP` and `protectPost`.
pub mod Passes
use Prim.Native.String
use secrets_broker.Base.{
  ℕ, String, Option, none, some, Bool, false, not, ◌&&◌, ◌||◌, List, [], ◌∷◌, length, eqb, ◌==◌,
  if◌then◌else◌, Result, Check, ok, err, reject, ◌>>=◌, ◌>>◌,
}
use secrets_broker.Go.{is_blank}
use secrets_broker.Web.{
  or_else, WebConfig, FormToken, WebError, access_denied, method_not_allowed, origin_denied,
  unsupported_form_type, invalid_form, invalid_form_token, form_target_changed, policy_not_read,
  policy_changed,
}
use secrets_broker.Web.Forms.{Form, values, form_value}
use secrets_broker.Web.Tokens.{Tokens, take_token}

-- What is read of the HTTP request: `peer` tells that the connection's other end was checked; the headers
-- with all their values; the media type, `none` when it does not parse; and the form, `none` when it does
-- not parse or is larger than 64 KiB.
pub record WebRequest : Type 0 where
  pub method : String
  pub peer : Bool
  pub logins : List String
  pub host : String
  pub url_host : String
  pub forwarded_hosts : List String
  pub forwarded_protos : List String
  pub origins : List String
  pub media_type : Option String
  pub form : Option Form
  pub raw_query : String

-- A header with exactly one value, which is this one.
unfoldable pub is_single : List String → String → Bool
is_single [] value = false
is_single (v ∷ []) value = v == value
is_single (v ∷ w ∷ vs) value = false

-- The tests of `ServeHTTP`.
unfoldable pub admit : WebConfig → WebRequest → Check WebError
unfolding is_single
admit cfg r = do
  reject
      (not (
        r.peer
        && is_single r.logins cfg.login
        && r.host == "localhost"
        && is_blank r.url_host
        && is_single r.forwarded_hosts cfg.host
        && is_single r.forwarded_protos "https"))
      access_denied
  reject (not (r.method == "GET" || r.method == "POST")) method_not_allowed

abbrev is_urlencoded : Option String → Bool
is_urlencoded none = false
is_urlencoded (some kind) = kind == "application/x-www-form-urlencoded"

-- `protectPost` up to the token.
unfoldable pub check_form : WebConfig → WebRequest → Result WebError Form
unfolding is_single values
check_form cfg r = do
  reject (not (r.method == "POST")) method_not_allowed
  reject (not (is_single r.origins (String.◌++◌ "https://" cfg.host))) origin_denied
  reject (not (is_urlencoded r.media_type)) unsupported_form_type
  form ← or_else invalid_form r.form
  reject (not (is_blank r.raw_query) || not (eqb (length (values form "csrf")) 1))
      invalid_form_token
  ok form

-- The policy's revision as it is read after the token was taken.
pub same_revision : String → Option String → Check WebError
same_revision revision none = err policy_not_read
same_revision revision (some current) = reject (not (current == revision)) policy_changed

unfoldable pub check_entry : Form → Option String → FormToken → Result WebError FormToken
unfolding same_revision values form_value
check_entry form current e = do
  reject
      (not (is_blank e.target)
        && (not (eqb (length (values form "alias")) 1)
            || not (form_value form "alias" == e.target)))
      form_target_changed
  if is_blank e.revision then ok tt else same_revision e.revision current
  ok e

-- A form that has passed, with its token's text and entry.
pub record Passed : Type 0 where
  pub form : Form
  pub token : String
  pub entry : FormToken

pub passed_entry : Form → String → Result WebError FormToken → Result WebError Passed
passed_entry form token (err e) = err e
passed_entry form token (ok entry) = ok (record { form = form; token = token; entry = entry })

pub check_taken :
    Form
    → String
    → Option String
    → Tokens × Result WebError FormToken
    → Tokens × Result WebError Passed
unfolding passed_entry check_entry
check_taken form token current (tokens, taken) =
    (tokens, passed_entry form token (taken >>= check_entry form current))

pub with_form :
    WebConfig
    → String
    → ℕ
    → Option String
    → Tokens
    → Result WebError Form
    → Tokens × Result WebError Passed
unfolding check_taken take_token form_value
with_form cfg action now current tokens (err e) = (tokens, err e)
with_form cfg action now current tokens (ok form) =
    check_taken form (form_value form "csrf") current
      (take_token cfg (form_value form "csrf") action now tokens)

-- `protectPost`.
unfoldable pub protect_post :
    WebConfig → String → WebRequest → ℕ → Option String → Tokens → Tokens × Result WebError Passed
unfolding with_form check_form
protect_post cfg action r now current tokens =
    with_form cfg action now current tokens (check_form cfg r)
