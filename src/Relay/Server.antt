-- ===== src/Relay/Server.antt =====
-- internal/relay/server.go. A handler takes what it reads of the HTTP request, the store, and the clock's
-- reading of each call of the store, and yields the response and the store. Decoding a body, parsing a
-- form and parsing a URL are parameters: their results, `none` for an error.
pub mod Origin
pub mod Trust
pub mod Serve
pub mod History
mod Examples
use Prim.Native.String
use secrets_broker.Base.{
  ℕ, String, code, Option, none, some, Bool, true, false, not, ◌&&◌, ◌||◌, List, [], ◌∷◌, ltb, leb,
  eqb, if◌then◌else◌, ◌==◌, Result, ok, err,
}
use secrets_broker.Go.{is_blank, byte_length, has_prefix}
use secrets_broker.Config.Validate.{Url}
use secrets_broker.Relay.Store.{
  Store, Request, Status, create, CreateError, DecideError, get, pending_requests, decide,
  not_found, has_expired, already_decided, is_pending,
}

-- A `requestView`, with the deadline as the time that it is formatted from.
pub record View : Type 0 where
  pub id : String
  pub status : Status
  pub deadline : ℕ

abbrev pub view_of : Request → View
view_of r = record { id = r.id; status = r.status; deadline = r.deadline }

-- What an approval page shows: a pending request's prompt with the two buttons, the decision that was
-- just taken, or the status of a request that is no longer pending.
pub data Page : Type 0 where
  buttons : String → String → Page
  confirmation : String → Page
  closed : Status → Page
  dashboard : List Request → Page

pub data Response : Type 0 where
  created ok_view : View → Response
  page : Page → Response
  done invalid_id invalid_body invalid_decision unknown_id conflicting cross_origin : Response

abbrev pub status_code : Response → ℕ
status_code (created view) = 201
status_code (ok_view view) = 200
status_code (page p) = 200
status_code done = 200
status_code invalid_id = 400
status_code invalid_body = 400
status_code invalid_decision = 400
status_code unknown_id = 404
status_code conflicting = 409
status_code cross_origin = 403

-- The loop of `validID`.
abbrev pub is_id_char : ℕ → Bool
is_id_char c =
    (leb 97 c && leb c 122)
    || (leb 65 c && leb c 90)
    || (leb 48 c && leb c 57)
    || eqb c 45
    || eqb c 95

unfoldable pub all_id_chars : String → Bool
all_id_chars String.[] = true
all_id_chars (String.◌∷◌ c s) = if is_id_char (code c) then all_id_chars s else false

-- `validID`.
unfoldable pub is_valid_id : String → Bool
is_valid_id id = if is_blank id || ltb 64 (byte_length id) then false else all_id_chars id

-- The handler of `POST /requests/{id}`, by the prompt that the body decodes to. `Create` reads the clock
-- at `now`, `Get` at `then`.
abbrev pub created_of : Option Request → Response
created_of none = created (record { id = ""; status = Status.pending; deadline = 0 })
created_of (some r) = created (view_of r)

unfoldable pub answer_create : String → ℕ → Store → Result CreateError Store → Response × Store
answer_create id at s (err e) = (conflicting, s)
answer_create id at s (ok t) = (created_of (get id at t), t)

unfoldable pub post_body : ℕ → String → Option String → ℕ → ℕ → Store → Response × Store
post_body ttl id none now at s = (invalid_body, s)
post_body ttl id (some prompt) now at s =
    if is_blank prompt || ltb 8192 (byte_length prompt)
    then (invalid_body, s)
    else answer_create id at s (create id prompt ttl now s)

unfoldable pub post_request : ℕ → String → Option String → ℕ → ℕ → Store → Response × Store
post_request ttl id body now at s =
    if not (is_valid_id id) then (invalid_id, s) else post_body ttl id body now at s

-- The handler of `GET /requests/{id}` on the control side.
abbrev pub status_of : Option Request → Response
status_of none = unknown_id
status_of (some r) = ok_view (view_of r)

unfoldable pub get_status : String → ℕ → Store → Response
get_status id now s = if not (is_valid_id id) then invalid_id else status_of (get id now s)

-- The handler of `GET /requests/{id}` on the decision side, and that of `GET /`.
abbrev pub page_of : String → Option Request → Response
page_of id none = unknown_id
page_of id (some r) =
    if not (is_pending r.status) then page (closed r.status) else page (buttons id r.prompt)

unfoldable pub get_page : String → ℕ → Store → Response
get_page id now s = if not (is_valid_id id) then invalid_id else page_of id (get id now s)

unfoldable pub get_dashboard : ℕ → Store → Response
get_dashboard now s = page (dashboard (pending_requests now s))

-- What the handler of a decision reads of the HTTP request. `form` and `json` are the decision that the
-- body tells when it is read as a form or as JSON; a header that is absent is "".
pub record DecisionRequest : Type 0 where
  pub id : String
  pub origin : String
  pub referer : String
  pub content_type : String
  pub host : String
  pub tls : Bool
  pub form : Option String
  pub json : Option String

-- `isBrowserForm`.
unfoldable pub is_browser_form : DecisionRequest → Bool
is_browser_form r = has_prefix r.content_type "application/x-www-form-urlencoded"

-- `readDecision`.
unfoldable pub read_decision : DecisionRequest → Option String
read_decision r = if is_browser_form r then r.form else r.json

-- The switch on the decision.
unfoldable pub parse_decision : String → Option Bool
parse_decision decision =
    if decision == "approve" then some true else if decision == "deny" then some false else none

abbrev pub expected_scheme : DecisionRequest → String
expected_scheme r = if r.tls then "https" else "http"

-- The comparison of `sameOrigin`.
unfoldable pub matches_host : DecisionRequest → Option Url → Bool
matches_host r none = false
matches_host r (some u) = (u.scheme == expected_scheme r) && (u.host == r.host)

unfoldable pub source_of : DecisionRequest → String
source_of r = if is_blank r.origin then r.referer else r.origin

abbrev pub decide_error : DecideError → Response
decide_error not_found = unknown_id
decide_error has_expired = conflicting
decide_error (already_decided status) = conflicting

abbrev pub answer_decision :
    DecisionRequest → String → Store → Result DecideError Store → Response × Store
answer_decision r decision s (err e) = (decide_error e, s)
answer_decision r decision s (ok t) =
    (if is_browser_form r then page (confirmation decision) else done, t)

unfoldable pub apply_decision :
    DecisionRequest → String → Option Bool → ℕ → Store → Response × Store
apply_decision r decision none now s = (invalid_decision, s)
apply_decision r decision (some approve) now s =
    answer_decision r decision s (decide r.id approve now s)

unfoldable pub take_decision : DecisionRequest → Option String → ℕ → Store → Response × Store
take_decision r none now s = (invalid_body, s)
take_decision r (some decision) now s = apply_decision r decision (parse_decision decision) now s

module _ (parse_url : String → Option Url) where
  -- `sameOrigin`.
  unfoldable pub same_origin : DecisionRequest → Bool
  same_origin r = if is_blank (source_of r) then true else matches_host r (parse_url (source_of r))

  -- The handler of `POST /requests/{id}/decide`.
  unfoldable pub post_decision : DecisionRequest → ℕ → Store → Response × Store
  post_decision r now s =
      if not (same_origin r)
      then (cross_origin, s)
      else if not (is_valid_id r.id)
      then (invalid_id, s)
      else take_decision r (read_decision r) now s
