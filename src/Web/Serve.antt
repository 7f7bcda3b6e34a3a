-- ===== src/Web/Serve.antt =====
-- What the administrator's web server serves over its lifetime. A request goes in two steps, between which
-- others may go: its guard up to the token, and its handler, once for each request. What other processes
-- make of the policy shows in what the calls of the reader and of the editor find.
pub mod Invariant
pub mod Issued
pub mod Handled
pub mod Reviewed
use secrets_broker.Base.{
  ℕ, suc, ◌+◌, String, Option, none, some, Bool, not, ◌||◌, List, [], ◌∷◌, any, keep, eqb, ◌==◌,
  if◌then◌else◌, Result, Check, ok, err,
}
use secrets_broker.Projectlist.{ListedProject}
use secrets_broker.Admin.Editor.{ProjectDetail, ProjectSummary}
use secrets_broker.Admin.Editor.Spec.{Edit}
use secrets_broker.Web.{WebConfig, PolicyChange, WebError, method_not_allowed, change_not_confirmed}
use secrets_broker.Web.Tokens.{Tokens, issue_target_token, form_lifetime}
use secrets_broker.Web.Guard.{WebRequest, Passed, admit, protect_post}
use secrets_broker.Web.Controls.{Available, Reads, Review, review}
use secrets_broker.Web.Commit.{commit_edit, commit_answer, EditAnswer, Saved}

-- A review, with the token that was stored for its change, for which revision and until when, and the project
-- as it was read; a request
-- whose token was taken, with its number and the clock's reading; and a call of the editor by the request of a
-- number, with the revision that it expects.
pub data WebEvent : Type 0 where
  reviewed : String → PolicyChange → String → ℕ → Option ProjectDetail → WebEvent
  taken : ℕ → String → WebRequest → ℕ → WebEvent
  edited : ℕ → String → Edit → WebEvent

abbrev pub WebTrace : Type 0
WebTrace = List WebEvent

-- A request that has passed the guard and whose handler has not run.
pub record OpenRequest : Type 0 where
  pub action : String
  pub passed : Passed

pub record WebState : Type 0 where
  pub tokens : Tokens
  pub available : Available
  pub open_requests : List (ℕ × OpenRequest)
  pub next : ℕ
  pub trace : WebTrace

unfoldable pub find_open : List (ℕ × OpenRequest) → ℕ → Option OpenRequest
find_open [] id = none
find_open ((k, o) ∷ rest) id = let later = find_open rest id in if eqb k id then some o else later

unfoldable pub delete_open : List (ℕ × OpenRequest) → ℕ → List (ℕ × OpenRequest)
delete_open requests id = keep (λ f. not (eqb f.0 id)) requests

-- What the calls of one handler find. The editor is the audited one, with the revision that it expects.
pub record Answers : Type 0 where
  pub reads : Reads
  pub edit : String → Edit → EditAnswer
  pub listed : Option (List ProjectSummary)
  pub found : Option (List ListedProject)
  pub found_at : ℕ

pub data WebResponse : Type 0 where
  refused : WebError → WebResponse
  review_page : Review → WebResponse
  saved_page : Result WebError Saved → WebResponse
  handled : WebResponse

-- A form on a page: its action, the policy's revision and the project, and the random bytes for its token.
pub record PageForm : Type 0 where
  pub action : String
  pub revision : String
  pub target : String
  pub random : Option String

pub data WebCall : Type 0 where
  -- A request for `/projects/` and the action, a segment of the path, up to its handler; with the clock and the
  -- policy's revision at the token's check. The router refuses an action that it does not know, since the
  -- path is that of a page.
  posted : String → WebRequest → ℕ → Option String → WebCall
  -- The handler of the request with the number.
  resumed : ℕ → Answers → WebCall
  -- A page with forms, which stops at the first form that gets no token.
  page_shown : ℕ → List PageForm → WebCall

abbrev pub review_actions : List String
review_actions = "create" ∷ "metadata" ∷ "mode" ∷ "add" ∷ "remove" ∷ []

abbrev pub check_actions : List String
check_actions = "discover" ∷ "path" ∷ "access" ∷ []

abbrev pub is_one_of : List String → String → Bool
is_one_of names name = any (λ n. n == name) names

-- The list of `discover` lasts ten minutes; a failed discovery empties it.
abbrev pub discovered : Option (List ListedProject) → ℕ → Available
discovered none now = record { projects = []; until = 0 }
discovered (some projects) now = record { projects = projects; until = now + 600_000_000_000 }

-- What follows an issue, or what there is without a token.
pub unless_stopped : Option String → Tokens → Tokens → Tokens
unless_stopped none stopped more = stopped
unless_stopped (some token) stopped more = more

module _ (is_print : ℕ → Bool) (cfg : WebConfig) where
  -- The forms of a page, which carry no change.
  unfoldable pub issue_forms : ℕ → List PageForm → Tokens → Tokens
  unfolding issue_target_token unless_stopped
  issue_forms now [] tokens = tokens
  issue_forms now (f ∷ rest) tokens =
      let (tokens', issued) =
        issue_target_token cfg f.action f.revision f.target f.random now tokens in
      unless_stopped issued tokens' (issue_forms now rest tokens')

  pub answer_review :
      WebState
      → String
      → ℕ
      → Option ProjectDetail
      → Tokens × Result WebError Review
      → WebState × WebResponse
  answer_review s revision expires seen (tokens, err e) = (record s { tokens = tokens }, refused e)
  answer_review s revision expires seen (tokens, ok r) = (
    record s { tokens = tokens; trace = reviewed r.token r.change revision expires seen ∷ s.trace },
    review_page r,
  )

  pub answer_commit :
      WebState → ℕ → Answers → Passed → PolicyChange → Result WebError Edit → WebState × WebResponse
  unfolding commit_answer
  answer_commit s id a p c (err e) = (s, refused e)
  answer_commit s id a p c (ok edit) = (
    record s { trace = edited id p.entry.revision edit ∷ s.trace },
    saved_page (commit_answer c (a.edit p.entry.revision edit) a.listed),
  )

  -- `commit`.
  pub commit : WebState → ℕ → Answers → Passed → Option PolicyChange → WebState × WebResponse
  unfolding answer_commit commit_edit
  commit s id a p none = (s, refused change_not_confirmed)
  commit s id a p (some c) = answer_commit s id a p c (commit_edit c p.form a.reads.detail)

  -- The handler of an action. The pages that it ends with are calls `page_shown` after it, and what the
  -- checks of the path and of the access find for such a page is not part of the state.
  pub handle : String → WebState → ℕ → Answers → Passed → WebState × WebResponse
  unfolding answer_review commit review
  handle action s id a p =
      if is_one_of review_actions action
      then answer_review s p.entry.revision (a.reads.issue_now + form_lifetime) a.reads.detail
          (review is_print cfg s.available action p.entry.revision a.reads p.form s.tokens)
      else if action == "commit"
      then commit s id a p p.entry.change
      else if action == "discover"
      then (record s { available = discovered a.found a.found_at }, handled)
      else (s, handled)

  pub resume : WebState → ℕ → Answers → Option OpenRequest → WebState × WebResponse
  unfolding handle delete_open
  resume s id a none = (s, handled)
  resume s id a (some o) =
      handle o.action (record s { open_requests = delete_open s.open_requests id }) id a o.passed

  pub after_guard :
      String → WebState → WebRequest → ℕ → Result WebError Passed → WebState × WebResponse
  after_guard action s r now (err e) = (s, refused e)
  after_guard action s r now (ok p) = (
    record s {
      open_requests = (s.next, record { action = action; passed = p }) ∷ s.open_requests;
      next = suc s.next;
      trace = taken s.next p.token r now ∷ s.trace;
    },
    handled,
  )

  pub serve_post : String → WebState → WebRequest → ℕ → Option String → WebState × WebResponse
  unfolding after_guard protect_post
  serve_post action s r now current =
      let (tokens, result) = protect_post cfg action r now current s.tokens in
      after_guard action (record s { tokens = tokens }) r now result

  pub serve_admitted :
      String → WebState → WebRequest → ℕ → Option String → Check WebError → WebState × WebResponse
  unfolding serve_post
  serve_admitted action s r now current (err e) = (s, refused e)
  serve_admitted action s r now current (ok _) =
      if is_one_of ("commit" ∷ review_actions) action || is_one_of check_actions action
      then serve_post action s r now current
      else (s, refused method_not_allowed)

  -- `ServeHTTP`.
  unfoldable pub serve_web : WebCall → WebState → WebState × WebResponse
  unfolding serve_admitted admit issue_forms resume find_open
  serve_web (posted action r now current) s = serve_admitted action s r now current (admit cfg r)
  serve_web (resumed id a) s = resume s id a (find_open s.open_requests id)
  serve_web (page_shown now forms) s =
      (record s { tokens = issue_forms now forms s.tokens }, handled)

  unfoldable pub serve_all : List WebCall → WebState → WebState
  unfolding serve_web
  serve_all [] s = s
  serve_all (call ∷ rest) s = serve_all rest (serve_web call s).0
