-- ===== src/Web/Examples.antt =====
-- A change of a project's mode over the web: the page's form, the review and the commit.
use secrets_broker.Base.{ℕ, String, ◌≡◌, refl, none, some, true, List, [], ◌∷◌, arith}
use secrets_broker.Admin.Editor.{ProjectDetail}
use secrets_broker.Admin.Editor.Spec.{set_approval}
use secrets_broker.Web.{WebConfig, PolicyChange}
use secrets_broker.Web.Forms.{Form, values, form_value, valid_fields}
use secrets_broker.Web.Tokens.{
  issue_target_token, add_token, take_token, find_token, delete_token, prune_tokens, set_change,
}
use secrets_broker.Web.Guard.{WebRequest, admit, is_single, check_form, check_entry, protect_post}
use secrets_broker.Web.Controls.{review, check_review, reviewed_change, issue_commit, stored}
use secrets_broker.Web.Commit.{edit_of, commit_edit, commit_answer}
use secrets_broker.Web.Serve.{
  WebState, WebCall, Answers, posted, resumed, page_shown, taken, find_open, delete_open, reviewed,
  edited, serve_all, serve_web, issue_forms,
}
use secrets_broker.Web.Serve.Invariant.{IsServed, no_events}
use secrets_broker.Web.Serve.Reviewed.{serve_all-IsServed}

abbrev cfg : WebConfig
cfg = record { host = "broker.tail.ts.net"; login = "a@example.com"; approval_url = "" }

abbrev request : Form → WebRequest
request form = record {
  method = "POST";
  peer = true;
  logins = "a@example.com" ∷ [];
  host = "localhost";
  url_host = "";
  forwarded_hosts = "broker.tail.ts.net" ∷ [];
  forwarded_protos = "https" ∷ [];
  origins = "https://broker.tail.ts.net" ∷ [];
  media_type = some "application/x-www-form-urlencoded";
  form = some form;
  raw_query = "";
}

abbrev detail : ProjectDetail
detail = record {
  alias = "infra";
  bws_project_id = "p-1";
  token_entry = "infra";
  working_dir = "/srv/infra";
  mode = "confirm";
  behavior = "";
  allow = [];
}

abbrev answers : String → ℕ → Answers
answers random now = record {
  reads = record {
    detail = some detail;
    projects = some [];
    latest = some "r1";
    random = some random;
    available_now = now;
    issue_now = now;
  };
  edit = λ revision edit. record { changed = true; failure = none };
  listed = some (record { alias = "infra"; mode = "automatic"; behavior = "" } ∷ []);
  found = none;
  found_at = now;
}

abbrev mode_form : Form
mode_form = ("csrf", "t1" ∷ []) ∷ ("alias", "infra" ∷ []) ∷ ("mode", "automatic" ∷ []) ∷ []

abbrev commit_form : Form
commit_form = ("csrf", "t2" ∷ []) ∷ ("alias", "infra" ∷ []) ∷ ("confirm", "yes" ∷ []) ∷ []

-- The commit's form is submitted twice, before the first handler has run; and the handlers are run twice.
abbrev calls : List WebCall
calls =
    page_shown 1
      (record { action = "mode"; revision = "r1"; target = "infra"; random = some "t1" } ∷ [])
    ∷ posted "mode" (request mode_form) 2 (some "r1")
    ∷ resumed 0 (answers "t2" 2)
    ∷ posted "commit" (request commit_form) 3 (some "r1")
    ∷ posted "commit" (request commit_form) 4 (some "r1")
    ∷ resumed 1 (answers "t3" 5)
    ∷ resumed 1 (answers "t4" 6)
    ∷ resumed 2 (answers "t5" 7)
    ∷ []

abbrev fresh : WebState
fresh = record {
  tokens = [];
  available = record { projects = []; until = 0 };
  open_requests = [];
  next = 0;
  trace = [];
}

abbrev change : PolicyChange
change = record {
  kind = "mode";
  alias = "infra";
  project_name = "";
  input = record { alias = ""; bws_project_id = ""; token_entry = ""; working_dir = "" };
  mode = "automatic";
  argv = [];
  widen = true;
}

-- There is one edit.
edits_once :
    (serve_all (λ c. true) cfg calls fresh).trace
    ≡ edited 1 "r1" (set_approval "infra" "automatic")
      ∷ taken 1 "t2" (request commit_form) 3
      ∷ reviewed "t2" change "r1" 600_000_000_002 (some detail)
      ∷ taken 0 "t1" (request mode_form) 2
      ∷ []
unfolding serve_all serve_web find_open delete_open issue_forms issue_target_token add_token
    prune_tokens delete_token admit is_single protect_post check_form check_entry take_token
    find_token values form_value review issue_commit stored check_review reviewed_change
    valid_fields set_change commit_edit edit_of commit_answer
edits_once = refl

fresh-IsServed : IsServed cfg fresh
fresh-IsServed = record {
  reviews = tt;
  few = omega arith;
  requests = tt;
  numbered = tt;
  trace = no_events;
}

serve_all-IsServed_example : IsServed cfg (serve_all (λ c. true) cfg calls fresh)
serve_all-IsServed_example = serve_all-IsServed cfg (λ c. true) calls fresh fresh-IsServed
