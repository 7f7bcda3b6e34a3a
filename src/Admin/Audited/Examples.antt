-- ===== src/Admin/Audited/Examples.antt =====
-- Two requests to an audited editor.
use secrets_broker.Base.{true, some, List, [], ◌∷◌, ok}
use secrets_broker.Admin.Editor.Spec.{set_approval}
use secrets_broker.Admin.Audited.{AuditEnv, Request, edit_request, remove_request, serve_requests}
use secrets_broker.Admin.Audited.Bracketed.{IsBracketed, no_calls, serve_requests-IsBracketed}

abbrev env : AuditEnv
env = record {
  start = λ t rec. some "m-1";
  apply = λ t m. record { result = record { changed = true; recovery_id = "" }; status = ok tt };
  finish = λ t id f. true;
  new_recovery_id = λ t. some "r-1";
}

abbrev requests : List Request
requests = edit_request (set_approval "infra" "confirm") ∷ remove_request "web" "web" ∷ []

serve_requests-IsBracketed_example : IsBracketed 0 (serve_requests env 0 requests [])
serve_requests-IsBracketed_example = serve_requests-IsBracketed env 0 requests [] no_calls
