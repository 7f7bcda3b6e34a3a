-- ===== src/Relay/Server/Examples.antt =====
-- The relay's handlers at a request that is registered and approved by a script.
use secrets_broker.Base.{◌↔◌, ◌⊎◌, ◌≡◌, refl, [], ◌∷◌, Any}
use secrets_broker.Go.{byte_length, has_prefix}
use secrets_broker.Relay.Cases.{approve_a, calls}
use secrets_broker.Samples.{parse_origin}
use secrets_broker.Relay.Store.{
  Store, approved, new_store_with_limit, create, decide, decide_found, find, update, new_request,
  get, shown,
}
use secrets_broker.Relay.Server.{
  View, ok_view, status_code, post_request, post_body, answer_create, is_valid_id, all_id_chars,
  post_decision, take_decision, apply_decision, same_origin, source_of, read_decision,
  is_browser_form, parse_decision, get_status,
}
use secrets_broker.Relay.Server.Trust.{Accepts, post_decision-Accepts}
use secrets_broker.Relay.Server.Serve.{serve, serve_one}
use secrets_broker.Relay.Server.History.{IsApproval, approved_poll}

abbrev view_a : View
view_a = record { id = "a"; status = approved; deadline = 110 }

a_polls_approved :
    get_status "a" 30 (serve parse_origin 100 calls (new_store_with_limit 8)) ≡ ok_view view_a
unfolding get_status get shown serve serve_one post_request post_body answer_create is_valid_id
    all_id_chars post_decision take_decision apply_decision same_origin source_of read_decision
    is_browser_form parse_decision create decide decide_found find update byte_length has_prefix
a_polls_approved = refl

approved_poll_example : Any (IsApproval parse_origin 100 "a" 110) calls
approved_poll_example = approved_poll parse_origin 100 8 calls "a" 30 view_a a_polls_approved refl

-- A store in which the request waits for a decision.
abbrev waiting : Store
waiting = record { requests = ("a", new_request "a" "run a" 100 10) ∷ []; limit = 8 }

post_decision-Accepts_example :
    ((status_code (post_decision parse_origin approve_a 20 waiting).0 ≡ 200)
      ↔ Accepts parse_origin approve_a 20 waiting
          (post_decision parse_origin approve_a 20 waiting).1)
    × ((status_code (post_decision parse_origin approve_a 20 waiting).0 ≡ 200)
        ⊎ ((post_decision parse_origin approve_a 20 waiting).1 ≡ waiting))
post_decision-Accepts_example = post_decision-Accepts parse_origin approve_a 20 waiting
