-- ===== src/Relay/Client/Examples.antt =====
-- The relay approver at a relay that serves an approval between its polls.
use secrets_broker.Base.{◌≡◌, refl, some, true, false, List, [], ◌∷◌, Any, map}
use secrets_broker.Approval.{approved}
use secrets_broker.Approval.Tailscale.{approve, poll_loop, time_out}
use secrets_broker.Relay.Client.{poll}
use secrets_broker.Relay.Client.Grant.{
  Attempt, attempt_poll, RestsOnApproval, approve-RestsOnApproval,
}
use secrets_broker.Go.{byte_length, has_prefix}
use secrets_broker.Relay.Cases.{calls}
use secrets_broker.Samples.{parse_origin}
use secrets_broker.Relay.Store.{create, decide, decide_found, find, update, get, shown}
use secrets_broker.Relay.Server.{
  post_request, post_body, answer_create, is_valid_id, all_id_chars, post_decision, take_decision,
  apply_decision, same_origin, source_of, read_decision, is_browser_form, parse_decision,
  get_status,
}
use secrets_broker.Relay.Server.Serve.{serve, serve_one}

abbrev attempts : List Attempt
attempts =
    record { served = []; time = 5; arrives = true; context_done = false }
    ∷ record { served = calls; time = 30; arrives = true; context_done = false }
    ∷ []

a_granted :
    (approve
      (some "a")
      (λ id. true)
      (map (attempt_poll parse_origin 100 8 "a") attempts)).0.decision
    ≡ approved
unfolding get_status get shown serve serve_one post_request post_body answer_create is_valid_id
    all_id_chars post_decision take_decision apply_decision same_origin source_of read_decision
    is_browser_form parse_decision create decide decide_found find update byte_length has_prefix
    approve poll_loop time_out poll
a_granted = refl

approve-RestsOnApproval_example : Any (RestsOnApproval parse_origin 100 8 "a") attempts
approve-RestsOnApproval_example =
    approve-RestsOnApproval parse_origin 100 8 "a" (λ id. true) attempts a_granted
