-- ===== src/Relay/Client/Grant.antt =====
-- From the approver over the relay to the person: what a granted approval rests on.
use secrets_broker.Base.{
  ℕ, String, ◌≡◌, refl, inl, inr, Option, none, some, Bool, true, false, if◌then◌else◌, List, [],
  ◌∷◌, map, Any, arith,
}
use secrets_broker.Config.Validate.{Url}
use secrets_broker.Approval.{approved}
use secrets_broker.Approval.Tailscale.{Poll, approve}
use secrets_broker.Approval.Tailscale.Outcome.{ClosedBy, now, later, approve-approved_iff}
use secrets_broker.Relay.Store.{new_store_with_limit}
use secrets_broker.Relay.Store as Store
use secrets_broker.Relay.Server.{
  View, Response, created, ok_view, page, done, invalid_id, invalid_body, invalid_decision,
  unknown_id, conflicting, cross_origin, get_status,
}
use secrets_broker.Relay.Server.Serve.{Served, serve}
use secrets_broker.Relay.Server.History.{IsApproval, approved_poll}
use secrets_broker.Relay.Client.{poll, status_name}

-- One poll of the approver: all that the relay has served before it, its time at the relay, whether the
-- response reaches the approver, and whether the approval's context is done by then.
pub record Attempt : Type 0 where
  pub served : List (ℕ × Served)
  pub time : ℕ
  pub arrives : Bool
  pub context_done : Bool

status_name-approved : (s : Store.Status) → status_name s ≡ "approved" → s ≡ Store.approved
status_name-approved Store.pending h = cc
status_name-approved Store.approved h = refl
status_name-approved Store.denied h = cc
status_name-approved Store.expired h = cc

-- Only a view of an approved request makes a poll tell "approved".
poll-ok_view :
    {r : Response}
    → poll (some r) ≡ some "approved"
    → (view : View) × (r ≡ ok_view view) × (view.status ≡ Store.approved)
unfolding poll
poll-ok_view {r = ok_view view} h =
    (view, refl, status_name-approved view.status (ground (arith, h)))
poll-ok_view {r = created view} h = cc
poll-ok_view {r = page p} h = cc
poll-ok_view {r = done} h = cc
poll-ok_view {r = invalid_id} h = cc
poll-ok_view {r = invalid_body} h = cc
poll-ok_view {r = invalid_decision} h = cc
poll-ok_view {r = unknown_id} h = cc
poll-ok_view {r = conflicting} h = cc
poll-ok_view {r = cross_origin} h = cc

arrived :
    (r : Response) (arrives : Bool)
    → poll (if arrives then some r else none) ≡ some "approved"
    → poll (some r) ≡ some "approved"
unfolding poll
arrived r true h = h
arrived r false h = cc

module _ (parse_url : String → Option Url) (ttl limit : ℕ) (id : String) where
  abbrev pub response : Attempt → Response
  response a = get_status id a.time (serve parse_url ttl a.served (new_store_with_limit limit))

  abbrev pub attempt_poll : Attempt → Poll
  attempt_poll a = record {
    status = poll (if a.arrives then some (response a) else none);
    context_done = a.context_done;
  }

  -- The relay answers the poll with a view that tells "approved" and a deadline, and what it had served before
  -- holds an approval for the identifier no later than that deadline.
  pub record RestsOnApproval (a : Attempt) : Type 0 where
    pub view : View
    pub told : response a ≡ ok_view view
    pub status : view.status ≡ Store.approved
    pub approval : Any (IsApproval parse_url ttl id view.deadline) a.served

  poll-approved : (a : Attempt) → (attempt_poll a).status ≡ some "approved" → RestsOnApproval a
  poll-approved a h =
      let (view, told, status) = poll-ok_view (arrived (response a) a.arrives h) in
      record {
        view = view;
        told = told;
        status = status;
        approval = approved_poll parse_url ttl limit a.served id a.time view told status;
      }

  closed-approved :
      (attempts : List Attempt)
      → ClosedBy "approved" (map attempt_poll attempts)
      → Any RestsOnApproval attempts
  closed-approved [] c = elim c [ ]
  closed-approved (a ∷ rest) (now e) = inl (poll-approved a e)
  closed-approved (a ∷ rest) (later o c) = inr (closed-approved rest c)

-- An approval that the approver grants, polling a relay that was new when it began, rests on a person's
-- decision: one of the polls is answered with a view that tells "approved", and before it the relay had
-- served a decision request "approve" for the approval's identifier, from its own pages or from no page,
-- no later than the deadline that the view tells.
pub approve-RestsOnApproval :
    (parse_url : String → Option Url) (ttl limit : ℕ) (id : String) (registered : String → Bool)
    (attempts : List Attempt)
    → (approve (some id) registered (map (attempt_poll parse_url ttl limit id) attempts)).0.decision
      ≡ approved
    → Any (RestsOnApproval parse_url ttl limit id) attempts
approve-RestsOnApproval parse_url ttl limit id registered attempts h =
    let (made, same, taken, closed) =
      (approve-approved_iff (some id) registered
          (map (attempt_poll parse_url ttl limit id) attempts)).0
        h in
    closed-approved parse_url ttl limit id attempts closed
