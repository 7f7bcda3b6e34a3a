-- ===== src/Approval/Tailscale/Examples.antt =====
-- The relay approver at polls that fail, wait and are answered.
use secrets_broker.Base.{String, ◌≡◌, refl, ◌↔◌, none, some, true, false, List, [], ◌∷◌}
use secrets_broker.Approval.{approved}
use secrets_broker.Approval.Tailscale.{Poll, approve, poll_loop, time_out}
use secrets_broker.Approval.Tailscale.Outcome.{Ends, ClosedBy, approve-Ends, approve-approved_iff}

abbrev polls : List Poll
polls =
    record { status = none; context_done = false }
    ∷ record { status = some "pending"; context_done = false }
    ∷ record { status = some "approved"; context_done = false }
    ∷ []

abbrev silence : List Poll
silence =
    record { status = none; context_done = false }
    ∷ record { status = none; context_done = true }
    ∷ []

approve-Ends_example : Ends silence (approve (some "0a1b") (λ id. true) silence)
approve-Ends_example = approve-Ends "0a1b" (λ id. true) silence refl

silence_is_unreachable : (approve (some "0a1b") (λ id. true) silence).1 ≡ "unreachable"
unfolding approve poll_loop time_out
silence_is_unreachable = refl

approve-approved_iff_example :
    ((approve (some "0a1b") (λ id. true) polls).0.decision ≡ approved)
    ↔ ((id : String) × (some "0a1b" ≡ some id) × (true ≡ true) × ClosedBy "approved" polls)
approve-approved_iff_example = approve-approved_iff (some "0a1b") (λ id. true) polls
