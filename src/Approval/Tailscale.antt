-- ===== src/Approval/Tailscale.antt =====
-- internal/approval/tailscale.go. What comes from outside is a parameter: whether an identifier could
-- be made, whether the relay took the registration, and the polls that were made until the approval's
-- context was done. The timeout ends every list of polls, so the loop is a recursion on it.
pub mod Outcome
mod Examples
use secrets_broker.Base.{
  ℕ, ◌+◌, String, Option, none, some, Bool, true, false, not, ◌&&◌, List, [], ◌∷◌, ltb,
  if◌then◌else◌, ◌==◌,
}
use secrets_broker.Approval.{
  Reply, denied, approved, cause_rejected, cause_expired, cause_unreachable,
}

-- The answer to one poll: the status that the relay gave, or `none` for an error; and whether the
-- context was done by the time of the error.
pub record Poll : Type 0 where
  pub status : Option String
  pub context_done : Bool

abbrev pub relay_status_approved : String
relay_status_approved = "approved"

abbrev pub relay_status_denied : String
relay_status_denied = "denied"

abbrev pub relay_status_expired : String
relay_status_expired = "expired"

-- A decision without an error, and the cause that `ApproveCause` tells after it.
abbrev pub deny_as : String → Reply × String
deny_as cause = (record { decision = denied; failed = false }, cause)

abbrev pub grant : Reply × String
grant = (record { decision = approved; failed = false }, cause_expired)

-- The branch of `ctx.Done()`.
unfoldable pub time_out : ℕ → Bool → Reply × String
time_out failures succeeded =
    deny_as (if ltb 0 failures && not succeeded then cause_unreachable else cause_expired)

-- The loop, over the polls that are left.
unfoldable pub poll_loop : ℕ → Bool → List Poll → Reply × String
unfolding time_out
poll_loop failures succeeded [] = time_out failures succeeded
poll_loop failures succeeded (p ∷ rest) = elim p.status [
  | none ↦ poll_loop (if p.context_done then failures else failures + 1) succeeded rest
  | some status ↦
      let more = poll_loop failures true rest in
      if status == relay_status_approved
      then grant
      else if status == relay_status_denied
      then deny_as cause_rejected
      else if status == relay_status_expired
      then deny_as cause_expired
      else more
]

-- `(*TailscaleApprover).Approve`.
unfoldable pub approve : Option String → (String → Bool) → List Poll → Reply × String
approve none registered polls = (record { decision = denied; failed = true }, cause_expired)
approve (some id) registered polls =
    let decided = poll_loop 0 false polls in
    if registered id
    then decided
    else (record { decision = denied; failed = true }, cause_unreachable)
