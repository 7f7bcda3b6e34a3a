-- ===== src/Approval.antt =====
-- internal/approval/approver.go: the interface between the broker and an approver.
pub mod Kdialog
pub mod Tailscale
use secrets_broker.Base.{String, Bool}

pub data Decision : Type 0 where
  denied approved : Decision

-- What an `Approve` call returns: the decision, and whether an error came with it.
pub record Reply : Type 0 where
  pub decision : Decision
  pub failed : Bool

abbrev pub cause_rejected : String
cause_rejected = "rejected"

abbrev pub cause_expired : String
cause_expired = "expired"

abbrev pub cause_unreachable : String
cause_unreachable = "unreachable"

abbrev pub cause_unavailable : String
cause_unavailable = "unavailable"
