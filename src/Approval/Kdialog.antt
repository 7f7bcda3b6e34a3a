-- ===== src/Approval/Kdialog.antt =====
-- internal/approval/kdialog.go. The answer of `kdialog --yesno` is a parameter: its exit code, or
-- `none` when it could not be run.
use secrets_broker.Base.{String, Option, none, some, true, false, ℤ, pos, negsuc, zero, suc}
use secrets_broker.Approval.{Reply, denied, approved, cause_rejected, cause_unavailable}

-- `Approve` and the cause that it leaves: "unavailable" at first, "rejected" on exit code 1.
unfoldable pub approve : Option ℤ → Reply × String
approve none = (record { decision = denied; failed = true }, cause_unavailable)
approve (some (pos zero)) = (record { decision = approved; failed = false }, cause_unavailable)
approve (some (pos (suc zero))) = (record { decision = denied; failed = false }, cause_rejected)
approve (some (pos (suc (suc n)))) =
    (record { decision = denied; failed = false }, cause_unavailable)
approve (some (negsuc n)) = (record { decision = denied; failed = false }, cause_unavailable)
