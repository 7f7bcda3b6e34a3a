-- ===== src/Config/Defaults.antt =====
-- What `applyDefaults` leaves: no blank approval and no blank backend.
use secrets_broker.Base.{
  ◌∙◌, ◌≡◌, refl, ap, Bool-cases, inl, inr, false, List, [], ◌∷◌, map, arith, ◌==◌, ℤ, pos,
}
use secrets_broker.Go.{is_blank}
use secrets_broker.Config.{
  Config, Project, ApprovalSource, TailscaleRelaySource, approval_backend_tailscale_relay,
  default_approval, default_backend, default_relay, default_source, or_default, apply_defaults,
}

default_approval_idem : (p : Project) → default_approval (default_approval p) ≡ default_approval p
unfolding default_approval
default_approval_idem p = ground arith

map-default_approval_idem :
    (ps : List Project) → map default_approval (map default_approval ps) ≡ map default_approval ps
map-default_approval_idem [] = refl
map-default_approval_idem (p ∷ ps) = cc (default_approval_idem p, map-default_approval_idem ps)

or_default_idem : (n d : ℤ) → or_default (or_default n d) d ≡ or_default n d
unfolding or_default
or_default_idem n d = ground arith

default_relay_idem : (r : TailscaleRelaySource) → default_relay (default_relay r) ≡ default_relay r
unfolding default_relay
default_relay_idem r = ground (
  arith,
  or_default_idem r.poll_interval_seconds (pos 2),
  or_default_idem r.timeout_seconds (pos 300),
)

-- With a backend already chosen, only the relay's numbers can still change, and they do not.
default_source-backend : (s : ApprovalSource) → (default_source s).backend ≡ s.backend
unfolding default_source
default_source-backend s = ground arith

default_source_idem : (s : ApprovalSource) → default_source (default_source s) ≡ default_source s
unfolding default_source
default_source_idem s = elim (Bool-cases (s.backend == approval_backend_tailscale_relay)) [
  | inl e ↦
      rw (e, e) (ap (λ r. record s { tailscale_relay = r }) (default_relay_idem s.tailscale_relay))
  | inr e ↦ rw (e, e)
]

default_backend-named : (s : ApprovalSource) → is_blank (default_backend s).backend ≡ false
unfolding default_backend
default_backend-named s = elim (Bool-cases (is_blank s.backend)) [ inl e ↦ rw e | inr e ↦ rw e e ]

default_backend_of_named : (s : ApprovalSource) → is_blank s.backend ≡ false → default_backend s ≡ s
unfolding default_backend
default_backend_of_named s h = rw h

default_source-named :
    (s : ApprovalSource) → is_blank (default_source (default_backend s)).backend ≡ false
default_source-named s = rw default_source-backend (default_backend-named s)

sources_idem :
    (s : ApprovalSource)
    → default_source (default_backend (default_source (default_backend s)))
      ≡ default_source (default_backend s)
sources_idem s =
    ap default_source (default_backend_of_named _ (default_source-named s))
    ∙ default_source_idem (default_backend s)

-- Applying the defaults to a policy that has them changes nothing.
pub apply_defaults_idem : (c : Config) → apply_defaults (apply_defaults c) ≡ apply_defaults c
unfolding apply_defaults
apply_defaults_idem c = cc (map-default_approval_idem c.projects, sources_idem c.approval_source)
