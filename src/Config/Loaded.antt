-- ===== src/Config/Loaded.antt =====
-- `Parse`: the defaults that it fills in, and which policies it returns.
use secrets_broker.Base.{
  String, ◌≡◌, refl, ap, ◌≢◌, ◌↔◌, Option, some, true, false, Bool-cases, inl, inr, ◌==◌,
  if◌then◌else◌, List, [], ◌∷◌, map, eq_iff, ok, arith, ℤ, pos, is_zero, sym, ◌∙◌,
}
use mathlib.Core.Path.{subst}
use secrets_broker.Go.{is_blank}
use secrets_broker.Go.Blank.{ne_of_is_blank}
use secrets_broker.Config.{
  Config, Project, ApprovalSource, default_approval, default_backend, default_relay, default_source,
  or_default, apply_defaults,
}
use secrets_broker.Config.Validate.{Url}
use secrets_broker.Config.Validity.{IsValid, validate-IsValid_iff}
use secrets_broker.Config.Worker.{Decoder, parse}
use secrets_broker.Config.Trusted.{parse-IsValid}

-- The default where the value is left out, and the value that is given otherwise.
pub record Filled {A : Type 0} (blank default given value : A) : Type 0 where
  pub left_out : given ≡ blank → value ≡ default
  pub kept : given ≢ blank → value ≡ given

-- A project without an approval mode gets "never".
pub record FilledProject (p q : Project) : Type 0 where
  pub approval : String
  pub filled : Filled "" "never" p.approval approval
  pub same : q ≡ record p { approval = approval }

abbrev pub FilledProjects : List Project → List Project → Type 0
FilledProjects [] [] = Unit
FilledProjects [] (q ∷ qs) = ⊥
FilledProjects (p ∷ ps) [] = ⊥
FilledProjects (p ∷ ps) (q ∷ qs) = FilledProject p q × FilledProjects ps qs

-- The backend is kdialog where none is given. For the relay, the approver polls every two seconds and for
-- five minutes where the numbers are left out; for another backend they stay.
pub record FilledSource (s t : ApprovalSource) : Type 0 where
  pub backend : String
  pub filled : Filled "" "kdialog" s.backend backend
  pub poll_interval : ℤ
  pub timeout : ℤ
  pub relay :
      backend ≡ "tailscale-relay"
      → Filled (pos 0) (pos 2) s.tailscale_relay.poll_interval_seconds poll_interval
        × Filled (pos 0) (pos 300) s.tailscale_relay.timeout_seconds timeout
  pub other :
      backend ≢ "tailscale-relay"
      → (poll_interval ≡ s.tailscale_relay.poll_interval_seconds)
        × (timeout ≡ s.tailscale_relay.timeout_seconds)
  pub same : t ≡ record {
    backend = backend;
    tailscale_relay = record s.tailscale_relay {
      poll_interval_seconds = poll_interval;
      timeout_seconds = timeout;
    };
  }

-- The rest of the policy stays as it is decoded.
pub record FilledConfig (d c : Config) : Type 0 where
  pub source : ApprovalSource
  pub source_filled : FilledSource d.approval_source source
  pub projects : List Project
  pub projects_filled : FilledProjects d.projects projects
  pub same : c ≡ record d { approval_source = source; projects = projects }

text-Filled :
    (default given : String) → Filled "" default given (if is_blank given then default else given)
text-Filled default given = elim (Bool-cases (is_blank given)) [
  | inl e ↦ rw e (record { left_out = λ h. refl; kept = λ n. absurd (n ((eq_iff given "").0 e)) })
  | inr e ↦ rw e (record { left_out = λ h. absurd (ne_of_is_blank e h); kept = λ n. refl })
]

Filled-text :
    (default given value : String)
    → Filled "" default given value
    → value ≡ (if is_blank given then default else given)
Filled-text default given value f = elim (Bool-cases (is_blank given)) [
  | inl e ↦ rw e (f.left_out ((eq_iff given "").0 e))
  | inr e ↦ rw e (f.kept (ne_of_is_blank e))
]

is_zero-eq_iff : (n : ℤ) → (is_zero n ≡ true) ↔ (n ≡ pos 0)
is_zero-eq_iff n = (λ h. ground arith, λ h. rw h)

or_default-Filled : (given default : ℤ) → Filled (pos 0) default given (or_default given default)
unfolding or_default
or_default-Filled given default = elim (Bool-cases (is_zero given)) [
  | inl e ↦
      rw e (record { left_out = λ h. refl; kept = λ n. absurd (n ((is_zero-eq_iff given).0 e)) })
  | inr e ↦
      rw e (record { left_out = λ h. let k = (is_zero-eq_iff given).1 h in cc; kept = λ n. refl })
]

Filled-or_default :
    (given default value : ℤ)
    → Filled (pos 0) default given value
    → value ≡ or_default given default
unfolding or_default
Filled-or_default given default value f = elim (Bool-cases (is_zero given)) [
  | inl e ↦ rw e (f.left_out ((is_zero-eq_iff given).0 e))
  | inr e ↦ rw e (f.kept (λ h. let k = (is_zero-eq_iff given).1 h in cc))
]

default_approval-FilledProject : (p : Project) → FilledProject p (default_approval p)
unfolding default_approval
default_approval-FilledProject p = record {
  approval = if is_blank p.approval then "never" else p.approval;
  filled = text-Filled "never" p.approval;
  same = elim (Bool-cases (is_blank p.approval)) [ inl e ↦ rw e | inr e ↦ rw e ];
}

FilledProject-default_approval : (p q : Project) → FilledProject p q → q ≡ default_approval p
unfolding default_approval
FilledProject-default_approval p q f =
    let h = Filled-text "never" p.approval f.approval f.filled in
    f.same ∙ elim (Bool-cases (is_blank p.approval)) [
      | inl e ↦ rw e (ap (λ a. record p { approval = a }) (rw e at h))
      | inr e ↦ rw e (ap (λ a. record p { approval = a }) (rw e at h))
    ]

map-FilledProjects : (ps : List Project) → FilledProjects ps (map default_approval ps)
map-FilledProjects [] = tt
map-FilledProjects (p ∷ ps) = (default_approval-FilledProject p, map-FilledProjects ps)

FilledProjects-map : (ps qs : List Project) → FilledProjects ps qs → qs ≡ map default_approval ps
FilledProjects-map [] [] f = refl
FilledProjects-map [] (q ∷ qs) f = absurd f
FilledProjects-map (p ∷ ps) [] f = absurd f
FilledProjects-map (p ∷ ps) (q ∷ qs) f =
    cc (FilledProject-default_approval p q f.0, FilledProjects-map ps qs f.1)

abbrev named : ApprovalSource → String
named s = if is_blank s.backend then "kdialog" else s.backend

default_backend_lem : (s : ApprovalSource) → default_backend s ≡ record s { backend = named s }
unfolding default_backend
default_backend_lem s = elim (Bool-cases (is_blank s.backend)) [ inl e ↦ rw e | inr e ↦ rw e ]

module _ (s : ApprovalSource) (backend : String) where
  relay_source :
      (backend == "tailscale-relay") ≡ true
      → default_source (record s { backend = backend }) ≡ record {
        backend = backend;
        tailscale_relay = record s.tailscale_relay {
          poll_interval_seconds = or_default s.tailscale_relay.poll_interval_seconds (pos 2);
          timeout_seconds = or_default s.tailscale_relay.timeout_seconds (pos 300);
        };
      }
  unfolding default_source default_relay
  relay_source e = rw e

  other_source :
      (backend == "tailscale-relay") ≡ false
      → default_source (record s { backend = backend }) ≡ record s { backend = backend }
  unfolding default_source
  other_source e = rw e

  default_source-FilledSource :
      Filled "" "kdialog" s.backend backend
      → FilledSource s (default_source (record s { backend = backend }))
  default_source-FilledSource f = elim (Bool-cases (backend == "tailscale-relay")) [
    | inl e ↦ record {
      backend = backend;
      filled = f;
      poll_interval = or_default s.tailscale_relay.poll_interval_seconds (pos 2);
      timeout = or_default s.tailscale_relay.timeout_seconds (pos 300);
      relay = λ h. (or_default-Filled _ (pos 2), or_default-Filled _ (pos 300));
      other = λ n. absurd (n ((eq_iff backend "tailscale-relay").0 e));
      same = relay_source e;
    }
    | inr e ↦ record {
      backend = backend;
      filled = f;
      poll_interval = s.tailscale_relay.poll_interval_seconds;
      timeout = s.tailscale_relay.timeout_seconds;
      relay = λ h. let k = (eq_iff backend "tailscale-relay").1 h in absurd (cc (e, k));
      other = λ n. (refl, refl);
      same = other_source e;
    }
  ]

FilledSource-default_source :
    (s t : ApprovalSource)
    → FilledSource s t
    → t ≡ default_source (record s { backend = t.backend })
FilledSource-default_source s t f =
    let named_so : f.backend ≡ t.backend = ap (λ x. x.backend) (sym f.same) in
    f.same ∙ elim (Bool-cases (f.backend == "tailscale-relay")) [
      | inl e ↦
          let (p, q) = f.relay ((eq_iff f.backend "tailscale-relay").0 e) in
          let a = Filled-or_default _ (pos 2) f.poll_interval p in
          let b = Filled-or_default _ (pos 300) f.timeout q in
          rw (a, b, ← named_so) (sym (relay_source s f.backend e))
      | inr e ↦
          let (p, q) =
            f.other (λ h. let k = (eq_iff f.backend "tailscale-relay").1 h in cc (e, k)) in
          rw (p, q, ← named_so) (sym (other_source s f.backend e))
    ]

sources-FilledSource : (s : ApprovalSource) → FilledSource s (default_source (default_backend s))
sources-FilledSource s =
    rw (default_backend_lem s)
      (default_source-FilledSource s (named s) (text-Filled "kdialog" s.backend))

FilledSource-sources :
    (s t : ApprovalSource) → FilledSource s t → t ≡ default_source (default_backend s)
FilledSource-sources s t f =
    let backend : t.backend ≡ named s =
      ap (λ x. x.backend) f.same ∙ Filled-text "kdialog" s.backend f.backend f.filled in
    FilledSource-default_source s t f
    ∙ (ap (λ b. default_source (record s { backend = b })) backend
        ∙ ap default_source (sym (default_backend_lem s)))

apply_defaults-FilledConfig : (d : Config) → FilledConfig d (apply_defaults d)
unfolding apply_defaults
apply_defaults-FilledConfig d = record {
  source = default_source (default_backend d.approval_source);
  source_filled = sources-FilledSource d.approval_source;
  projects = map default_approval d.projects;
  projects_filled = map-FilledProjects d.projects;
  same = refl;
}

FilledConfig-apply_defaults : (d c : Config) → FilledConfig d c → c ≡ apply_defaults d
unfolding apply_defaults
FilledConfig-apply_defaults d c f =
    f.same
    ∙ (ap (λ x. record d { approval_source = x; projects = f.projects })
          (FilledSource-sources d.approval_source f.source f.source_filled)
        ∙ ap
            (λ x. record d {
              approval_source = default_source (default_backend d.approval_source);
              projects = x;
            })
            (FilledProjects-map d.projects f.projects f.projects_filled))

-- `Parse` returns a policy exactly when it is the one that the text decodes to, with the defaults filled
-- in, and is valid. A project without an approval mode gets "never"; an approval source without a
-- backend gets "kdialog"; the relay's poll interval and timeout are 2 and 300 seconds where they are left
-- out and the backend is the relay; and nothing else is changed.
pub parse-FilledConfig_iff :
    (parse_url : String → Option Url) (decode : Decoder) (text : String) (c : Config)
    → (parse parse_url decode text ≡ ok c)
      ↔ ((d : Config) × (decode text ≡ some d) × FilledConfig d c × IsValid parse_url c)
unfolding parse
parse-FilledConfig_iff parse_url decode text c = (
  λ h.
      let (valid, loaded) = parse-IsValid parse_url decode text c h in
      let (d, decoded, same) = loaded in
      (d, decoded, subst (FilledConfig d) (sym same) (apply_defaults-FilledConfig d), valid),
  λ (d, decoded, filled, valid).
      let same = FilledConfig-apply_defaults d c filled in
      let checked =
        (validate-IsValid_iff parse_url (apply_defaults d)).1
          (subst (IsValid parse_url) same valid) in
      rw (decoded, checked) (ap ok (sym same)),
)
