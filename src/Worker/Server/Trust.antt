-- ===== src/Worker/Server/Trust.antt =====
-- What the worker calls, and for which policy: internal/worker/server.go over the broker.
use mathlib.Core.Path.{subst}
use secrets_broker.Base.{
  String, ◌≡◌, refl, sym, inl, inr, Option, none, some, Bool, true, false, Bool-cases, Option-cases,
  not, List, [], ◌∷◌, ◌++◌, All, Result, Check, ok, err, arith, if◌then◌else◌,
}
use secrets_broker.Config.{Config}
use secrets_broker.Config.Worker.{LoadError, WorkerInvalid, load_worker, validate_worker}
use secrets_broker.Config.Validity.{IsValid}
use secrets_broker.Config.Trusted.{IsWorker, validate_worker-IsWorker_iff, parse-IsValid}
use secrets_broker.Broker.{
  Event, Trace, started, finished, asked, resolved, executed, run, after_start,
}
use secrets_broker.Broker.Authorised.{IsAuthorised, run-IsAuthorised}
use secrets_broker.Worker.{WorkerRequest, RequestError, decode_request}
use secrets_broker.Worker.Server.{
  World, Frame, env_of, validate_runtime, checked_policy, trusted_policy, record_of, close_denied,
  audit_denied, run_request, serve_run, serve_policy, serve_request, serve,
}

module _ (w : World) where
  -- The policy is the file's, valid, fit for the worker, and its runtime passes the checks of the files.
  pub record IsTrustedPolicy (cfg : Config) : Type 0 where
    pub loaded : load_worker w.parse_url w.decode w.policy ≡ ok cfg
    pub valid : IsValid w.parse_url cfg
    pub worker : IsWorker cfg
    pub runtime : validate_runtime w cfg.runtime ≡ true

  -- A call of the approver, the resolver or the runner is made for the request that was read, which is
  -- no dry run, under a trusted policy, after a start record, and is authorised by that policy.
  pub record IsServed (e : Event) : Type 0 where
    pub cfg : Config
    pub req : WorkerRequest
    pub id : String
    pub read : decode_request w.input ≡ ok req
    pub wet : req.is_dry_run ≡ false
    pub policy : IsTrustedPolicy cfg
    pub start : w.start [] (record_of w req) ≡ some id
    pub authorised :
        IsAuthorised
          (env_of w cfg)
          cfg
          (run_request w req)
          (started (record_of w req) (some id) ∷ [])
          e

  abbrev pub IsTrusted : Event → Type 0
  IsTrusted (started rec id) = Unit
  IsTrusted (finished id rec written) = Unit
  IsTrusted (asked text reply) = IsServed (asked text reply)
  IsTrusted (resolved entry token) = IsServed (resolved entry token)
  IsTrusted (executed spec result) = IsServed (executed spec result)

  close_denied-IsTrusted :
      (req : WorkerRequest) (outcome : String) (id : Option String)
      → All IsTrusted (close_denied w (record_of w req) outcome id)
  close_denied-IsTrusted req outcome none = (tt, tt)
  close_denied-IsTrusted req outcome (some id) = (tt, (tt, tt))

  audit_denied-IsTrusted :
      (req : WorkerRequest) (outcome : String) → All IsTrusted (audit_denied w req outcome)
  unfolding audit_denied
  audit_denied-IsTrusted req outcome =
      close_denied-IsTrusted req outcome (w.start [] (record_of w req))

  authorised-IsTrusted :
      (cfg : Config) (req : WorkerRequest) (id : String)
      → decode_request w.input ≡ ok req
      → req.is_dry_run ≡ false
      → IsTrustedPolicy cfg
      → w.start [] (record_of w req) ≡ some id
      → (e : Event)
      → IsAuthorised
          (env_of w cfg)
          cfg
          (run_request w req)
          (started (record_of w req) (some id) ∷ [])
          e
      → IsTrusted e
  authorised-IsTrusted cfg req id r d p s (started rec i) a = tt
  authorised-IsTrusted cfg req id r d p s (finished i rec written) a = tt
  authorised-IsTrusted cfg req id r d p s (asked text reply) a = record {
    cfg = cfg;
    req = req;
    id = id;
    read = r;
    wet = d;
    policy = p;
    start = s;
    authorised = a;
  }
  authorised-IsTrusted cfg req id r d p s (resolved entry token) a = record {
    cfg = cfg;
    req = req;
    id = id;
    read = r;
    wet = d;
    policy = p;
    start = s;
    authorised = a;
  }
  authorised-IsTrusted cfg req id r d p s (executed spec result) a = record {
    cfg = cfg;
    req = req;
    id = id;
    read = r;
    wet = d;
    policy = p;
    start = s;
    authorised = a;
  }

All-map :
    (P Q : Event → Type 0) → ((e : Event) → P e → Q e) → (es : List Event) → All P es → All Q es
All-map P Q f [] h = tt
All-map P Q f (e ∷ es) h = (f e h.0, All-map P Q f es h.1)

All-guarded :
    (P : Event → Type 0) (b : Bool) (x y : List Frame × Trace)
    → All P x.1
    → All P y.1
    → All P (if not b then x else y).1
All-guarded P true x y h k = k
All-guarded P false x y h k = h

All-append : (P : Event → Type 0) (xs ys : List Event) → All P xs → All P ys → All P (xs ++ ys)
All-append P [] ys h k = k
All-append P (x ∷ xs) ys h k = (h.0, All-append P xs ys h.1 k)

module _ (w : World) where
  run-IsTrusted :
      (cfg : Config) (req : WorkerRequest)
      → decode_request w.input ≡ ok req
      → req.is_dry_run ≡ false
      → IsTrustedPolicy w cfg
      → All (IsTrusted w) (run (env_of w cfg) cfg (run_request w req) []).1
  unfolding run after_start
  run-IsTrusted cfg req r d p = elim (Option-cases (w.start [] (record_of w req))) [
    | inl unstarted ↦ rw unstarted (tt, tt)
    | inr (id, s) ↦
        let closed = run-IsAuthorised (env_of w cfg) cfg (run_request w req) [] id s in
        subst (All (IsTrusted w)) (sym closed.trace) (
          tt,
          All-append _ closed.inner _
              (All-map _ _ (authorised-IsTrusted w cfg req id r d p s) closed.inner closed.plain)
              (tt, tt),
        )
  ]

  checked_policy-some :
      (c cfg : Config) (checked : Check WorkerInvalid)
      → checked_policy w c checked ≡ some cfg
      → (checked ≡ ok tt) × (validate_runtime w c.runtime ≡ true) × (c ≡ cfg)
  unfolding checked_policy
  checked_policy-some c cfg (err e) h = cc
  checked_policy-some c cfg (ok u) h = elim (Bool-cases (validate_runtime w c.runtime)) [
    | inl good ↦ (refl, good, ground (arith, h, good))
    | inr bad ↦ ground (arith, h, bad)
  ]

  load_worker-IsValid :
      (policy : Option String) (c : Config)
      → load_worker w.parse_url w.decode policy ≡ ok c
      → IsValid w.parse_url c
  unfolding load_worker
  load_worker-IsValid none c h = cc
  load_worker-IsValid (some content) c h = (parse-IsValid w.parse_url w.decode content c h).0

  pub trusted_policy-IsTrustedPolicy :
      (found : Result LoadError Config) (cfg : Config)
      → load_worker w.parse_url w.decode w.policy ≡ found
      → trusted_policy w found ≡ some cfg
      → IsTrustedPolicy w cfg
  unfolding trusted_policy
  trusted_policy-IsTrustedPolicy (err e) cfg l h = cc
  trusted_policy-IsTrustedPolicy (ok c) cfg l h =
      let (checked, runtime, same) = checked_policy-some c cfg (validate_worker c) h in
      subst (IsTrustedPolicy w) same (record {
        loaded = l;
        valid = load_worker-IsValid w.policy c l;
        worker = (validate_worker-IsWorker_iff c).0 checked;
        runtime = runtime;
      })

  serve_policy-IsTrusted :
      (req : WorkerRequest) (found : Option Config)
      → decode_request w.input ≡ ok req
      → ((cfg : Config) → found ≡ some cfg → IsTrustedPolicy w cfg)
      → All (IsTrusted w) (serve_policy w req found).1
  unfolding serve_policy serve_run
  serve_policy-IsTrusted req none r k = audit_denied-IsTrusted w req "config_unavailable"
  serve_policy-IsTrusted req (some cfg) r k = elim (Bool-cases req.is_dry_run) [
    | inl dry ↦ rw dry tt
    | inr wet ↦ rw wet (run-IsTrusted cfg req r wet (k cfg refl))
  ]

  serve_request-IsTrusted :
      (found : Result RequestError WorkerRequest)
      → decode_request w.input ≡ found
      → All (IsTrusted w) (serve_request w found).1
  unfolding serve_request
  serve_request-IsTrusted (err e) r = audit_denied-IsTrusted w _ "invalid_request"
  serve_request-IsTrusted (ok req) r =
      serve_policy-IsTrusted req _ r (λ cfg h. trusted_policy-IsTrustedPolicy _ cfg refl h)

-- Whatever the worker is sent, it prompts, resolves the token and executes only for a request that
-- decodes, after a written start record, under the policy of its file, which is valid, has the trust
-- properties of a worker and passes the checks of its runtime; and only as that policy authorises the
-- request. A request that is refused or only preflighted calls none of them.
pub serve-IsTrusted : (w : World) → All (IsTrusted w) (serve w).1
unfolding serve
serve-IsTrusted w =
    All-guarded (IsTrusted w) w.opens_log _ _ tt
      (serve_request-IsTrusted w (decode_request w.input) refl)
