-- ===== src/Broker/Audit.antt =====
-- The audit trail of a run: it begins with the start record, before anything else is called, and ends
-- with the one finish record, which tells the outcome.
use secrets_broker.Base.{String, ◌≡◌, refl, true, Option, none, some, ◌∷◌}
use secrets_broker.Config.{Config, project}
use secrets_broker.Broker.Closed.{IsClosed, run_project-IsClosed}
use secrets_broker.Broker.{
  Env, Event, Trace, RunRequest, RunOutcome, started, finished, asked, resolved, executed, run,
  after_start, start_record, reason_audit_unavailable,
}

-- The approver, the resolver or the runner was called.
abbrev pub IsInner : Event → Type 0
IsInner (started rec id) = ⊥
IsInner (finished id rec written) = ⊥
IsInner (asked text reply) = Unit
IsInner (resolved entry token) = Unit
IsInner (executed spec result) = Unit

-- What a run leaves on top of the trace `t`, by the identifier that `Start` gave.
abbrev pub Audited : Env → RunRequest → Trace → RunOutcome × Trace → Option String → Type 0
Audited env req t r none =
    (r.1 ≡ started (start_record env req) none ∷ t)
    × (r.0.denied ≡ true)
    × (r.0.reason ≡ reason_audit_unavailable)
Audited env req t r (some id) = IsClosed IsInner id (started (start_record env req) (some id) ∷ t) r

after_start-Audited :
    (env : Env) (cfg : Config) (req : RunRequest) (t : Trace) (id : Option String)
    → Audited env req t (after_start env cfg req t id) id
unfolding after_start
after_start-Audited env cfg req t none = (refl, refl, refl)
after_start-Audited env cfg req t (some id) =
    run_project-IsClosed IsInner env id req (project cfg req.project) _ (λ p f d v. tt)
      (λ p f d v. record { resolves = λ found. tt; executes = λ token result. tt })

-- Every run first calls `Start` with the request's project, directory and argv. If that fails, nothing
-- else is called and the run is denied as `audit_unavailable`. Otherwise the last call is the one
-- `Finish`, under the identifier of the start; between the two stand only calls of the approver, the
-- resolver and the runner; the record says "executed" with the exit code, or "denied:" with the
-- reason and no exit code, as the outcome does; and the outcome is marked incomplete exactly when the
-- finish record could not be written.
pub run-Audited :
    (env : Env) (cfg : Config) (req : RunRequest) (t : Trace)
    → Audited env req t (run env cfg req t) (env.start t (start_record env req))
unfolding run
run-Audited env cfg req t = after_start-Audited env cfg req t (env.start t (start_record env req))
