-- ===== src/Broker/Preflight.antt =====
-- `DryRun` against `Run`: the preflight's verdict is the one that the run acts on.
use secrets_broker.Base.{String, ◌≡◌, refl, Bool-cases, inl, inr, Option, none, some, ◌∷◌}
use secrets_broker.Config.{Config, Project, project}
use secrets_broker.Broker.{
  Env, Verdict, Trace, RunRequest, RunOutcome, deny, allow, prompt, started, run, after_start,
  run_project, by_verdict, ask, proceed, deny_run, start_record, wrong_working_dir, decide, dry_run,
  dry_run_project, explain,
}

module _ (env : Env) (req : RunRequest) (id : String) (t : Trace) where
  -- What the run does from its start record on, by the verdict of the preflight: a denial calls nothing
  -- but `Finish`, a prompt goes to the approver, and an allowed command is run without a prompt.
  abbrev pub Follows : Verdict → RunOutcome × Trace → Type 0
  Follows deny r = (reason : String) × (r ≡ deny_run env id reason t)
  Follows prompt r = (p : Project) × (r ≡ ask env id p req t)
  Follows allow r = (p : Project) × (r ≡ proceed env id p req t)

  by_verdict-Follows :
      (v : Verdict) (p : Project) → Follows (explain env v p).verdict (by_verdict env v id p req t)
  unfolding by_verdict explain
  by_verdict-Follows deny p = (_, refl)
  by_verdict-Follows prompt p = (p, refl)
  by_verdict-Follows allow p = (p, refl)

  run_project-Follows :
      (found : Option Project)
      → Follows
          (dry_run_project env found req.working_dir req.argv).verdict
          (run_project env found id req t)
  unfolding run_project dry_run_project
  run_project-Follows none = (_, refl)
  run_project-Follows (some p) = elim (Bool-cases (wrong_working_dir env p req.working_dir)) [
    | inl e ↦ rw e (_, refl)
    | inr e ↦ rw e (by_verdict-Follows (decide p req.argv) p)
  ]

-- A run whose start record is written does what `DryRun` told of the same request.
pub run-Follows-dry_run :
    (env : Env) (cfg : Config) (req : RunRequest) (t : Trace) (id : String)
    → env.start t (start_record env req) ≡ some id
    → Follows env req id
        (started (start_record env req) (some id) ∷ t)
        (dry_run env cfg req.project req.working_dir req.argv).verdict
        (run env cfg req t)
unfolding run after_start dry_run
run-Follows-dry_run env cfg req t id e =
    rw e (run_project-Follows env req id _ (project cfg req.project))
