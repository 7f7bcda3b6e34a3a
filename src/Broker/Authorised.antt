-- ===== src/Broker/Authorised.antt =====
-- What every call of a run rests on: nothing is prompted, resolved or executed that the policy does not
-- allow.
use secrets_broker.Base.{String, ◌≡◌, refl, true, false, ◌⊎◌, inl, inr, Bool, not, some, ◌∷◌}
use secrets_broker.Config.{Config, Project, project}
use secrets_broker.Broker.Closed.{IsClosed, run_project-IsClosed, spec_of}
use secrets_broker.Approval.{Decision, approved, denied}
use secrets_broker.Broker.{
  Env, Reply, Event, Trace, RunRequest, allow, prompt, started, finished, asked, resolved, executed,
  run, after_start, start_record, wrong_working_dir, decide, is_approved, format_prompt,
}

-- The approver decided so, and returned no error.
abbrev pub IsGranted : Reply → Type 0
IsGranted r = (r.decision ≡ approved) × (r.failed ≡ false)

granted :
    (decision : Decision) (failed : Bool)
    → Path Bool (elim decision [ denied ↦ false | approved ↦ not failed ]) true
    → (decision ≡ approved) × (failed ≡ false)
granted denied failed h = cc
granted approved true h = cc
granted approved false h = (refl, refl)

is_approved-IsGranted : (env : Env) (r : Reply) → is_approved env r ≡ true → IsGranted r
unfolding is_approved
is_approved-IsGranted env r h = granted r.decision r.failed h

module _ (env : Env) (cfg : Config) (req : RunRequest) (t : Trace) where
  -- The request names the project `p` of the policy, from a directory that `p` accepts.
  pub record IsNamed (p : Project) : Type 0 where
    pub found : project cfg req.project ≡ some p
    pub dir : wrong_working_dir env p req.working_dir ≡ false

  -- The policy allows the command, or asks and the approver approved the prompt that shows it.
  abbrev pub IsPermitted : Project → Type 0
  IsPermitted p =
      (decide p req.argv ≡ allow)
      ⊎ (decide p req.argv ≡ prompt)
        × IsGranted (env.approve t (format_prompt env req.project req.working_dir req.argv))

  abbrev pub IsAuthorised : Event → Type 0
  IsAuthorised (started rec id) = ⊥
  IsAuthorised (finished id rec written) = ⊥
  IsAuthorised (asked text reply) =
      (p : Project) × IsNamed p
      × (decide p req.argv ≡ prompt)
      × (text ≡ format_prompt env req.project req.working_dir req.argv)
  IsAuthorised (resolved entry found) =
      (p : Project) × IsNamed p × IsPermitted p × (entry ≡ p.token_entry)
  IsAuthorised (executed spec result) =
      (p : Project) × (token : String) × IsNamed p × IsPermitted p × (spec ≡ spec_of req p token)

  permitted :
      (p : Project)
      → (decide p req.argv ≡ allow)
        ⊎ (decide p req.argv ≡ prompt)
          × (is_approved env
                (env.approve t (format_prompt env req.project req.working_dir req.argv))
              ≡ true)
      → IsPermitted p
  permitted p (inl allowed) = inl allowed
  permitted p (inr (asks, approves)) = inr (asks, is_approved-IsGranted env _ approves)

-- In a run whose start record was written, every call of the approver, the resolver and the runner is
-- for a project of the policy that the request names, from a directory that the project accepts. The
-- approver is asked only where the policy says so, and shown the request. A token is resolved, and a
-- command run, only where the policy allows the command or the approver approved it without an
-- error; what runs is the requested argv, in the requested directory, with the project's secrets.
pub run-IsAuthorised :
    (env : Env) (cfg : Config) (req : RunRequest) (t : Trace) (id : String)
    → env.start t (start_record env req) ≡ some id
    → let t' = started (start_record env req) (some id) ∷ t in
      IsClosed (IsAuthorised env cfg req t') id t' (run env cfg req t)
unfolding run after_start
run-IsAuthorised env cfg req t id e = rw e (
    run_project-IsClosed (IsAuthorised env cfg req _) env id req (project cfg req.project) _
      (λ p f d v. (p, record { found = f; dir = d }, v, refl))
      (λ p f d v. record {
        resolves = λ found. (p, record { found = f; dir = d }, permitted env cfg req _ p v, refl);
        executes = λ token result.
            (p, token, record { found = f; dir = d }, permitted env cfg req _ p v, refl);
      }))
