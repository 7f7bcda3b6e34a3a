-- ===== src/Broker/Closed.antt =====
-- A run from its start record on: the calls that it makes, and the finish record that ends it.
use Prim.Native.String.{◌++◌ as ◌+s◌}
use secrets_broker.Base.{
  String, ◌≡◌, refl, Bool, true, false, not, inl, inr, ◌⊎◌, Option, none, some, List, [], ◌∷◌, ◌++◌,
  All, if◌then◌else◌, ℤ,
}
use secrets_broker.Config.{Project}
use secrets_broker.Broker.{
  Env, Event, Trace, RunRequest, RunOutcome, RunSpec, FinishRecord, Verdict, deny, allow, prompt,
  finished, asked, resolved, executed, run_project, by_verdict, ask, proceed, execute, complete,
  deny_run, reject_approval, reason_approval_rejected, wrong_working_dir, decide, is_approved,
  format_prompt, reason_token_resolution_failed, reason_runner_start_failed,
}

-- The finish record tells what the outcome tells.
abbrev pub Tells : FinishRecord → RunOutcome → Type 0
Tells rec o =
    (o.denied ≡ true) × (rec.outcome ≡ ("denied:" +s o.reason)) × (rec.exit_code ≡ none)
    ⊎ (o.denied ≡ false) × (rec.outcome ≡ "executed") × (rec.exit_code ≡ some o.exit_code)

-- From the trace `t` on, the run `id` made calls that all satisfy `P`, and then wrote its finish
-- record.
pub record IsClosed (P : Event → Type 0) (id : String) (t : Trace) (r : RunOutcome × Trace)
    : Type 0 where
  pub inner : List Event
  pub rec : FinishRecord
  pub written : Bool
  pub trace : r.1 ≡ finished id rec written ∷ (inner ++ t)
  pub plain : All P inner
  pub tells : Tells rec r.0
  pub complete_iff : r.0.audit_incomplete ≡ not written

module _ (P : Event → Type 0) (env : Env) (id : String) where
  deny_run-IsClosed : (reason : String) (t : Trace) → IsClosed P id t (deny_run env id reason t)
  unfolding deny_run
  deny_run-IsClosed reason t = record {
    inner = [];
    rec = record { outcome = "denied:" +s reason; exit_code = none };
    written = env.finish t id (record { outcome = "denied:" +s reason; exit_code = none });
    trace = refl;
    plain = tt;
    tells = inl (refl, refl, refl);
    complete_iff = refl;
  }

  complete-IsClosed : (code : ℤ) (t : Trace) → IsClosed P id t (complete env id code t)
  unfolding complete
  complete-IsClosed code t = record {
    inner = [];
    rec = record { outcome = "executed"; exit_code = some code };
    written = env.finish t id (record { outcome = "executed"; exit_code = some code });
    trace = refl;
    plain = tt;
    tells = inr (refl, refl, refl);
    complete_iff = refl;
  }

module _ (P : Event → Type 0) where
  All-snoc : (e : Event) (es : List Event) → All P es → P e → All P (es ++ e ∷ [])
  All-snoc e [] h k = (k, tt)
  All-snoc e (x ∷ es) h k = (h.0, All-snoc e es h.1 k)

snoc-append : (e : Event) (es t : List Event) → (es ++ e ∷ []) ++ t ≡ es ++ e ∷ t
snoc-append e [] t = refl
snoc-append e (x ∷ es) t = cc (snoc-append e es t)

module _ {P : Event → Type 0} where
  -- One call before a closed run.
  IsClosed-cons :
      (id : String) (t : Trace) (e : Event) (r : RunOutcome × Trace)
      → P e
      → IsClosed P id (e ∷ t) r
      → IsClosed P id t r
  IsClosed-cons id t e r k c = record {
    inner = c.inner ++ e ∷ [];
    rec = c.rec;
    written = c.written;
    trace = rw (snoc-append e c.inner t) c.trace;
    plain = All-snoc P e c.inner c.plain k;
    tells = c.tells;
    complete_iff = c.complete_iff;
  }

  IsClosed-if :
      (b : Bool) {id : String} {t : Trace} {r s : RunOutcome × Trace}
      → (b ≡ true → IsClosed P id t r)
      → (b ≡ false → IsClosed P id t s)
      → IsClosed P id t (if b then r else s)
  IsClosed-if true hr hs = hr refl
  IsClosed-if false hr hs = hs refl

-- The command that a project's token is spent on.
abbrev pub spec_of : RunRequest → Project → String → RunSpec
spec_of req p token = record {
  project_id = p.bws_project_id;
  token = token;
  working_dir = req.working_dir;
  argv = req.argv;
}

-- `P` admits the calls of a command that may run.
pub record Admits (P : Event → Type 0) (req : RunRequest) (p : Project) : Type 0 where
  pub resolves : (found : Option String) → P (resolved p.token_entry found)
  pub executes : (token : String) (result : Option ℤ) → P (executed (spec_of req p token) result)

module _ (P : Event → Type 0) (env : Env) (id : String) (req : RunRequest) where
  execute-IsClosed :
      (p : Project) (token : String) (t : Trace)
      → Admits P req p
      → IsClosed P id t (execute env id p req token t)
  unfolding execute
  execute-IsClosed p token t a = closed (env.run_command t (spec_of req p token))
    where
      closed :
          (result : Option ℤ)
          → IsClosed P id t (
              let t' = executed (spec_of req p token) result ∷ t in
              elim result [
                | none ↦ deny_run env id reason_runner_start_failed t'
                | some code ↦ complete env id code t'
              ])
      closed none = IsClosed-cons id t _ _ (a.executes token none) (deny_run-IsClosed P env id _ _)
      closed (some code) =
          IsClosed-cons id t _ _ (a.executes token (some code)) (complete-IsClosed P env id code _)

  proceed-IsClosed :
      (p : Project) (t : Trace) → Admits P req p → IsClosed P id t (proceed env id p req t)
  unfolding proceed
  proceed-IsClosed p t a = closed (env.resolve t p.token_entry)
    where
      closed :
          (found : Option String)
          → IsClosed P id t (
              let t' = resolved p.token_entry found ∷ t in
              elim found [
                | none ↦ deny_run env id reason_token_resolution_failed t'
                | some token ↦ execute env id p req token t'
              ])
      closed none = IsClosed-cons id t _ _ (a.resolves none) (deny_run-IsClosed P env id _ _)
      closed (some token) =
          IsClosed-cons id t _ _ (a.resolves (some token)) (execute-IsClosed p token _ a)

  reject_approval-IsClosed : (t : Trace) → IsClosed P id t (reject_approval env id t)
  unfolding reject_approval
  reject_approval-IsClosed t =
      let c = deny_run-IsClosed P env id reason_approval_rejected t in
      record {
        inner = c.inner;
        rec = c.rec;
        written = c.written;
        trace = c.trace;
        plain = c.plain;
        tells = c.tells;
        complete_iff = c.complete_iff;
      }

  abbrev prompt_text : String
  prompt_text = format_prompt env req.project req.working_dir req.argv

  ask-IsClosed :
      (p : Project) (t : Trace)
      → P (asked prompt_text (env.approve t prompt_text))
      → (is_approved env (env.approve t prompt_text) ≡ true → Admits P req p)
      → IsClosed P id t (ask env id p req t)
  unfolding ask
  ask-IsClosed p t k a =
      IsClosed-cons id t _ _ k
        (IsClosed-if _ (λ e. proceed-IsClosed p _ (a e)) (λ e. reject_approval-IsClosed _))

  by_verdict-IsClosed :
      (v : Verdict) (p : Project) (t : Trace)
      → (v ≡ prompt → P (asked prompt_text (env.approve t prompt_text)))
      → (v ≡ prompt → is_approved env (env.approve t prompt_text) ≡ true → Admits P req p)
      → (v ≡ allow → Admits P req p)
      → IsClosed P id t (by_verdict env v id p req t)
  unfolding by_verdict
  by_verdict-IsClosed deny p t k a b = deny_run-IsClosed P env id _ t
  by_verdict-IsClosed prompt p t k a b = ask-IsClosed p t (k refl) (a refl)
  by_verdict-IsClosed allow p t k a b = proceed-IsClosed p t (b refl)

  -- The calls that a run makes once its audit record stands.
  pub run_project-IsClosed :
      (found : Option Project) (t : Trace)
      → ((p : Project)
          → found ≡ some p
          → wrong_working_dir env p req.working_dir ≡ false
          → decide p req.argv ≡ prompt
          → P (asked prompt_text (env.approve t prompt_text)))
      → ((p : Project)
          → found ≡ some p
          → wrong_working_dir env p req.working_dir ≡ false
          → (decide p req.argv ≡ allow)
            ⊎ (decide p req.argv ≡ prompt) × (is_approved env (env.approve t prompt_text) ≡ true)
          → Admits P req p)
      → IsClosed P id t (run_project env found id req t)
  unfolding run_project
  run_project-IsClosed none t k a = deny_run-IsClosed P env id _ t
  run_project-IsClosed (some p) t k a =
      IsClosed-if _ (λ e. deny_run-IsClosed P env id _ t)
        (λ e.
          by_verdict-IsClosed _ p t (k p refl e) (λ v ok. a p refl e (inr (v, ok)))
            (λ v. a p refl e (inl v)))
