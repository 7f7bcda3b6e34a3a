-- ===== src/Admin/Access/Diagnostic/Complete.antt =====
-- When the audited access check reports no error.
use secrets_broker.Base.{
  String, ◌≡◌, ◌↔◌, refl, Option, none, some, Bool, true, false, ◌&&◌, List, Result, ok, err,
  if◌then◌else◌,
}
use secrets_broker.Admin.Access.{CheckerError}
use secrets_broker.Admin.Audited.{MutationStart, MutationFinish}
use secrets_broker.Admin.Access.Diagnostic.{
  outcome_failed, DiagnosticCall, DiagnosticEnv, finish_of, finish_checked, after_check,
  started_check, diagnose,
}

accepted-eq_true :
    (good : Bool) (finish : MutationFinish → Bool) (outcome : String)
    → (good && finish (finish_of (if good then outcome else outcome_failed))) ≡ true
    → (good ≡ true) × (finish (finish_of outcome) ≡ true)
accepted-eq_true true finish outcome h = (refl, h)
accepted-eq_true false finish outcome h = cc

module _ {A : Type 0} (env : DiagnosticEnv A) (logged : A → String) (returned : A → String) where
  -- The caller has consumed the checker's result, and the two records around that are written, the last
  -- one with the result's outcome.
  pub record Succeeded (rec : MutationStart) : Type 0 where
    pub id : String
    pub start : env.start rec ≡ some id
    pub result : A
    pub check : env.check ≡ ok result
    pub consume : env.consume result ≡ true
    pub finish : env.finish id (finish_of (logged result)) ≡ true

  after_check-succeeded :
      (id : String) (found : Result CheckerError A) (calls : List (DiagnosticCall A))
      → (after_check env logged returned id found calls).succeeded ≡ true
      → (a : A) × (found ≡ ok a)
        × (env.consume a ≡ true)
        × (env.finish id (finish_of (logged a)) ≡ true)
  unfolding after_check finish_checked
  after_check-succeeded id (err e) calls h = cc
  after_check-succeeded id (ok a) calls h =
      let (good, written) = accepted-eq_true (env.consume a) (env.finish id) (logged a) h in
      (a, refl, good, written)

  started_check-Succeeded :
      (rec : MutationStart) (id : Option String)
      → env.start rec ≡ id
      → (started_check env logged returned rec id).succeeded ≡ true
      → Succeeded rec
  unfolding started_check
  started_check-Succeeded rec none s h = cc
  started_check-Succeeded rec (some id) s h =
      let (a, found, good, written) = after_check-succeeded id env.check _ h in
      record { id = id; start = s; result = a; check = found; consume = good; finish = written }

  Succeeded-diagnose :
      (rec : MutationStart) → Succeeded rec → (diagnose env logged returned rec).succeeded ≡ true
  unfolding diagnose started_check after_check finish_checked
  Succeeded-diagnose rec s = rw (s.start, s.check, s.consume, s.finish) refl

  -- The audited access check and project list report no error exactly when the start record was written,
  -- the checker had a result, the caller has consumed it, and the finish record with that result's outcome
  -- was written.
  pub diagnose-Succeeded_iff :
      (rec : MutationStart) → ((diagnose env logged returned rec).succeeded ≡ true) ↔ Succeeded rec
  unfolding diagnose
  diagnose-Succeeded_iff rec =
      (started_check-Succeeded rec (env.start rec) refl, Succeeded-diagnose rec)
