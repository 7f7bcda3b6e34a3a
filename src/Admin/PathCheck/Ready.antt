-- ===== src/Admin/PathCheck/Ready.antt =====
-- When a project's directory is found ready.
use secrets_broker.Base.{
  zero, suc, String, ◌≡◌, refl, sym, ap, ◌∙◌, Option, none, some, Bool, true, false, not, ◌&&◌,
  List, ℤ, Result, ok, >>=-eq-ok, reject->>-eq-ok, ok_inj, arith,
}
use secrets_broker.Go.{is_blank}
use secrets_broker.Admin.Editor.{ProjectDetail}
use secrets_broker.Admin.PathCheck.{
  PathCheckResult, is_ready, Lookup, there, not_there, not_found_out, Probe, PathError, exit_answer,
  probe_answer, probe_args, probe_path, probe_write, probe_resolved, check_project_path,
  with_resolved, with_stat, unresolved, worker_probe_failed, runner_probe_failed,
}

-- The probe ran, wrote nothing and exited with zero.
pub record HasPassed (answer : Option Probe) : Type 0 where
  pub probe : Probe
  pub ran : answer ≡ some probe
  pub exit : probe.exit ≡ ℤ.pos 0
  pub silent : (is_blank probe.stdout && is_blank probe.stderr) ≡ true

exit_answer-eq_true : (e : PathError) (code : ℤ) → exit_answer e code ≡ ok true → code ≡ ℤ.pos 0
unfolding exit_answer
exit_answer-eq_true e (ℤ.pos zero) h = refl
exit_answer-eq_true e (ℤ.pos (suc zero)) h = cc
exit_answer-eq_true e (ℤ.pos (suc (suc n))) h = ground (arith, h)
exit_answer-eq_true e (ℤ.negsuc n) h = cc

probe_answer-HasPassed :
    (e : PathError) (answer : Option Probe) → probe_answer e answer ≡ ok true → HasPassed answer
unfolding probe_answer
probe_answer-HasPassed e none h = cc
probe_answer-HasPassed e (some p) h =
    let (quiet, h1) = reject->>-eq-ok (not (is_blank p.stdout && is_blank p.stderr)) e _ h in
    record {
      probe = p;
      ran = refl;
      exit = exit_answer-eq_true e p.exit h1;
      silent = ground (arith, quiet);
    }

unresolved-is_ready :
    (p : ProjectDetail) (resolution : String) → is_ready (unresolved p resolution) ≡ false
unfolding is_ready unresolved
unresolved-is_ready p resolution = ground arith

not_ready :
    {r : PathCheckResult} {A : Type 0} (p : ProjectDetail) (resolution : String)
    → Path (Result PathError PathCheckResult) (ok (unresolved p resolution)) (ok r)
    → is_ready r ≡ true
    → A
not_ready p resolution h ready =
    let clash = sym (unresolved-is_ready p resolution) ∙ ap is_ready (ok_inj h) ∙ ready in cc

module _ (eval_symlinks : String → Lookup String) (is_dir : String → Lookup Bool)
    (runuser : List String → Option Probe) where
  pub record IsReady (p : ProjectDetail) : Type 0 where
    pub resolved : String
    pub found : eval_symlinks p.working_dir ≡ there resolved
    pub folder : is_dir resolved ≡ there true
    pub worker : HasPassed (runuser (probe_args "secrets-broker" "-x" p.working_dir))
    pub runner : HasPassed (runuser (probe_args "secrets-broker-runner" "-x" p.working_dir))

  probe_path-HasPassed :
      (e : PathError) (user check path : String)
      → probe_path eval_symlinks is_dir runuser e user check path ≡ ok true
      → HasPassed (runuser (probe_args user check path))
  unfolding probe_path
  probe_path-HasPassed e user check path h = probe_answer-HasPassed e _ h

  both_entered :
      (r : PathCheckResult)
      → is_ready r ≡ true
      → (r.worker_can_enter ≡ true) × (r.runner_can_enter ≡ true)
  unfolding is_ready
  both_entered r h = (ground (arith, h), ground (arith, h))

  probe_resolved-HasPassed :
      (p : ProjectDetail) (resolved : String) (r : PathCheckResult)
      → probe_resolved eval_symlinks is_dir runuser p resolved ≡ ok r
      → is_ready r ≡ true
      → HasPassed (runuser (probe_args "secrets-broker" "-x" p.working_dir))
        × HasPassed (runuser (probe_args "secrets-broker-runner" "-x" p.working_dir))
  unfolding probe_resolved
  probe_resolved-HasPassed p resolved r h ready =
      let (worker, w, h1) =
        >>=-eq-ok
          (probe_path eval_symlinks is_dir runuser worker_probe_failed "secrets-broker" "-x"
            p.working_dir)
          _ h in
      let (runner, n, h2) =
        >>=-eq-ok
          (probe_path eval_symlinks is_dir runuser runner_probe_failed "secrets-broker-runner" "-x"
            p.working_dir)
          _ h1 in
      let (writes, _, h3) =
        >>=-eq-ok (probe_write eval_symlinks is_dir runuser runner p.working_dir) _ h2 in
      let (a, b) = both_entered r ready in
      (
        probe_path-HasPassed worker_probe_failed "secrets-broker" "-x" p.working_dir
            (w ∙ ap ok (ap (λ x. x.worker_can_enter) (ok_inj h3) ∙ a)),
        probe_path-HasPassed runner_probe_failed "secrets-broker-runner" "-x" p.working_dir
            (n ∙ ap ok (ap (λ x. x.runner_can_enter) (ok_inj h3) ∙ b)),
      )

  with_stat-IsReady :
      (p : ProjectDetail) (resolved : String) (folder : Lookup Bool) (r : PathCheckResult)
      → eval_symlinks p.working_dir ≡ there resolved
      → is_dir resolved ≡ folder
      → with_stat eval_symlinks is_dir runuser p resolved folder ≡ ok r
      → is_ready r ≡ true
      → IsReady p
  unfolding with_stat
  with_stat-IsReady p resolved not_there r found here h ready = not_ready p _ h ready
  with_stat-IsReady p resolved not_found_out r found here h ready = not_ready p _ h ready
  with_stat-IsReady p resolved (there false) r found here h ready = not_ready p _ h ready
  with_stat-IsReady p resolved (there true) r found here h ready =
      let (worker, runner) = probe_resolved-HasPassed p resolved r h ready in
      record { resolved = resolved; found = found; folder = here; worker = worker; runner = runner }

  with_resolved-IsReady :
      (p : ProjectDetail) (look : Lookup String) (r : PathCheckResult)
      → eval_symlinks p.working_dir ≡ look
      → with_resolved eval_symlinks is_dir runuser p look ≡ ok r
      → is_ready r ≡ true
      → IsReady p
  unfolding with_resolved
  with_resolved-IsReady p not_there r found h ready = not_ready p _ h ready
  with_resolved-IsReady p not_found_out r found h ready = not_ready p _ h ready
  with_resolved-IsReady p (there resolved) r found h ready =
      with_stat-IsReady p resolved (is_dir resolved) r found refl h ready

  -- A project that is found ready has a working directory that resolves to a directory, and both the
  -- worker and the runner have entered the working directory: each probe ran, wrote nothing and exited with
  -- zero.
  pub check_project_path-IsReady :
      (p : ProjectDetail) (r : PathCheckResult)
      → check_project_path eval_symlinks is_dir runuser p ≡ ok r
      → is_ready r ≡ true
      → IsReady p
  unfolding check_project_path
  check_project_path-IsReady p r h ready =
      with_resolved-IsReady p (eval_symlinks p.working_dir) r refl h ready
