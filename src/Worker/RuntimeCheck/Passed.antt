-- ===== src/Worker/RuntimeCheck/Passed.antt =====
-- What a passed check of the worker promises for its service.
use secrets_broker.Base.{
  ℕ, String, ◌≡◌, refl, sym, ap, ◌∙◌, ◌↔◌, ◌≢◌, Option, none, some, Bool, true, false, not, List,
  [], ◌∷◌, All, length, eqb, ok, map_err, >>=-eq-ok, >>-eq-ok, reject-eq-ok, reject->>-eq-ok,
  map_err-eq-ok, ok_inj, not-eq_false, arith,
}
use secrets_broker.Config.{Config, Project}
use secrets_broker.Config.Worker.{load_worker, validate_worker}
use secrets_broker.Config.Trusted.{validate_worker-IsWorker_iff}
use secrets_broker.Worker.Server.Trust.{trusted_policy-IsTrustedPolicy}
use secrets_broker.Securefile.{Node, validate_private_file}
use secrets_broker.Worker.Server.{World, validate_runtime, trusted_policy, checked_policy}
use secrets_broker.Worker.RuntimeCheck.{
  CheckResult, not_loaded, not_worker, runtime_invalid, token_refused, token_empty,
  dir_not_directory, max_file_bytes, stat_dir, check_resolved, check_dirs, check,
}

eqb-zero : (n : ℕ) → n ≢ 0 → eqb n 0 ≡ false
eqb-zero n h = ground arith

module _ (w : World) (euid : ℕ) (token_file : String → Option Node)
    (stat : String → Option Bool) where
  -- The working directory resolves to a directory.
  abbrev pub HasDirectory : Project → Type 0
  HasDirectory p =
      (resolved : String) × (w.eval_symlinks p.working_dir ≡ some resolved)
      × (stat resolved ≡ some true)

  pub record IsChecked (r : CheckResult) : Type 0 where
    pub cfg : Config
    pub served : trusted_policy w (load_worker w.parse_url w.decode w.policy) ≡ some cfg
    pub token :
        validate_private_file euid (token_file cfg.token_source.file_path) max_file_bytes
        ≡ ok r.token_bytes
    pub some_token : r.token_bytes ≢ 0
    pub dirs : All HasDirectory cfg.projects
    pub projects : r.projects ≡ length cfg.projects

  stat_dir-eq-ok :
      (alias : String) (found : Option Bool) → stat_dir alias found ≡ ok tt → found ≡ some true
  unfolding stat_dir
  stat_dir-eq-ok alias none h = cc
  stat_dir-eq-ok alias (some is_dir) h =
      ap some (not-eq_false is_dir (reject-eq-ok _ (dir_not_directory alias) h))

  check_resolved-eq-ok :
      (alias : String) (look : Option String)
      → check_resolved w euid token_file stat alias look ≡ ok tt
      → (resolved : String) × (look ≡ some resolved) × (stat resolved ≡ some true)
  unfolding check_resolved
  check_resolved-eq-ok alias none h = cc
  check_resolved-eq-ok alias (some resolved) h =
      (resolved, refl, stat_dir-eq-ok alias (stat resolved) h)

  check_dirs-HasDirectory :
      (ps : List Project) → check_dirs w euid token_file stat ps ≡ ok tt → All HasDirectory ps
  unfolding check_dirs
  check_dirs-HasDirectory [] h = tt
  check_dirs-HasDirectory (p ∷ rest) h =
      let (one, others) =
        >>-eq-ok (check_resolved w euid token_file stat p.alias (w.eval_symlinks p.working_dir)) _
          h in
      (
        check_resolved-eq-ok p.alias (w.eval_symlinks p.working_dir) one,
        check_dirs-HasDirectory rest others,
      )

  trusted_policy-eq-some :
      (cfg : Config)
      → validate_worker cfg ≡ ok tt
      → validate_runtime w cfg.runtime ≡ true
      → trusted_policy w (ok cfg) ≡ some cfg
  unfolding trusted_policy checked_policy
  trusted_policy-eq-some cfg valid runtime = rw (valid, runtime) refl

  check-IsChecked : (r : CheckResult) → check w euid token_file stat ≡ ok r → IsChecked r
  unfolding check
  check-IsChecked r h =
      let (cfg, loaded, h1) =
        >>=-eq-ok (map_err not_loaded (load_worker w.parse_url w.decode w.policy)) _ h in
      let (valid, h2) = >>-eq-ok (map_err not_worker (validate_worker cfg)) _ h1 in
      let (run, h3) = reject->>-eq-ok (not (validate_runtime w cfg.runtime)) runtime_invalid _ h2 in
      let (size, private, h4) =
        >>=-eq-ok
          (map_err token_refused
            (validate_private_file euid (token_file cfg.token_source.file_path) max_file_bytes))
          _ h3 in
      let (full, h5) = reject->>-eq-ok (eqb size 0) token_empty _ h4 in
      let (dirs, h6) = >>-eq-ok (check_dirs w euid token_file stat cfg.projects) _ h5 in
      let bytes = ap (λ x. x.token_bytes) (ok_inj h6) in
      record {
        cfg = cfg;
        served =
            ap (trusted_policy w) (map_err-eq-ok not_loaded _ loaded)
            ∙ trusted_policy-eq-some cfg (map_err-eq-ok not_worker _ valid) (not-eq_false _ run);
        token = map_err-eq-ok token_refused _ private ∙ ap ok bytes;
        some_token = λ z. ground (arith, full, bytes, z);
        dirs = check_dirs-HasDirectory cfg.projects dirs;
        projects = sym (ap (λ x. x.projects) (ok_inj h6));
      }

  resolved-check :
      (alias : String) (look : Option String) (resolved : String)
      → look ≡ some resolved
      → stat resolved ≡ some true
      → check_resolved w euid token_file stat alias look ≡ ok tt
  unfolding check_resolved stat_dir
  resolved-check alias look resolved found is_dir = rw (found, is_dir) refl

  HasDirectory-check_dirs :
      (ps : List Project) → All HasDirectory ps → check_dirs w euid token_file stat ps ≡ ok tt
  unfolding check_dirs
  HasDirectory-check_dirs [] dirs = refl
  HasDirectory-check_dirs (p ∷ rest) ((resolved, found, is_dir), dirs) =
      rw
        (
          resolved-check p.alias (w.eval_symlinks p.working_dir) resolved found is_dir,
          HasDirectory-check_dirs rest dirs,
        )
        refl

  IsChecked-check : (r : CheckResult) → IsChecked r → check w euid token_file stat ≡ ok r
  unfolding check
  IsChecked-check r c =
      let t = trusted_policy-IsTrustedPolicy w _ c.cfg refl c.served in
      rw
        (
          t.loaded,
          (validate_worker-IsWorker_iff c.cfg).1 t.worker,
          t.runtime,
          c.token,
          eqb-zero r.token_bytes c.some_token,
          HasDirectory-check_dirs c.cfg.projects c.dirs,
        )
        (ap (λ n. ok (record { projects = n; token_bytes = r.token_bytes })) (sym c.projects))

  -- The worker's check passes exactly when its service trusts the policy, so that it refuses no request for
  -- the policy or the runtime, the token file is private, not empty and of at most 64 KiB, and each
  -- project's working directory resolves to a directory; the numbers that the check tells are those of
  -- the projects and of the token's bytes.
  pub check-IsChecked_iff : (r : CheckResult) → (check w euid token_file stat ≡ ok r) ↔ IsChecked r
  check-IsChecked_iff r = (check-IsChecked r, IsChecked-check r)
