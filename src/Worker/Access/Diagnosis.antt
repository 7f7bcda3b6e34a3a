-- ===== src/Worker/Access/Diagnosis.antt =====
-- What `CheckAccess` of internal/worker/access.go yields is what internal/accessdiag accepts.
use mathlib.Core.Path.{subst}
use secrets_broker.Base.{
  ℕ, String, ◌≡◌, refl, sym, ◌∙◌, ◌≢◌, inl, inr, Option, none, some, Bool, Bool-cases, List, [],
  ◌∷◌, All, ℤ, is_zero, Result, ok, map_err, arith, ◌==◌, >>=-eq-ok,
}
use secrets_broker.Go.{is_blank}
use secrets_broker.Config.{Config, Project}
use secrets_broker.Config.Worker.{LoadError, load_worker}
use secrets_broker.Config.Validity.{IsValid, HasFreshAliases}
use secrets_broker.Token.{resolve_file}
use secrets_broker.Accessdiag.{AccessResult, ProjectResult}
use secrets_broker.Accessdiag.Severity.{aggregate-worst}
use secrets_broker.Accessdiag.Validity.{IsStatus, IsIdentifier, IsDiagnosis, IsProject}
use secrets_broker.Accessdiag.Validity as Validity
use secrets_broker.Runner.{Call}
use secrets_broker.Worker.Server.{World}
use secrets_broker.Worker.Server.Trust.{trusted_policy-IsTrustedPolicy}
use secrets_broker.Worker.Access.{
  BwsAnswer, bws_call, get_args, AccessError, token_unavailable, classify_message, classify_access,
  classify_exit, judge, probe_access, probe_all, find_alias, select_access_projects, check_policy,
  check_access,
}

ok_injective :
    {rs ss : List ProjectResult}
    → ◌≡◌ {A = Result AccessError (List ProjectResult)} (ok rs) (ok ss)
    → rs ≡ ss
ok_injective e = ground (arith, e)

config_injective : {c d : Config} → ◌≡◌ {A = Result LoadError Config} (ok c) (ok d) → c ≡ d
config_injective e = ground (arith, e)

one_project : (p : Project) → (p ∷ []) ≢ []
one_project p e = cc

result_injective :
    {r s : AccessResult} → ◌≡◌ {A = Result AccessError AccessResult} (ok r) (ok s) → r ≡ s
result_injective e = ground (arith, e)

classify_message-IsStatus : (lower stderr : String) → IsStatus (classify_message lower stderr)
unfolding classify_message
classify_message-IsStatus lower stderr = ground arith

module _ (to_lower : String → String) (bws : Call → BwsAnswer) (is_print : ℕ → Bool) where
  classify_access-IsStatus :
      (code : ℤ) (stderr : String) → IsStatus (classify_access to_lower code stderr)
  unfolding classify_access
  classify_access-IsStatus code stderr = elim (Bool-cases (is_zero code)) [
    | inl zero_code ↦ rw zero_code (inl refl)
    | inr other ↦ rw other (classify_message-IsStatus (to_lower stderr) stderr)
  ]

  classify_exit-IsStatus :
      (exit : Option ℤ) (stderr s : String)
      → classify_exit to_lower bws exit stderr ≡ ok s
      → IsStatus s
  classify_exit-IsStatus none stderr s h = cc
  classify_exit-IsStatus (some code) stderr s h =
      subst IsStatus (ground (arith, h)) (classify_access-IsStatus code stderr)

  judge-IsStatus : (a : BwsAnswer) (s : String) → judge to_lower bws a ≡ ok s → IsStatus s
  judge-IsStatus a s h = elim (Bool-cases a.stderr_exceeded) [
    | inl over ↦ ground (arith, h, over)
    | inr fits ↦ elim (Bool-cases a.timed_out) [
      | inl late ↦ ground (arith, h, fits, late)
      | inr intime ↦ classify_exit-IsStatus a.exit a.stderr s (ground (arith, h, fits, intime))
    ]
  ]

  probe_access-IsStatus :
      (cfg : Config) (token id s : String)
      → probe_access to_lower bws cfg token id ≡ ok s
      → IsStatus s
  unfolding probe_access
  probe_access-IsStatus cfg token id s h =
      judge-IsStatus (bws (bws_call cfg token (get_args id))) s h

  -- The alias and the identifier can be printed.
  abbrev pub IsNamed : Project → Type 0
  IsNamed p = IsIdentifier is_print p.alias × IsIdentifier is_print p.bws_project_id

  abbrev Accepted : List String → List Project → List ProjectResult → Type 0
  Accepted seen ps results =
      All (IsProject is_print) results
      × Validity.HasFreshAliases is_print seen results
      × (ps ≢ [] → results ≢ [])

  probe_all-valid :
      (cfg : Config) (token : String) (seen : List String) (ps : List Project)
      (results : List ProjectResult)
      → probe_all to_lower bws cfg token ps ≡ ok results
      → All IsNamed ps
      → HasFreshAliases seen ps
      → Accepted seen ps results
  unfolding probe_all
  probe_all-valid cfg token seen [] results h n f =
      subst (Accepted seen []) (ok_injective h) (tt, tt, λ m. absurd (m refl))
  probe_all-valid cfg token seen (p ∷ ps) results h n f =
      let (status, probed, h1) =
        >>=-eq-ok (probe_access to_lower bws cfg token p.bws_project_id) _ h in
      let (rest, others, last) = >>=-eq-ok (probe_all to_lower bws cfg token ps) _ h1 in
      let (valid, fresh, nonempty) =
        probe_all-valid cfg token (p.alias ∷ seen) ps rest others n.1 f.1 in
      subst (Accepted seen (p ∷ ps)) (ok_injective last) (
        (
          record {
            alias = n.0.0;
            bws_project_id = n.0.1;
            status = probe_access-IsStatus cfg token p.bws_project_id status probed;
          },
          valid,
        ),
        (f.0, fresh),
        λ m e. cc,
      )

  find_alias-valid :
      (alias : String) (seen : List String) (ps chosen : List Project)
      → find_alias alias ps ≡ ok chosen
      → All IsNamed ps
      → All IsNamed chosen × HasFreshAliases [] chosen × (chosen ≢ [])
  unfolding find_alias
  find_alias-valid alias seen [] chosen h n = cc
  find_alias-valid alias seen (p ∷ ps) chosen h n = elim (Bool-cases (p.alias == alias)) [
    | inl hit ↦
        subst (λ qs. All IsNamed qs × HasFreshAliases [] qs × (qs ≢ [])) (ground (arith, h, hit))
          ((n.0, tt), (tt, tt), one_project p)
    | inr miss ↦ find_alias-valid alias seen ps chosen (ground (arith, h, miss)) n.1
  ]

  select-valid :
      (ps : List Project) (alias : String) (chosen : List Project)
      → select_access_projects ps alias ≡ ok chosen
      → All IsNamed ps
      → HasFreshAliases [] ps
      → ps ≢ []
      → All IsNamed chosen × HasFreshAliases [] chosen × (chosen ≢ [])
  unfolding select_access_projects
  select-valid ps alias chosen h n f m = elim (Bool-cases (is_blank alias)) [
    | inl every ↦
        subst (λ qs. All IsNamed qs × HasFreshAliases [] qs × (qs ≢ [])) (ground (arith, h, every))
          (n, f, m)
    | inr one ↦ find_alias-valid alias [] ps chosen (ground (arith, h, one)) n
  ]

  check_policy-IsDiagnosis :
      (w : World) (alias : String) (found : Option Config) (r : AccessResult)
      → check_policy to_lower bws w alias found ≡ ok r
      → ((cfg : Config) → found ≡ some cfg → IsValid w.parse_url cfg × All IsNamed cfg.projects)
      → IsDiagnosis is_print r
  unfolding check_policy
  check_policy-IsDiagnosis w alias none r h k = cc
  check_policy-IsDiagnosis w alias (some cfg) r h k =
      let (valid, named) = k cfg refl in
      let (chosen, selected, h1) = >>=-eq-ok (select_access_projects cfg.projects alias) _ h in
      let (token, resolved, h2) =
        >>=-eq-ok
          (map_err (λ e. token_unavailable)
            (resolve_file (w.read_token [] cfg.token_source.file_path)))
          _ h1 in
      let (results, probed, last) = >>=-eq-ok (probe_all to_lower bws cfg token chosen) _ h2 in
      let (names, fresh, nonempty) =
        select-valid cfg.projects alias chosen selected named valid.fresh valid.some_project in
      let (projects, distinct, some_result) =
        probe_all-valid cfg token [] chosen results probed names fresh in
      subst (IsDiagnosis is_print) (result_injective last) (record {
        version = refl;
        some_project = some_result nonempty;
        projects = projects;
        fresh = distinct;
        outcome = aggregate-worst results;
      })

  -- The diagnosis that the worker yields, for all projects or for one alias, is one that the administrator's
  -- side accepts, where the aliases and the project identifiers of the policy can be printed: the policy's
  -- validity makes its aliases distinct, and gives at least one project.
  pub check_access-IsDiagnosis :
      (w : World) (alias : String) (cfg : Config) (r : AccessResult)
      → load_worker w.parse_url w.decode w.policy ≡ ok cfg
      → All IsNamed cfg.projects
      → check_access to_lower bws w alias ≡ ok r
      → IsDiagnosis is_print r
  unfolding check_access
  check_access-IsDiagnosis w alias cfg r loaded named h =
      check_policy-IsDiagnosis w alias _ r h (λ c e.
        let trusted = trusted_policy-IsTrustedPolicy w _ c refl e in
        (
          trusted.valid,
          subst (λ x. All IsNamed x.projects) (config_injective (sym loaded ∙ trusted.loaded))
              named,
        ))
