-- ===== src/Admin/Access/Worker.antt =====
-- The administrator's access check, with the worker of cmd/secrets-broker-worker as the process it starts.
use secrets_broker.Base.{
  ℕ, ◌≤◌, String, ◌≡◌, refl, sym, ap, ◌∙◌, Option, some, Bool, true, false, Bool-cases, inl, inr,
  List, All, ltb, ◌==◌, Result, ok, err, map_err, arith, eq_iff,
}
use secrets_broker.Go.{byte_length}
use secrets_broker.Config.{Config}
use secrets_broker.Config.Worker.{load_worker}
use secrets_broker.Accessdiag.{AccessResult}
use secrets_broker.Accessdiag.Validity.{IsDiagnosis, validate-IsDiagnosis_iff}
use secrets_broker.Projectlist.{ProjectList, Item}
use secrets_broker.Runner.{Call}
use secrets_broker.Worker.Server.{World}
use secrets_broker.Worker.Access.{AccessError, BwsAnswer}
use secrets_broker.Worker.Access as Access
use secrets_broker.Worker.Access.Diagnosis.{IsNamed, check_access-IsDiagnosis}
use secrets_broker.Worker.Command.{Output, outcome_code, show_access, run}
use secrets_broker.Admin.Access.{
  Ran, diagnostic_failed, access_output_limit, worker_args, check_args, is_clean, exit_agrees,
  read_diagnosis, check_access,
}

-- What the runner's bounded buffers hold of the output of a process.
abbrev pub ran : Output → Ran
ran o = record {
  exit = some o.code;
  stdout = o.out;
  stdout_exceeded = ltb access_output_limit (byte_length o.out);
  stderr = o.err_out;
  stderr_exceeded = ltb access_output_limit (byte_length o.err_out);
}

ltb-false : (a b : ℕ) → b ≤ a → ltb a b ≡ false
ltb-false a b h = ground arith

outcome_code-fits : (outcome : String) → ltb 1 (outcome_code outcome) ≡ false
unfolding outcome_code
outcome_code-fits outcome = ground arith

outcome_code-agrees : (outcome : String) → exit_agrees (outcome_code outcome) outcome ≡ true
unfolding outcome_code exit_agrees
outcome_code-agrees outcome = ground arith

module _ (encode : AccessResult → String) (decode : String → Option (AccessResult × Bool))
    (is_print : ℕ → Bool) (runner : List String → Ran) where
  read_diagnosis-show_access :
      (found : Result AccessError AccessResult)
      → ((r : AccessResult)
          → found ≡ ok r
          → IsDiagnosis is_print r
            × (decode (encode r) ≡ some (r, true))
            × (byte_length (encode r) ≤ access_output_limit))
      → read_diagnosis is_print runner decode (ran (show_access encode true found))
        ≡ map_err (λ e. diagnostic_failed) found
  unfolding read_diagnosis show_access is_clean byte_length
  read_diagnosis-show_access (err e) good = refl
  read_diagnosis-show_access (ok r) good =
      let (valid, reads, small) = good r refl in
      rw
        (
          ltb-false access_output_limit (byte_length (encode r)) small,
          outcome_code-fits r.outcome,
          reads,
          (validate-IsDiagnosis_iff is_print r).1 valid,
          outcome_code-agrees r.outcome,
        )
        refl

module _ (to_lower : String → String) (bws : Call → BwsAnswer)
    (decode_list : String → Option (List Item)) (encode_list : ProjectList → String)
    (encode : AccessResult → String) (decode : String → Option (AccessResult × Bool))
    (served checked : Output) (is_print : ℕ → Bool) (runner : List String → Ran) where
  run-check_args :
      (w : World) (alias : String)
      → run to_lower bws decode_list encode_list encode true served checked w (check_args alias)
        ≡ show_access encode true (Access.check_access to_lower bws w alias)
  unfolding run
  run-check_args w alias = elim (Bool-cases (alias == "")) [
    | inl blank ↦ rw blank (
        ap (λ a. show_access encode true (Access.check_access to_lower bws w a))
          (sym ((eq_iff alias "").0 blank)))
    | inr named ↦ rw named refl
  ]

  -- The administrator's access check of all projects or of one alias yields exactly the diagnosis that the
  -- worker makes, and fails exactly where the worker's check fails: where `runuser` runs the worker, the
  -- worker's output fits the bounded buffer, the JSON decoder reads back what the encoder makes of the
  -- diagnosis, and the policy loads with aliases and project identifiers that can be printed.
  pub check_access-check_access :
      (w : World) (alias : String) (cfg : Config)
      → load_worker w.parse_url w.decode w.policy ≡ ok cfg
      → All (IsNamed to_lower bws is_print) cfg.projects
      → ((r : AccessResult)
          → Access.check_access to_lower bws w alias ≡ ok r
          → (decode (encode r) ≡ some (r, true)) × (byte_length (encode r) ≤ access_output_limit))
      → ((args : List String)
          → runner (worker_args args)
            ≡ ran (run to_lower bws decode_list encode_list encode true served checked w args))
      → check_access is_print runner decode alias
        ≡ map_err (λ e. diagnostic_failed) (Access.check_access to_lower bws w alias)
  unfolding check_access
  check_access-check_access w alias cfg loaded named reads runs =
      ap (read_diagnosis is_print runner decode)
        (runs (check_args alias) ∙ ap ran (run-check_args w alias))
      ∙ read_diagnosis-show_access encode decode is_print runner
          (Access.check_access to_lower bws w alias)
          (λ r found. (
            check_access-IsDiagnosis to_lower bws is_print w alias cfg r loaded named found,
            (reads r found).0,
            (reads r found).1,
          ))
