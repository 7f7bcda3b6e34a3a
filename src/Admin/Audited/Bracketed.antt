-- ===== src/Admin/Audited/Bracketed.antt =====
-- Every change of the policy stands between its start record and its finish record.
use secrets_broker.Base.{
  ℕ, String, Bool, true, false, Option, none, some, List, [], ◌∷◌, ◌++◌, Check, ok, err,
  if◌then◌else◌,
}
use secrets_broker.Admin.Errors.{EditError}
use secrets_broker.Admin.Editor.{ProjectInput, ProjectMetadataUpdate}
use secrets_broker.Admin.Editor.Spec.{
  create_project, update_project_metadata, set_approval, add_allowlist, remove_allowlist,
}
use secrets_broker.Admin.Removal.{RecoveryResult}
use secrets_broker.Admin.Audited.{
  MutationStart, field_name, fields_of, Mutation, edit, remove, restore, Edited, started, edited,
  finished, AdminTrace, AuditEnv, start_of, outcome_of, finish_mutation, apply_mutation, mutate,
  remove_drawn, serve_request, edit_request, remove_request, restore_request, Request,
  serve_requests,
}

-- A field's name is told when it is updated.
pub data NamesField (name : String) : Option String → List String → Type 0 where
  unchanged : NamesField name none []
  updated : (value : String) → NamesField name (some value) (name ∷ [])

-- The start record tells who changes what: the operation, the project, and what is to be set.
pub data TellsStart (uid : ℕ) : Mutation → MutationStart → Type 0 where
  tells_create :
      (input : ProjectInput)
      → TellsStart uid (edit (create_project input)) (record {
        actor_uid = uid;
        actor_login = "";
        project = input.alias;
        operation = "create_project";
        approval_mode = "confirm";
        argv = [];
        recovery_id = "";
        fields = [];
      })
  tells_metadata :
      (alias : String) (u : ProjectMetadataUpdate) (ids entries dirs : List String)
      → NamesField "bws_project_id" u.bws_project_id ids
      → NamesField "token_entry" u.token_entry entries
      → NamesField "working_dir" u.working_dir dirs
      → TellsStart uid (edit (update_project_metadata alias u)) (record {
        actor_uid = uid;
        actor_login = "";
        project = alias;
        operation = "update_project_metadata";
        approval_mode = "";
        argv = [];
        recovery_id = "";
        fields = ids ++ (entries ++ dirs);
      })
  tells_approval :
      (alias mode : String)
      → TellsStart uid (edit (set_approval alias mode)) (record {
        actor_uid = uid;
        actor_login = "";
        project = alias;
        operation = "set_approval";
        approval_mode = mode;
        argv = [];
        recovery_id = "";
        fields = [];
      })
  tells_add :
      (alias : String) (argv : List String)
      → TellsStart uid (edit (add_allowlist alias argv)) (record {
        actor_uid = uid;
        actor_login = "";
        project = alias;
        operation = "add_allowlist";
        approval_mode = "";
        argv = argv;
        recovery_id = "";
        fields = [];
      })
  tells_remove :
      (alias : String) (argv : List String)
      → TellsStart uid (edit (remove_allowlist alias argv)) (record {
        actor_uid = uid;
        actor_login = "";
        project = alias;
        operation = "remove_allowlist";
        approval_mode = "";
        argv = argv;
        recovery_id = "";
        fields = [];
      })
  tells_removal :
      (alias confirmation id : String)
      → TellsStart uid (remove alias confirmation id) (record {
        actor_uid = uid;
        actor_login = "";
        project = alias;
        operation = "remove_project";
        approval_mode = "";
        argv = [];
        recovery_id = id;
        fields = [];
      })
  tells_restore :
      (id confirmation : String)
      → TellsStart uid (restore id confirmation) (record {
        actor_uid = uid;
        actor_login = "";
        project = confirmation;
        operation = "restore_project";
        approval_mode = "";
        argv = [];
        recovery_id = id;
        fields = [];
      })

-- The finish record tells how the edit ended.
pub data TellsFinish : Edited → String → Type 0 where
  tells_failed :
      (r : RecoveryResult) (e : EditError)
      → TellsFinish (record { result = r; status = err e }) "failed"
  tells_changed :
      (id : String)
      → TellsFinish
          (record { result = record { changed = true; recovery_id = id }; status = ok tt })
          "changed"
  tells_no_change :
      (id : String)
      → TellsFinish
          (record { result = record { changed = false; recovery_id = id }; status = ok tt })
          "no_change"

-- A trace of complete mutations and of starts that the logger refused, newest first: an edit is preceded
-- by the start record of the same mutation, for which the logger has given an identifier, and followed
-- by the finish record under that identifier, with the outcome that the edit had.
pub data IsBracketed (uid : ℕ) : AdminTrace → Type 0 where
  no_calls : IsBracketed uid []
  refused :
      (m : Mutation) (s : MutationStart) (t : AdminTrace)
      → TellsStart uid m s
      → IsBracketed uid t
      → IsBracketed uid (started s none ∷ t)
  completed :
      (m : Mutation) (s : MutationStart) (e : Edited) (outcome id : String) (written : Bool)
      (t : AdminTrace)
      → TellsStart uid m s
      → TellsFinish e outcome
      → IsBracketed uid t
      → IsBracketed uid (
          finished id (record { outcome = outcome; actor_login = "" }) written
          ∷ edited m e
          ∷ started s (some id)
          ∷ t)

field_name-NamesField :
    (value : Option String) (name : String) → NamesField name value (field_name value name)
unfolding field_name
field_name-NamesField none name = unchanged
field_name-NamesField (some value) name = updated value

start_of-TellsStart : (uid : ℕ) (m : Mutation) → TellsStart uid m (start_of uid m)
unfolding start_of fields_of
start_of-TellsStart uid (edit (create_project input)) = tells_create input
start_of-TellsStart uid (edit (update_project_metadata alias u)) =
    tells_metadata alias u _ _ _ (field_name-NamesField u.bws_project_id "bws_project_id")
      (field_name-NamesField u.token_entry "token_entry")
      (field_name-NamesField u.working_dir "working_dir")
start_of-TellsStart uid (edit (set_approval alias mode)) = tells_approval alias mode
start_of-TellsStart uid (edit (add_allowlist alias argv)) = tells_add alias argv
start_of-TellsStart uid (edit (remove_allowlist alias argv)) = tells_remove alias argv
start_of-TellsStart uid (remove alias confirmation id) = tells_removal alias confirmation id
start_of-TellsStart uid (restore id confirmation) = tells_restore id confirmation

ended-TellsFinish :
    (r : RecoveryResult) (status : Check EditError)
    → TellsFinish
        (record { result = r; status = status })
        (outcome_of (record { result = r; status = status }))
unfolding outcome_of
ended-TellsFinish r (err e) = tells_failed r e
ended-TellsFinish r (ok u) = changed-TellsFinish r.changed
  where
    changed-TellsFinish :
        (changed : Bool)
        → TellsFinish
            (record {
              result = record { changed = changed; recovery_id = r.recovery_id };
              status = ok tt;
            })
            (if changed then "changed" else "no_change")
    changed-TellsFinish true = tells_changed r.recovery_id
    changed-TellsFinish false = tells_no_change r.recovery_id

outcome_of-TellsFinish : (e : Edited) → TellsFinish e (outcome_of e)
outcome_of-TellsFinish e = ended-TellsFinish e.result e.status

module _ (env : AuditEnv) (uid : ℕ) where
  apply_mutation-IsBracketed :
      (m : Mutation) (id : Option String) (t : AdminTrace)
      → IsBracketed uid t
      → IsBracketed uid (apply_mutation env uid m id t).1
  unfolding apply_mutation finish_mutation
  apply_mutation-IsBracketed m none t b = refused m _ t (start_of-TellsStart uid m) b
  apply_mutation-IsBracketed m (some id) t b =
      let t' = started (start_of uid m) (some id) ∷ t in
      let e = env.apply t' m in
      completed m _ e _ id
        (env.finish (edited m e ∷ t') id (record { outcome = outcome_of e; actor_login = "" })) t
        (start_of-TellsStart uid m) (outcome_of-TellsFinish e) b

  mutate-IsBracketed :
      (m : Mutation) (t : AdminTrace) → IsBracketed uid t → IsBracketed uid (mutate env uid m t).1
  unfolding mutate
  mutate-IsBracketed m t b = apply_mutation-IsBracketed m _ t b

  remove_drawn-IsBracketed :
      (alias confirmation : String) (id : Option String) (t : AdminTrace)
      → IsBracketed uid t
      → IsBracketed uid (remove_drawn env uid alias confirmation id t).1
  unfolding remove_drawn
  remove_drawn-IsBracketed alias confirmation none t b = b
  remove_drawn-IsBracketed alias confirmation (some id) t b =
      mutate-IsBracketed (remove alias confirmation id) t b

  serve_request-IsBracketed :
      (r : Request) (t : AdminTrace)
      → IsBracketed uid t
      → IsBracketed uid (serve_request env uid r t).1
  unfolding serve_request
  serve_request-IsBracketed (edit_request e) t b = mutate-IsBracketed (edit e) t b
  serve_request-IsBracketed (remove_request alias confirmation) t b =
      remove_drawn-IsBracketed alias confirmation _ t b
  serve_request-IsBracketed (restore_request id confirmation) t b =
      mutate-IsBracketed (restore id confirmation) t b

  -- Over any sequence of requests to the audited editor, whatever the logger, the editor and the generator
  -- of identifiers answer, the calls stay bracketed: no edit is made without its own start record that
  -- the logger has accepted directly before it, and each edit is followed directly by the finish record
  -- under the same identifier. The start record, also one that the logger refuses, tells the actor, the
  -- operation, the project, and the mode, argv, fields or recovery identifier that it is about; the
  -- finish record tells "failed", "changed" or "no_change", as the edit ended. The calls before the
  -- requests are bracketed.
  pub serve_requests-IsBracketed :
      (requests : List Request) (t : AdminTrace)
      → IsBracketed uid t
      → IsBracketed uid (serve_requests env uid requests t)
  unfolding serve_requests
  serve_requests-IsBracketed [] t b = b
  serve_requests-IsBracketed (r ∷ rest) t b =
      serve_requests-IsBracketed rest (serve_request env uid r t).1
        (serve_request-IsBracketed r t b)
