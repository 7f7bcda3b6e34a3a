-- ===== src/Admin/Audited.antt =====
-- internal/admin/audit.go: `AuditedEditor`, which writes a start record before each mutation and a finish
-- record after it. The logger, the editor and the generator of identifiers are the record `AuditEnv`,
-- whose answers may depend on all calls made before; a `Trace` has the calls, newest first.
pub mod Bracketed
mod Examples
use secrets_broker.Base.{
  ℕ, String, Bool, true, false, Option, none, some, List, [], ◌∷◌, ◌++◌, Check, ok, err,
  if◌then◌else◌,
}
use secrets_broker.Admin.Errors.{EditError}
use secrets_broker.Admin.Editor.{mode_confirm, ProjectMetadataUpdate}
use secrets_broker.Admin.Editor.Spec.{
  Edit, create_project, update_project_metadata, set_approval, add_allowlist, remove_allowlist,
}
use secrets_broker.Admin.Removal.{RecoveryResult, no_result}

pub record MutationStart : Type 0 where
  pub actor_uid : ℕ
  pub actor_login : String
  pub project : String
  pub operation : String
  pub approval_mode : String
  pub argv : List String
  pub recovery_id : String
  pub fields : List String

pub record MutationFinish : Type 0 where
  pub outcome : String
  pub actor_login : String

abbrev pub mutation_changed : String
mutation_changed = "changed"

abbrev pub mutation_no_change : String
mutation_no_change = "no_change"

abbrev pub mutation_failed : String
mutation_failed = "failed"

-- The mutations that reach the editor; a removal carries the identifier that was drawn for it.
pub data Mutation : Type 0 where
  edit : Edit → Mutation
  remove : String → String → String → Mutation
  restore : String → String → Mutation

-- What the editor returns; for the operations that return a flag, the identifier is empty.
pub record Edited : Type 0 where
  pub result : RecoveryResult
  pub status : Check EditError

pub data AdminCall : Type 0 where
  started : MutationStart → Option String → AdminCall
  edited : Mutation → Edited → AdminCall
  finished : String → MutationFinish → Bool → AdminCall

abbrev pub AdminTrace : Type 0
AdminTrace = List AdminCall

pub record AuditEnv : Type 0 where
  pub start : AdminTrace → MutationStart → Option String
  pub apply : AdminTrace → Mutation → Edited
  pub finish : AdminTrace → String → MutationFinish → Bool
  pub new_recovery_id : AdminTrace → Option String

-- `errors.Join` of the editor's error and of the logger's.
pub record Mutated : Type 0 where
  pub result : RecoveryResult
  pub generated : Bool
  pub started : Bool
  pub status : Check EditError
  pub finished : Bool

abbrev blank_start : ℕ → String → String → MutationStart
blank_start uid project operation = record {
  actor_uid = uid;
  actor_login = "";
  project = project;
  operation = operation;
  approval_mode = "";
  argv = [];
  recovery_id = "";
  fields = [];
}

unfoldable pub field_name : Option String → String → List String
field_name none name = []
field_name (some value) name = name ∷ []

unfoldable pub fields_of : ProjectMetadataUpdate → List String
unfolding field_name
fields_of u =
    field_name u.bws_project_id "bws_project_id"
    ++ (field_name u.token_entry "token_entry" ++ field_name u.working_dir "working_dir")

-- The start record of each method.
unfoldable pub start_of : ℕ → Mutation → MutationStart
unfolding fields_of
start_of uid (edit (create_project input)) = record (blank_start uid input.alias "create_project") {
  approval_mode = mode_confirm;
}
start_of uid (edit (update_project_metadata alias u)) =
    record (blank_start uid alias "update_project_metadata") { fields = fields_of u }
start_of uid (edit (set_approval alias mode)) = record (blank_start uid alias "set_approval") {
  approval_mode = mode;
}
start_of uid (edit (add_allowlist alias argv)) = record (blank_start uid alias "add_allowlist") {
  argv = argv;
}
start_of uid (edit (remove_allowlist alias argv)) =
    record (blank_start uid alias "remove_allowlist") { argv = argv }
start_of uid (remove alias confirmation id) = record (blank_start uid alias "remove_project") {
  recovery_id = id;
}
start_of uid (restore id confirmation) = record (blank_start uid confirmation "restore_project") {
  recovery_id = id;
}

unfoldable pub outcome_of : Edited → String
outcome_of e = elim e.status [
  | err e' ↦ mutation_failed
  | ok _ ↦ if e.result.changed then mutation_changed else mutation_no_change
]

-- The methods of the audited editor that change something.
pub data Request : Type 0 where
  edit_request : Edit → Request
  remove_request : String → String → Request
  restore_request : String → String → Request

module _ (env : AuditEnv) (actor_uid : ℕ) where
  finish_mutation : String → Edited → AdminTrace → Mutated × AdminTrace
  unfolding outcome_of
  finish_mutation id e t =
      let f : MutationFinish = record { outcome = outcome_of e; actor_login = "" } in
      let written = env.finish t id f in
      (
        record {
          result = e.result;
          generated = true;
          started = true;
          status = e.status;
          finished = written;
        },
        finished id f written ∷ t,
      )

  apply_mutation : Mutation → Option String → AdminTrace → Mutated × AdminTrace
  unfolding finish_mutation start_of
  apply_mutation m none t = (
    record {
      result = no_result;
      generated = true;
      started = false;
      status = ok tt;
      finished = false;
    },
    started (start_of actor_uid m) none ∷ t,
  )
  apply_mutation m (some id) t =
      let t' = started (start_of actor_uid m) (some id) ∷ t in
      let e = env.apply t' m in finish_mutation id e (edited m e ∷ t')

  -- `mutate` and `mutateRecovery`.
  unfoldable pub mutate : Mutation → AdminTrace → Mutated × AdminTrace
  unfolding apply_mutation start_of
  mutate m t = apply_mutation m (env.start t (start_of actor_uid m)) t

  remove_drawn : String → String → Option String → AdminTrace → Mutated × AdminTrace
  unfolding mutate
  remove_drawn alias confirmation none t = (
    record {
      result = no_result;
      generated = false;
      started = false;
      status = ok tt;
      finished = false;
    },
    t,
  )
  remove_drawn alias confirmation (some id) t = mutate (remove alias confirmation id) t

  unfoldable pub serve_request : Request → AdminTrace → Mutated × AdminTrace
  unfolding mutate remove_drawn
  serve_request (edit_request e) t = mutate (edit e) t
  serve_request (remove_request alias confirmation) t =
      remove_drawn alias confirmation (env.new_recovery_id t) t
  serve_request (restore_request id confirmation) t = mutate (restore id confirmation) t

  unfoldable pub serve_requests : List Request → AdminTrace → AdminTrace
  unfolding serve_request
  serve_requests [] t = t
  serve_requests (r ∷ rest) t = serve_requests rest (serve_request r t).1
