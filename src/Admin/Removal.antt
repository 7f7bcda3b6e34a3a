-- ===== src/Admin/Removal.antt =====
-- internal/admin/policy.go: `RemoveProject`, `ListRecoveries` and `RestoreProject`, over an interface to
-- the recovery artifacts, whose state is of the type `R`.
pub mod Removed
pub mod Restores
pub mod Store
mod Examples
use secrets_broker.Base.{
  ℕ, zero, suc, String, Bool, true, false, not, Option, none, some, List, [], ◌∷◌, length, eqb,
  ◌==◌, Result, Check, ok, err, reject, map_err, ◌>>=◌, ◌>>◌,
}
use secrets_broker.Go.{is_blank}
use secrets_broker.Config.{Project}
use secrets_broker.Config.Validate.{Url}
use secrets_broker.Config.Worker.{Decoder, parse, validate_worker}
use secrets_broker.Config.Equality.{deep_equal}
use secrets_broker.Admin.Layout.Edits.{remove_project_span}
use secrets_broker.Admin.Errors.{
  EditError, RecoveryError, recovery_not_configured, confirmation_required, confirmation_mismatch,
  recovery_refused, last_project, layout_refused, removal_outdated, stored_not_loaded,
  stored_not_worker, artifact_without_project, artifact_not_exact, stored_layout_refused,
  artifact_not_reproducing,
}
use secrets_broker.Admin.Files.{System, Editor, Disk, Snapshot, read_policy, write_atomic}
use secrets_broker.Admin.Editor.{find_indexed, check_updated}
use secrets_broker.Admin.ArtifactFiles.{
  RecoveryArtifact, RecoveryArtifactInput, RecoverySummary, validate_recovery_id,
}

pub record RecoveryResult : Type 0 where
  pub changed : Bool
  pub recovery_id : String

abbrev pub no_result : RecoveryResult
no_result = record { changed = false; recovery_id = "" }

-- The interface `RecoveryArtifacts`.
pub record RecoveryArtifacts (R : Type 0) : Type 0 where
  pub publish_artifact : RecoveryArtifactInput → R → R × Check RecoveryError
  pub list_all : R → Result RecoveryError (List RecoverySummary)
  pub read_one : String → R → Result RecoveryError RecoveryArtifact

-- What an operation leaves, and the two values that it returns.
pub record Returned (R : Type 0) : Type 0 where
  pub disk : Disk
  pub artifacts : R
  pub result : RecoveryResult
  pub status : Check EditError

-- `append(projects[:index], projects[index+1:]...)`.
unfoldable pub without_project : List Project → ℕ → List Project
without_project [] index = []
without_project (p ∷ rest) zero = rest
without_project (p ∷ rest) (suc index) = p ∷ without_project rest index

module _ {R : Type 0} where
  fail : Disk → R → EditError → Returned R
  fail d r e' = record { disk = d; artifacts = r; result = no_result; status = err e' }

  -- After the artifact is published or read, the result names it whatever follows.
  pub written : String → R → Disk × Check EditError → Returned R
  written id r (d, err e') = record {
    disk = d;
    artifacts = r;
    result = record { changed = false; recovery_id = id };
    status = err e';
  }
  written id r (d, ok _) = record {
    disk = d;
    artifacts = r;
    result = record { changed = true; recovery_id = id };
    status = ok tt;
  }

module _ (json_text : String → String) (json_argv : List String → String)
    (parse_url : String → Option Url) (decode : Decoder) (digest : String → String) (sys : System)
    (e : Editor) where
  -- The text without the project.
  pub plan_removal : String → Snapshot → Result EditError String
  unfolding find_indexed remove_project_span without_project check_updated
  plan_removal alias s = do
    found ← find_indexed s.config alias
    reject (eqb (length s.config.projects) 1) last_project
    text ← map_err layout_refused (remove_project_span s.text (length s.config.projects) found.0)
    check_updated json_text json_argv parse_url decode
        (record s.config { projects = without_project s.config.projects found.0 }) text
    ok text

  -- The artifact against the policy that was read.
  pub check_restore : RecoveryArtifact → Snapshot → Check EditError
  unfolding find_indexed remove_project_span without_project parse validate_worker deep_equal
  check_restore a s = do
    reject (not (digest s.text == a.after_sha256)) removal_outdated
    stored ← map_err stored_not_loaded (parse parse_url decode a.policy)
    map_err stored_not_worker (validate_worker stored)
    found ← map_err (λ e'. artifact_without_project) (find_indexed stored a.project)
    reject
        (not (
          deep_equal (record stored { projects = without_project stored.projects found.0 })
            s.config))
        artifact_not_exact
    removed ←
        map_err stored_layout_refused
          (remove_project_span a.policy (length stored.projects) found.0)
    reject (not (removed == s.text)) artifact_not_reproducing

  module _ {R : Type 0} (recovery : RecoveryArtifacts R) where
    pub remove_published : String → Snapshot → String → Disk → R × Check RecoveryError → Returned R
    unfolding fail written write_atomic
    remove_published id s text d (r, err e') = fail d r (recovery_refused e')
    remove_published id s text d (r, ok _) = written id r (write_atomic sys e text s.metadata d)

    pub remove_planned :
        String → String → Snapshot → Result EditError String → Disk → R → Returned R
    unfolding remove_published fail
    remove_planned alias id s (err e') d r = fail d r e'
    remove_planned alias id s (ok text) d r = remove_published id s text d (
        recovery.publish_artifact
          (record { recovery_id = id; project = alias; before = s.text; after = text }) r)

    pub remove_seen : String → String → Result EditError Snapshot → Disk → R → Returned R
    unfolding remove_planned plan_removal fail
    remove_seen alias id (err e') d r = fail d r e'
    remove_seen alias id (ok s) d r = remove_planned alias id s (plan_removal alias s) d r

    pub remove_confirmed : Check EditError → String → String → Disk → R → Returned R
    unfolding remove_seen read_policy fail
    remove_confirmed (err e') alias id d r = fail d r e'
    remove_confirmed (ok _) alias id d r =
        let (d', seen) = read_policy sys parse_url decode digest e d in
        remove_seen alias id seen d' r

    restore_passed : RecoveryArtifact → String → R → Snapshot → Check EditError → Disk → Returned R
    unfolding written write_atomic
    restore_passed a id r s (err e') d = written id r (d, err e')
    restore_passed a id r s (ok _) d = written id r (write_atomic sys e a.policy s.metadata d)

    restore_checked : RecoveryArtifact → String → R → Result EditError Snapshot → Disk → Returned R
    unfolding restore_passed check_restore written
    restore_checked a id r (err e') d = written id r (d, err e')
    restore_checked a id r (ok s) d = restore_passed a id r s (check_restore a s) d

    restore_matched : Bool → RecoveryArtifact → String → Disk → R → Returned R
    unfolding restore_checked read_policy written
    restore_matched false a id d r = written id r (d, err confirmation_mismatch)
    restore_matched true a id d r =
        let (d', seen) = read_policy sys parse_url decode digest e d in
        restore_checked a id r seen d'

    restore_read : String → String → Result RecoveryError RecoveryArtifact → Disk → R → Returned R
    unfolding restore_matched fail
    restore_read id confirmation (err e') d r = fail d r (recovery_refused e')
    restore_read id confirmation (ok a) d r = restore_matched (confirmation == a.project) a id d r

    restore_confirmed : Bool → String → String → Disk → R → Returned R
    unfolding restore_read fail
    restore_confirmed true id confirmation d r = fail d r confirmation_required
    restore_confirmed false id confirmation d r =
        restore_read id confirmation (recovery.read_one id r) d r

  module _ {R : Type 0} where
    -- `recovery` is `none` for an editor without the recovery of projects.
    unfoldable pub remove_project :
        Option (RecoveryArtifacts R) → String → String → String → Disk → R → Returned R
    unfolding remove_confirmed fail validate_recovery_id
    remove_project none alias confirmation id d r = fail d r recovery_not_configured
    remove_project (some recovery) alias confirmation id d r =
        remove_confirmed recovery
          (do
            reject (is_blank confirmation) confirmation_required
            reject (not (confirmation == alias)) confirmation_mismatch
            map_err recovery_refused (validate_recovery_id id))
          alias id d r

    unfoldable pub list_recoveries :
        Option (RecoveryArtifacts R) → R → Result EditError (List RecoverySummary)
    list_recoveries none r = err recovery_not_configured
    list_recoveries (some recovery) r = map_err recovery_refused (recovery.list_all r)

    unfoldable pub restore_project :
        Option (RecoveryArtifacts R) → String → String → Disk → R → Returned R
    unfolding restore_confirmed fail
    restore_project none id confirmation d r = fail d r recovery_not_configured
    restore_project (some recovery) id confirmation d r =
        restore_confirmed recovery (is_blank confirmation) id confirmation d r
