-- ===== src/Admin/Removal/Removed.antt =====
-- What a removal that succeeds has done, and what its artifact passes.
use secrets_broker.Base.{
  ℕ, String, ◌≡◌, refl, sym, ap, ◌∙◌, true, inl, inr, Option, none, List, length, eqb, eq_refl,
  Result, Check, ok, err, map_err, >>=-eq-ok, >>-eq-ok, reject->>-eq-ok, map_err-eq-ok, ok_inj,
}
use mathlib.Core.Path.{subst}
use secrets_broker.Config.{Config, Project}
use secrets_broker.Config.Validate.{Url}
use secrets_broker.Config.Worker.{Decoder, parse, validate_worker}
use secrets_broker.Config.Equality.{deep_equal-eq_iff}
use secrets_broker.Admin.Layout.Edits.{remove_project_span}
use secrets_broker.Admin.Errors.{EditError, RecoveryError, last_project, layout_refused}
use secrets_broker.Admin.Files.{System, Editor, Disk, Snapshot, read_policy, write_atomic, pass}
use secrets_broker.Admin.Files.Atomic.{Replaced, write_atomic-Outcome}
use secrets_broker.Admin.Editor.{find_indexed, check_updated}
use secrets_broker.Admin.Editor.Planned.{check_updated-eq-ok}
use secrets_broker.Admin.ArtifactFiles.{RecoveryArtifact}
use secrets_broker.Admin.Removal.{
  RecoveryArtifacts, Returned, without_project, fail, written, plan_removal, check_restore,
  remove_published, remove_planned, remove_seen, remove_confirmed,
}

module _ {R : Type 0} where
  pub written-eq-ok :
      (id : String) (r : R) (out : Disk × Check EditError)
      → (written id r out).status ≡ ok tt
      → (out.1 ≡ ok tt) × ((written id r out).disk ≡ out.0) × ((written id r out).artifacts ≡ r)
  unfolding written
  written-eq-ok id r (d, err e') h = cc
  written-eq-ok id r (d, ok u) h = (refl, refl, refl)

  pub written-ok :
      (id : String) (r : R) (out : Disk × Check EditError)
      → out.1 ≡ ok tt
      → ((written id r out).status ≡ ok tt)
        × ((written id r out).result.changed ≡ true)
        × ((written id r out).disk ≡ out.0)
  unfolding written
  written-ok id r (d, err e') h = cc
  written-ok id r (d, ok u) h = (refl, refl, refl)

module _ (json_text : String → String) (json_argv : List String → String)
    (parse_url : String → Option Url) (decode : Decoder) (digest : String → String) (sys : System)
    (e : Editor) where
  pub plan_removal-eq-ok :
      (alias : String) (s : Snapshot) (text : String)
      → plan_removal json_text json_argv parse_url decode digest sys e alias s ≡ ok text
      → (found : ℕ × Project) × (find_indexed s.config alias ≡ ok found)
        × (remove_project_span s.text (length s.config.projects) found.0 ≡ ok text)
        × (parse parse_url decode text
            ≡ ok (record s.config { projects = without_project s.config.projects found.0 }))
        × (validate_worker
              (record s.config { projects = without_project s.config.projects found.0 })
            ≡ ok tt)
  unfolding plan_removal
  plan_removal-eq-ok alias s text h =
      let (found, here, h1) = >>=-eq-ok (find_indexed s.config alias) _ h in
      let (_, h2) = reject->>-eq-ok (eqb (length s.config.projects) 1) last_project _ h1 in
      let (t, cut, h3) =
        >>=-eq-ok
          (map_err layout_refused (remove_project_span s.text (length s.config.projects) found.0)) _
          h2 in
      let after : Config = record s.config {
        projects = without_project s.config.projects found.0;
      } in
      let (checked, same) =
        >>-eq-ok (check_updated json_text json_argv parse_url decode after t) _ h3 in
      let (loads, worker) =
        check_updated-eq-ok json_text json_argv parse_url decode after t checked in
      (
        found,
        here,
        map_err-eq-ok layout_refused _ cut ∙ ap ok (ok_inj same),
        ap (parse parse_url decode) (sym (ok_inj same)) ∙ loads,
        worker,
      )

  -- The artifact of a removal passes the checks of the restoration.
  pub check_restore-plan_removal :
      (alias : String) (s after : Snapshot) (a : RecoveryArtifact)
      → (parse parse_url decode s.text ≡ ok s.config) × (validate_worker s.config ≡ ok tt)
      → plan_removal json_text json_argv parse_url decode digest sys e alias s ≡ ok after.text
      → parse parse_url decode after.text ≡ ok after.config
      → a.project ≡ alias
      → a.policy ≡ s.text
      → a.after_sha256 ≡ digest after.text
      → check_restore json_text json_argv parse_url decode digest sys e a after ≡ ok tt
  unfolding check_restore
  check_restore-plan_removal alias s after a (loads, worker) h loads' project policy sha =
      let (found, here, cut, loads'', _) = plan_removal-eq-ok alias s after.text h in
      let same : record s.config { projects = without_project s.config.projects found.0 }
          ≡ after.config =
        ok_inj (sym loads'' ∙ loads') in
      rw
        (
          sha,
          eq_refl (digest after.text),
          policy,
          loads,
          worker,
          project,
          here,
          (deep_equal-eq_iff _ after.config).1 same,
          cut,
          eq_refl after.text,
        )
        refl

  module _ {R : Type 0} (recovery : RecoveryArtifacts R) where
    -- What a removal that succeeds has done.
    pub record Removed (alias id : String) (d : Disk) (r : R) (out : Returned R) : Type 0 where
      pub read : Snapshot
      pub was_read : (read_policy sys parse_url decode digest e d).1 ≡ ok read
      pub text : String
      pub planned :
          plan_removal json_text json_argv parse_url decode digest sys e alias read ≡ ok text
      pub published :
          (recovery.publish_artifact
            (record { recovery_id = id; project = alias; before = read.text; after = text })
            r).1
          ≡ ok tt
      pub artifacts :
          out.artifacts
          ≡ (recovery.publish_artifact
              (record { recovery_id = id; project = alias; before = read.text; after = text })
              r).0
      pub replaced :
          Replaced sys e text read.metadata (read_policy sys parse_url decode digest e d).0 out.disk

    pub remove_published-Replaced :
        (id : String) (s : Snapshot) (text : String) (d : Disk) (p : R × Check RecoveryError)
        → d.temp ≡ none
        → (remove_published json_text json_argv parse_url decode digest sys e recovery id s text d
            p).status
          ≡ ok tt
        → (p.1 ≡ ok tt)
          × ((remove_published json_text json_argv parse_url decode digest sys e recovery id s text
                d p).artifacts
              ≡ p.0)
          × Replaced sys e text s.metadata d
              (remove_published json_text json_argv parse_url decode digest sys e recovery id s text
                d p).disk
    unfolding remove_published fail
    remove_published-Replaced id s text d (r, err e') n h = cc
    remove_published-Replaced id s text d (r, ok u) n h =
        let (done, disk, same) = written-eq-ok id r (write_atomic sys e text s.metadata d) h in
        elim (write_atomic-Outcome sys e text s.metadata d n) [
          | inl k ↦ let (e', f) = k.failed in cc
          | inr x ↦ (refl, same, subst (Replaced sys e text s.metadata d) (sym disk) x)
        ]

    pub remove_planned-eq-ok :
        (alias id : String) (s : Snapshot) (plan : Result EditError String) (d : Disk) (r : R)
        → d.temp ≡ none
        → (remove_planned json_text json_argv parse_url decode digest sys e recovery alias id s plan
            d r).status
          ≡ ok tt
        → (text : String) × (plan ≡ ok text)
          × ((recovery.publish_artifact
                (record { recovery_id = id; project = alias; before = s.text; after = text })
                r).1
              ≡ ok tt)
          × ((remove_planned json_text json_argv parse_url decode digest sys e recovery alias id s
                plan d r).artifacts
              ≡ (recovery.publish_artifact
                  (record { recovery_id = id; project = alias; before = s.text; after = text })
                  r).0)
          × Replaced sys e text s.metadata d
              (remove_planned json_text json_argv parse_url decode digest sys e recovery alias id s
                plan d r).disk
    unfolding remove_planned fail
    remove_planned-eq-ok alias id s (err e') d r n h = cc
    remove_planned-eq-ok alias id s (ok text) d r n h =
        let (a, b, c) = remove_published-Replaced id s text d _ n h in (text, refl, a, b, c)

    pub remove_seen-Removed :
        (alias id : String) (before d : Disk) (r : R) (seen : Result EditError Snapshot)
        → (read_policy sys parse_url decode digest e before).1 ≡ seen
        → (read_policy sys parse_url decode digest e before).0 ≡ d
        → d.temp ≡ none
        → (remove_seen json_text json_argv parse_url decode digest sys e recovery alias id seen d
            r).status
          ≡ ok tt
        → Removed alias id before r (
            remove_seen json_text json_argv parse_url decode digest sys e recovery alias id seen d
              r)
    unfolding remove_seen fail
    remove_seen-Removed alias id before d r (err e') same left n h = cc
    remove_seen-Removed alias id before d r (ok s) same left n h =
        let (text, planned, published, artifacts, replaced) =
          remove_planned-eq-ok alias id s
            (plan_removal json_text json_argv parse_url decode digest sys e alias s) d r n h in
        record {
          read = s;
          was_read = same;
          text = text;
          planned = planned;
          published = published;
          artifacts = artifacts;
          replaced =
              subst
                (λ x.
                  Replaced sys e text s.metadata x
                    (remove_seen json_text json_argv parse_url decode digest sys e recovery alias id
                      (ok s) d r).disk)
                (sym left) replaced;
        }

    pub remove_confirmed-Removed :
        (check : Check EditError) (alias id : String) (d : Disk) (r : R)
        → d.temp ≡ none
        → (remove_confirmed json_text json_argv parse_url decode digest sys e recovery check alias
            id d r).status
          ≡ ok tt
        → (check ≡ ok tt)
          × Removed alias id d r (
              remove_confirmed json_text json_argv parse_url decode digest sys e recovery check
                alias id d r)
    unfolding remove_confirmed fail read_policy pass
    remove_confirmed-Removed (err e') alias id d r n h = cc
    remove_confirmed-Removed (ok u) alias id d r n h =
        (refl, remove_seen-Removed alias id d _ r _ refl refl n h)
