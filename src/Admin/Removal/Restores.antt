-- ===== src/Admin/Removal/Restores.antt =====
-- A removed project is restored to the policy as it was, byte for byte.
use secrets_broker.Base.{
  ◌≤◌, String, ◌≡◌, refl, sym, ap, ◌∙◌, true, false, not, inl, inr, Option, none, some, List, ◌==◌,
  eq_iff, eq_refl, ok, reject, map_err, ◌>>◌, reject->>-eq-ok, not-eq_false,
}
use mathlib.Core.Path.{subst}
use secrets_broker.Go.{is_blank, byte_length}
use secrets_broker.Config.{Config}
use secrets_broker.Config.Validate.{Url}
use secrets_broker.Config.Worker.{Decoder, parse}
use secrets_broker.Securefile.{Node}
use secrets_broker.Admin.Errors.{confirmation_required, confirmation_mismatch, recovery_refused}
use secrets_broker.Admin.Files.{
  System, Editor, Disk, Snapshot, read_policy, write_atomic, max_policy_bytes,
}
use secrets_broker.Admin.Files.Atomic.{IsReplacement, write_atomic-Outcome}
use secrets_broker.Admin.Files.Reading.{
  read-replaced, read_policy-loaded, loaded-ok, read_policy-disk,
}
use secrets_broker.Admin.Files.Faultless.{IsFaultless, write_atomic-faultless}
use secrets_broker.Admin.ArtifactFiles.{
  RecoveryArtifact, RecoveryArtifactInput, validate_recovery_id,
}
use secrets_broker.Admin.Removal.Removed.{
  written-ok, plan_removal-eq-ok, check_restore-plan_removal, Removed, remove_confirmed-Removed,
}
use secrets_broker.Admin.Removal.{
  RecoveryArtifacts, Returned, without_project, written, plan_removal, check_restore,
  restore_checked, restore_passed, restore_matched, restore_confirmed, restore_read, remove_project,
  restore_project,
}

module _ {R : Type 0} where
  -- What the client relies on: a published artifact is read back.
  abbrev pub ReadsBack : (String → String) → RecoveryArtifacts R → Type 0
  ReadsBack digest recovery =
      (input : RecoveryArtifactInput) (r : R)
      → (recovery.publish_artifact input r).1 ≡ ok tt
      → (a : RecoveryArtifact) × (recovery.read_one input.recovery_id
            (recovery.publish_artifact input r).0
          ≡ ok a)
        × (a.project ≡ input.project)
        × (a.policy ≡ input.before)
        × (a.after_sha256 ≡ digest input.after)

module _ (json_text : String → String) (json_argv : List String → String)
    (parse_url : String → Option Url) (decode : Decoder) (digest : String → String) (sys : System)
    (e : Editor) where
  module _ {R : Type 0} (recovery : RecoveryArtifacts R) where
    restore_project-eq :
        (alias id : String) (d : Disk) (r : R) (a : RecoveryArtifact) (s : Snapshot)
        → is_blank alias ≡ false
        → recovery.read_one id r ≡ ok a
        → a.project ≡ alias
        → (read_policy sys parse_url decode digest e d).1 ≡ ok s
        → check_restore json_text json_argv parse_url decode digest sys e a s ≡ ok tt
        → restore_project json_text json_argv parse_url decode digest sys e
            (some recovery)
            id
            alias
            d
            r
          ≡ written id r (
              write_atomic sys e a.policy s.metadata
                (read_policy sys parse_url decode digest e d).0)
    unfolding restore_project restore_confirmed restore_read restore_matched restore_checked
        restore_passed
    restore_project-eq alias id d r a s named found project seen passes =
        let matched : (alias == a.project) ≡ true =
          ap (λ name. alias == name) project ∙ eq_refl alias in
        rw (named, found, matched, seen, passes) refl

    written-Replaced :
        (id : String) (r : R) (text : String) (s : Snapshot) (d : Disk)
        → d.temp ≡ none
        → (write_atomic sys e text s.metadata d).1 ≡ ok tt
        → ((written id r (write_atomic sys e text s.metadata d)).status ≡ ok tt)
          × ((written id r (write_atomic sys e text s.metadata d)).result.changed ≡ true)
          × ((n : Node) × ((written id r (write_atomic sys e text s.metadata d)).disk.policy
                ≡ some n)
              × (n.content ≡ text))
    written-Replaced id r text s d n h =
        let (status, changed, disk) = written-ok id r (write_atomic sys e text s.metadata d) h in
        elim (write_atomic-Outcome sys e text s.metadata d n) [
          | inl k ↦ let (e', f) = k.failed in cc
          | inr x ↦ (
            status,
            changed,
            (x.written, ap (λ y. y.policy) disk ∙ x.policy, x.replacement.content),
          )
        ]

    restore_project-Removed :
        (alias id : String) (d : Disk) (r : R) (out : Returned R)
        → IsFaultless sys
        → ReadsBack digest recovery
        → is_blank e.expected_revision ≡ true
        → is_blank alias ≡ false
        → (x : Removed json_text json_argv parse_url decode digest sys e recovery alias id d r out)
        → (let back =
              restore_project json_text json_argv parse_url decode digest sys e
                (some recovery)
                id
                alias
                out.disk
                out.artifacts in
            (back.status ≡ ok tt)
            × (back.result.changed ≡ true)
            × ((n : Node) × (back.disk.policy ≡ some n) × (n.content ≡ x.read.text)))
    restore_project-Removed alias id d r out faultless law blank named x =
        let y = x.replaced in
        let node = y.written in
        let content : x.text ≡ node.content = sym y.replacement.content in
        let (a, found, project, policy, sha) = law _ r x.published in
        let (there, here, cut, loads, worker) =
          plan_removal-eq-ok json_text json_argv parse_url decode digest sys e alias x.read x.text
            x.planned in
        let after : Config = record x.read.config {
          projects = without_project x.read.config.projects there.0;
        } in
        let loads' : parse parse_url decode node.content ≡ ok after =
          ap (parse parse_url decode) (sym content) ∙ loads in
        let (m, read, meta, opens) =
          read-replaced sys parse_url decode digest e faultless.quiet d out.disk x.read node
            x.was_read y.policy
            (subst (λ t. IsReplacement t x.read.metadata node) content y.replacement)
            (subst (λ t. byte_length t ≤ max_policy_bytes) content y.small) in
        let s : Snapshot = record { text = node.content; config = after; metadata = m } in
        let (loaded, trusted, small) =
          read_policy-loaded sys parse_url decode digest e d x.read x.was_read in
        let passes =
          check_restore-plan_removal json_text json_argv parse_url decode digest sys e alias x.read
            s a (loaded, trusted)
            (subst
              (λ t.
                plan_removal json_text json_argv parse_url decode digest sys e alias x.read ≡ ok t)
              content x.planned)
            loads' project policy (sha ∙ ap digest content) in
        let (left, none_left) =
          read_policy-disk sys parse_url decode digest e faultless.quiet out.disk in
        let wrote =
          write_atomic-faultless sys e faultless a.policy
            (read_policy sys parse_url decode digest e out.disk).0 node m
            (subst (λ t. byte_length t ≤ max_policy_bytes) (sym policy) small) (left ∙ y.policy)
            meta opens in
        let same =
          restore_project-eq alias id out.disk out.artifacts a s named
            (ap (recovery.read_one id) x.artifacts ∙ found) project
            (read
              ∙ loaded-ok sys parse_url decode digest e node.content after m blank loads' worker)
            passes in
        let (status, changed, (final, final_policy, final_content)) =
          written-Replaced id out.artifacts a.policy s
            (read_policy sys parse_url decode digest e out.disk).0 (none_left ∙ y.no_temp) wrote in
        (
          ap (λ b. b.status) same ∙ status,
          ap (λ b. b.result.changed) same ∙ changed,
          (final, ap (λ b. b.disk.policy) same ∙ final_policy, final_content ∙ policy),
        )

    -- `RestoreProject` undoes `RemoveProject`: on a machine where no call fails and nobody else changes
    -- the policy file, a removal that succeeds is followed by a restoration under the same identifier
    -- and alias that succeeds, reports a change, and leaves a policy file with exactly the text that the
    -- removal had read. The store reads back what it published, the editor expects no revision, and no
    -- temporary file of an earlier write is there.
    pub restore_project-remove_project :
        (alias confirmation id : String) (d : Disk) (r : R)
        → IsFaultless sys
        → ReadsBack digest recovery
        → is_blank e.expected_revision ≡ true
        → d.temp ≡ none
        → (remove_project json_text json_argv parse_url decode digest sys e
            (some recovery)
            alias
            confirmation
            id
            d
            r).status
          ≡ ok tt
        → (before : Snapshot) × ((read_policy sys parse_url decode digest e d).1 ≡ ok before)
          × (let out =
                remove_project json_text json_argv parse_url decode digest sys e
                  (some recovery)
                  alias
                  confirmation
                  id
                  d
                  r in
              let back =
                restore_project json_text json_argv parse_url decode digest sys e
                  (some recovery)
                  id
                  alias
                  out.disk
                  out.artifacts in
              (back.status ≡ ok tt)
              × (back.result.changed ≡ true)
              × ((n : Node) × (back.disk.policy ≡ some n) × (n.content ≡ before.text)))
    unfolding remove_project
    restore_project-remove_project alias confirmation id d r faultless law blank n h =
        let check =
          reject (is_blank confirmation) confirmation_required
          >> (reject (not (confirmation == alias)) confirmation_mismatch
              >> map_err recovery_refused (validate_recovery_id id)) in
        let (confirmed, x) =
          remove_confirmed-Removed json_text json_argv parse_url decode digest sys e recovery check
            alias id d r n h in
        let (some_text, c1) =
          reject->>-eq-ok (is_blank confirmation) confirmation_required _ confirmed in
        let (same, _) = reject->>-eq-ok (not (confirmation == alias)) confirmation_mismatch _ c1 in
        let e' = (eq_iff confirmation alias).0 (not-eq_false _ same) in
        (
          x.read,
          x.was_read,
          restore_project-Removed alias id d r _ faultless law blank
              (ap is_blank (sym e') ∙ some_text) x,
        )
