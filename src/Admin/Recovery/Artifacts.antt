-- ===== src/Admin/Recovery/Artifacts.antt =====
-- An artifact that was published is read back, and a failed publication leaves the directory as it was.
use secrets_broker.Base.{
  ◌≤◌, String, ◌≡◌, ◌≢◌, ◌⊎◌, refl, sym, ◌∙◌, Bool, true, false, Option, none, some, List, [], ◌∷◌,
  ◌==◌, eq_refl, Result, ok, err, arith, Bool-cases, Check-cases, inl, inr,
}
use secrets_broker.Go.{byte_length, is_blank}
use secrets_broker.Securefile.{
  Node, Stat, read, open_file, validate_node, validate_owner, is_owner, perm_077, overlaps,
}
use secrets_broker.Admin.Files.{same_perm}
use secrets_broker.Admin.Errors.{RecoveryError}
use secrets_broker.Admin.ArtifactFiles.{
  RecoveryArtifact, RecoveryArtifactInput, RecoveryDir, RecoveryStore, find_file, validate_identity,
  validate_recovery_file, validate_recovery_artifact, validate_digest, decoded, read_artifact,
  remove_temp, remove_final, sync_dir, link, create, max_recovery_artifact_bytes,
}
use secrets_broker.Admin.Recovery.{
  new_artifact, temp_node, fill_artifact, drop_temp, drop_final, linked, link_temp, with_temp_file,
  prepare_artifact, write_artifact, publish, remove_file,
}
use secrets_broker.Admin.Recovery.Publish.{publish-eq-ok}

find_file-added :
    (id name : String) (n : Node) (files : List (String × Node))
    → ((id == name) ≡ true → find_file name ((id, n) ∷ files) ≡ some n)
      × ((id == name) ≡ false → find_file name ((id, n) ∷ files) ≡ find_file name files)
unfolding find_file
find_file-added id name n files = (λ e. rw e refl, λ e. rw e refl)

module _ (encode : RecoveryArtifact → String)
    (decode_json : String → Option (RecoveryArtifact × Bool)) (digest : String → String)
    (s : RecoveryStore) where
  remove_file-absent :
      (name : String) (files : List (String × Node))
      → find_file name files ≡ none
      → remove_file encode decode_json digest s name files ≡ files
  unfolding find_file remove_file
  remove_file-absent name [] h = refl
  remove_file-absent name (f ∷ rest) h = ground (arith, remove_file-absent name rest)

  -- What `securefile.Read` needs of the owner, from what `validateExpectedIdentity` has checked.
  identity-owner :
      (o : Option Stat)
      → s.expected_owner ≡ s.euid
      → validate_identity encode decode_json digest s o ≡ ok tt
      → validate_owner s.euid o false ≡ ok tt
  unfolding validate_identity validate_owner is_owner
  identity-owner none e h = cc
  identity-owner (some st) e h = ground arith

  module _ (clean : (s.fails remove_temp ≡ false) × (s.fails remove_final ≡ false)) where
    linked-eq-err :
        (id : String) (d : RecoveryDir) (n : Node) (e : RecoveryError)
        → find_file id d.files ≡ none
        → (linked encode decode_json digest s id (record d { files = (id, n) ∷ d.files })).1 ≡ err e
        → (linked encode decode_json digest s id (record d { files = (id, n) ∷ d.files })).0
          ≡ record d { temp = none }
    unfolding linked drop_final drop_temp remove_file
    linked-eq-err id d n e free h = elim (Bool-cases (s.fails sync_dir)) [
      | inl f ↦ rw (clean.0, clean.1, f, eq_refl id, remove_file-absent id d.files free) refl
      | inr f ↦ let k : ok tt ≡ err e = rw (clean.0, f) at h in cc k
    ]

    link_temp-eq-err :
        (id : String) (n : Node) (d : RecoveryDir) (found : Option Node) (e : RecoveryError)
        → find_file id d.files ≡ found
        → (link_temp encode decode_json digest s id n found d).1 ≡ err e
        → (link_temp encode decode_json digest s id n found d).0 ≡ record d { temp = none }
    unfolding link_temp drop_temp
    link_temp-eq-err id n d (some old) e free h = rw (clean.0) refl
    link_temp-eq-err id n d none e free h = elim (Bool-cases (s.fails link)) [
      | inl f ↦ rw (f, clean.0) refl
      | inr f ↦ rw f (linked-eq-err id d n e free (rw f at h))
    ]

    with_temp_file-eq-err :
        (id : String) (filled : Result RecoveryError Node) (d : RecoveryDir) (e : RecoveryError)
        → (with_temp_file encode decode_json digest s id filled d).1 ≡ err e
        → (with_temp_file encode decode_json digest s id filled d).0 ≡ record d { temp = none }
    unfolding with_temp_file drop_temp
    with_temp_file-eq-err id (err e') d e h = rw (clean.0) refl
    with_temp_file-eq-err id (ok n) d e h =
        link_temp-eq-err id n (record d { temp = some n }) (find_file id d.files) e refl h

    write_artifact-eq-err :
        (id : String) (prepared : Result RecoveryError String) (d : RecoveryDir) (e : RecoveryError)
        → d.temp ≡ none
        → (write_artifact encode decode_json digest s id prepared d).1 ≡ err e
        → (write_artifact encode decode_json digest s id prepared d).0 ≡ d
    unfolding write_artifact
    write_artifact-eq-err id (err e') d e n h = refl
    write_artifact-eq-err id (ok text) d e n h = elim (Bool-cases (s.fails create)) [
      | inl f ↦ rw f refl
      | inr f ↦ rw f (
          with_temp_file-eq-err id (fill_artifact encode decode_json digest s text)
            (record d { temp = some (temp_node encode decode_json digest s "") }) e (rw f at h)
          ∙ λ i. record d { temp = sym n i })
    ]

  read-temp_node :
      (text : String)
      → s.expected_owner ≡ s.euid
      → s.readable ≡ true
      → validate_identity encode decode_json digest s s.temp_stat ≡ ok tt
      → byte_length text ≤ max_recovery_artifact_bytes
      → read s.euid
          (some (temp_node encode decode_json digest s text))
          s.readable
          max_recovery_artifact_bytes
          perm_077
          false
        ≡ ok text
  unfolding read open_file validate_node temp_node overlaps
  read-temp_node text own readable identity small =
      rw (identity-owner s.temp_stat own identity, readable) (ground arith)

  validate-temp_node :
      (text : String)
      → validate_identity encode decode_json digest s s.temp_stat ≡ ok tt
      → byte_length text ≤ max_recovery_artifact_bytes
      → validate_recovery_file encode decode_json digest s
          (some (temp_node encode decode_json digest s text))
        ≡ ok tt
  unfolding validate_recovery_file temp_node same_perm
  validate-temp_node text identity small = rw identity (ground arith)

  validate-new_artifact :
      (input : RecoveryArtifactInput)
      → is_blank input.project ≡ false
      → s.now ≢ 0
      → ((text : String) → validate_digest (digest text) ≡ ok tt)
      → validate_recovery_artifact encode decode_json digest s
          (new_artifact encode decode_json digest s input)
          input.recovery_id
        ≡ ok tt
  unfolding validate_recovery_artifact new_artifact
  validate-new_artifact input alias now shape =
      rw
        (
          eq_refl input.recovery_id,
          alias,
          shape input.before,
          shape input.after,
          eq_refl (digest input.before),
        )
        (ground arith)

  pub read_artifact-publish :
      (input : RecoveryArtifactInput) (d : RecoveryDir)
      → decode_json (encode (new_artifact encode decode_json digest s input))
        ≡ some (new_artifact encode decode_json digest s input, true)
      → ((text : String) → validate_digest (digest text) ≡ ok tt)
      → s.expected_owner ≡ s.euid
      → s.readable ≡ true
      → s.now ≢ 0
      → (publish encode decode_json digest s input d).1 ≡ ok tt
      → read_artifact encode decode_json digest s input.recovery_id
          (publish encode decode_json digest s input d).0
        ≡ ok (new_artifact encode decode_json digest s input)
  unfolding read_artifact decoded
  read_artifact-publish input d codec shape own readable now h =
      let (id, alias, dir, identity, small, free, out) =
        publish-eq-ok encode decode_json digest s input d h in
      let text = encode (new_artifact encode decode_json digest s input) in
      let n = temp_node encode decode_json digest s text in
      rw
        (
          out,
          id,
          dir,
          (find_file-added input.recovery_id input.recovery_id n d.files).0
              (eq_refl input.recovery_id),
          validate-temp_node text identity small,
          read-temp_node text own readable identity small,
          codec,
          validate-new_artifact input alias now shape,
        )
        refl

  others-publish :
      (input : RecoveryArtifactInput) (d : RecoveryDir) (name : String)
      → (publish encode decode_json digest s input d).1 ≡ ok tt
      → ((input.recovery_id == name) ≡ true)
        ⊎ (find_file name (publish encode decode_json digest s input d).0.files
            ≡ find_file name d.files)
  others-publish input d name h =
      let (_, _, _, _, _, _, out) = publish-eq-ok encode decode_json digest s input d h in
      elim (Bool-cases (input.recovery_id == name)) [
        | inl e ↦ inl e
        | inr e ↦ inr (rw out ((find_file-added input.recovery_id name _ d.files).1 e))
      ]

  -- `Publish` does all or nothing, when the removals of files do not fail: either it succeeds, the
  -- artifact is read back under its identifier with exactly the policy before, the digest of the policy
  -- after and the alias, and every other name stands for the file it stood for; or it reports an error
  -- and the directory is as it was. The JSON decoder reads back what the encoder makes of the artifact, a digest
  -- is 64 hexadecimal digits, the store belongs to the effective user, its files can be read, the clock
  -- is not at Go's zero time, and no temporary file was left before.
  pub publish-AllOrNothing :
      (input : RecoveryArtifactInput) (d : RecoveryDir) (name : String)
      → decode_json (encode (new_artifact encode decode_json digest s input))
        ≡ some (new_artifact encode decode_json digest s input, true)
      → ((text : String) → validate_digest (digest text) ≡ ok tt)
      → s.expected_owner ≡ s.euid
      → s.readable ≡ true
      → s.now ≢ 0
      → s.fails remove_temp ≡ false
      → s.fails remove_final ≡ false
      → d.temp ≡ none
      → (((publish encode decode_json digest s input d).1 ≡ ok tt)
          × (read_artifact encode decode_json digest s input.recovery_id
                (publish encode decode_json digest s input d).0
              ≡ ok (new_artifact encode decode_json digest s input))
          × (((input.recovery_id == name) ≡ true)
              ⊎ (find_file name (publish encode decode_json digest s input d).0.files
                  ≡ find_file name d.files)))
        ⊎ ((e : RecoveryError) × ((publish encode decode_json digest s input d).1 ≡ err e)
            × ((publish encode decode_json digest s input d).0 ≡ d))
  unfolding publish
  publish-AllOrNothing input d name codec shape own readable now temp final none_left =
      elim (Check-cases (publish encode decode_json digest s input d).1) [
        | inl done ↦ inl (
          done,
          read_artifact-publish input d codec shape own readable now done,
          others-publish input d name done,
        )
        | inr (e, failed) ↦ inr (
          e,
          failed,
          write_artifact-eq-err (temp, final) input.recovery_id
              (prepare_artifact encode decode_json digest s input d) d e none_left failed,
        )
      ]
