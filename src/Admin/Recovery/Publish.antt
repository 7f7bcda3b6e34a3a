-- ===== src/Admin/Recovery/Publish.antt =====
-- What `Publish` leaves in the directory, and what `Read` makes of it.
use secrets_broker.Base.{
  ◌≤◌, String, ◌≡◌, refl, sym, ap, ◌∙◌, Bool, false, not, ◌||◌, Option, none, some, ◌∷◌, ltb,
  Result, ok, err, >>-eq-ok, reject->>-eq-ok, ok_inj, arith, Bool-cases, inl, inr,
}
use mathlib.Core.Path.{subst}
use secrets_broker.Go.{byte_length, is_blank}
use secrets_broker.Securefile.{Node, is_regular, is_symlink, perm_600}
use secrets_broker.Admin.Files.{same_perm}
use secrets_broker.Admin.Errors.{
  RecoveryError, recovery_not_written, recovery_alias_required, recovery_artifact_too_large,
  recovery_not_regular, recovery_mode, recovery_special_bits,
}
use secrets_broker.Admin.ArtifactFiles.{
  RecoveryArtifact, RecoveryArtifactInput, RecoveryDir, RecoveryStore, find_file, validate_identity,
  validate_recovery_dir, validate_recovery_file, validate_recovery_id, create, chmod, write, sync,
  close, max_recovery_artifact_bytes,
}
use secrets_broker.Admin.Recovery.{
  new_artifact, temp_node, fill_artifact, linked, link_temp, with_temp_file, prepare_artifact,
  write_artifact, publish,
}

module _ (encode : RecoveryArtifact → String)
    (decode_json : String → Option (RecoveryArtifact × Bool)) (digest : String → String)
    (s : RecoveryStore) where
  -- The directory with a file added.
  abbrev pub added : String → Node → RecoveryDir → RecoveryDir
  added id n d = record d { files = (id, n) ∷ d.files; temp = none }

  linked-eq-ok :
      (id : String) (d : RecoveryDir)
      → (linked encode decode_json digest s id d).1 ≡ ok tt
      → (linked encode decode_json digest s id d).0 ≡ record d { temp = none }
  unfolding linked
  linked-eq-ok id d h = ground arith

  link_temp-eq-ok :
      (id : String) (n : Node) (found : Option Node) (d : RecoveryDir)
      → (link_temp encode decode_json digest s id n found d).1 ≡ ok tt
      → (found ≡ none) × ((link_temp encode decode_json digest s id n found d).0 ≡ added id n d)
  unfolding link_temp
  link_temp-eq-ok id n (some old) d h = cc
  link_temp-eq-ok id n none d h =
      ground (arith, linked-eq-ok id (record d { files = (id, n) ∷ d.files }))

  with_temp_file-eq-ok :
      (id : String) (filled : Result RecoveryError Node) (d : RecoveryDir)
      → (with_temp_file encode decode_json digest s id filled d).1 ≡ ok tt
      → (n : Node) × (filled ≡ ok n)
        × (find_file id d.files ≡ none)
        × ((with_temp_file encode decode_json digest s id filled d).0 ≡ added id n d)
  unfolding with_temp_file
  with_temp_file-eq-ok id (err e) d h = cc
  with_temp_file-eq-ok id (ok n) d h =
      let (a, b) = link_temp-eq-ok id n (find_file id d.files) (record d { temp = some n }) h in
      (n, refl, a, b)

  write_artifact-eq-ok :
      (id : String) (prepared : Result RecoveryError String) (d : RecoveryDir)
      → (write_artifact encode decode_json digest s id prepared d).1 ≡ ok tt
      → (text : String) × (prepared ≡ ok text)
        × ((n : Node) × (fill_artifact encode decode_json digest s text ≡ ok n)
            × (find_file id d.files ≡ none)
            × ((write_artifact encode decode_json digest s id prepared d).0 ≡ added id n d))
  unfolding write_artifact
  write_artifact-eq-ok id (err e) d h = cc
  write_artifact-eq-ok id (ok text) d h = elim (Bool-cases (s.fails create)) [
    | inl f ↦ let k : err recovery_not_written ≡ ok tt = rw f at h in cc k
    | inr f ↦ (
      text,
      refl,
      (let (n, a, b, c) =
            with_temp_file-eq-ok id (fill_artifact encode decode_json digest s text)
              (record d { temp = some (temp_node encode decode_json digest s "") }) (rw f at h) in
          (n, a, b, rw f c)),
    )
  ]

  validate_recovery_file-eq-ok :
      (n : Node)
      → validate_recovery_file encode decode_json digest s (some n) ≡ ok tt
      → validate_identity encode decode_json digest s n.stat ≡ ok tt
  unfolding validate_recovery_file
  validate_recovery_file-eq-ok n h =
      let (_, h1) =
        reject->>-eq-ok (not (is_regular n.kind) || is_symlink n.kind) recovery_not_regular _ h in
      let (_, h2) = reject->>-eq-ok (not (same_perm n.perm perm_600)) recovery_mode _ h1 in
      let (_, h3) = reject->>-eq-ok n.special_bits recovery_special_bits _ h2 in
      (>>-eq-ok (validate_identity encode decode_json digest s n.stat) _ h3).0

  fill_artifact-eq-ok :
      (text : String) (n : Node)
      → fill_artifact encode decode_json digest s text ≡ ok n
      → (n ≡ temp_node encode decode_json digest s text)
        × (validate_identity encode decode_json digest s s.temp_stat ≡ ok tt)
  unfolding fill_artifact temp_node
  fill_artifact-eq-ok text n h =
      let (_, h1) = reject->>-eq-ok (s.fails chmod) recovery_not_written _ h in
      let (checked, h2) =
        >>-eq-ok
          (validate_recovery_file encode decode_json digest s
            (some (temp_node encode decode_json digest s "")))
          _ h1 in
      let (_, h3) = reject->>-eq-ok (s.fails write) recovery_not_written _ h2 in
      let (_, h4) = reject->>-eq-ok (s.fails sync) recovery_not_written _ h3 in
      let (_, h5) = reject->>-eq-ok (s.fails close) recovery_not_written _ h4 in
      (
        sym (ok_inj h5),
        validate_recovery_file-eq-ok (temp_node encode decode_json digest s "") checked,
      )

  prepare_artifact-eq-ok :
      (input : RecoveryArtifactInput) (d : RecoveryDir) (text : String)
      → prepare_artifact encode decode_json digest s input d ≡ ok text
      → (validate_recovery_id input.recovery_id ≡ ok tt)
        × (is_blank input.project ≡ false)
        × (validate_recovery_dir encode decode_json digest s d.dir ≡ ok tt)
        × (byte_length text ≤ max_recovery_artifact_bytes)
        × (text ≡ encode (new_artifact encode decode_json digest s input))
  unfolding prepare_artifact
  prepare_artifact-eq-ok input d text h =
      let artifact = encode (new_artifact encode decode_json digest s input) in
      let (a, h1) = >>-eq-ok (validate_recovery_id input.recovery_id) _ h in
      let (b, h2) = reject->>-eq-ok (is_blank input.project) recovery_alias_required _ h1 in
      let (c, h3) = >>-eq-ok (validate_recovery_dir encode decode_json digest s d.dir) _ h2 in
      let (small, h4) =
        reject->>-eq-ok (ltb max_recovery_artifact_bytes (byte_length artifact))
          recovery_artifact_too_large _ h3 in
      (
        a,
        b,
        c,
        subst (λ t. byte_length t ≤ max_recovery_artifact_bytes) (ok_inj h4) (ground arith),
        sym (ok_inj h4),
      )

  -- A publication that succeeds was of a free identifier.
  pub publish-eq-ok :
      (input : RecoveryArtifactInput) (d : RecoveryDir)
      → (publish encode decode_json digest s input d).1 ≡ ok tt
      → (validate_recovery_id input.recovery_id ≡ ok tt)
        × (is_blank input.project ≡ false)
        × (validate_recovery_dir encode decode_json digest s d.dir ≡ ok tt)
        × (validate_identity encode decode_json digest s s.temp_stat ≡ ok tt)
        × (byte_length (encode (new_artifact encode decode_json digest s input))
            ≤ max_recovery_artifact_bytes)
        × (find_file input.recovery_id d.files ≡ none)
        × ((publish encode decode_json digest s input d).0
            ≡ added input.recovery_id
                (temp_node encode decode_json digest s
                  (encode (new_artifact encode decode_json digest s input)))
                d)
  unfolding publish
  publish-eq-ok input d h =
      let (text, prepared, (n, filled, free, out)) =
        write_artifact-eq-ok input.recovery_id
          (prepare_artifact encode decode_json digest s input d) d h in
      let (a, b, c, small, same) = prepare_artifact-eq-ok input d text prepared in
      let (node, identity) = fill_artifact-eq-ok text n filled in
      (
        a,
        b,
        c,
        identity,
        subst (λ t. byte_length t ≤ max_recovery_artifact_bytes) same small,
        free,
        out
            ∙ ap (λ m. added input.recovery_id m d)
                (node ∙ ap (temp_node encode decode_json digest s) same),
      )
