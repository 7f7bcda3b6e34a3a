-- ===== src/Admin/Files/Reading.antt =====
-- What `readPolicy` accepts while nobody else changes the policy file.
use secrets_broker.Base.{
  String, ◌≡◌, refl, sym, ap, ◌∙◌, ◌≤◌, true, not, ◌&&◌, Option, none, some, Result, ok, map_err,
  >>=-eq-ok, reject->>-eq-ok, >>-eq-ok, ok_inj, map_err-eq-ok, ◌==◌,
}
use mathlib.Core.Path.{subst}
use secrets_broker.Go.{byte_length, is_blank}
use secrets_broker.Config.{Config}
use secrets_broker.Config.Validate.{Url}
use secrets_broker.Config.Worker.{Decoder, parse, validate_worker}
use secrets_broker.Securefile.{
  Node, is_regular, overlaps, perm_022, read, validate_trusted_dir, open_file,
}
use secrets_broker.Admin.Files.Atomic.{IsReplacement}
use secrets_broker.Admin.Errors.{
  EditError, policy_folder_refused, policy_not_read, policy_changed_while_read, policy_changed,
  policy_not_loaded, policy_not_worker,
}
use secrets_broker.Admin.Files.Readable.{
  IsReadable, metadata-eq-ok, metadata-Readable, same_file_refl, open_file-regular, read-Readable,
  is_owner-uid, read-eq-ok, read-small,
}
use secrets_broker.Admin.Files.{
  System, Editor, Disk, Snapshot, FileMetadata, Moment, max_policy_bytes, metadata, reading,
  content_reading, rechecking, same_file, read_policy, snapshot, loaded, pass,
}

module _ (sys : System) (parse_url : String → Option Url) (decode : Decoder)
    (digest : String → String) (e : Editor) where
  pub loaded-ok :
      (text : String) (c : Config) (m : FileMetadata)
      → is_blank e.expected_revision ≡ true
      → parse parse_url decode text ≡ ok c
      → validate_worker c ≡ ok tt
      → loaded sys parse_url decode digest e text m
        ≡ ok (record { text = text; config = c; metadata = m })
  unfolding loaded
  loaded-ok text c m blank parsed worker = rw (blank, parsed, worker) refl

  abbrev look : Node → Result EditError Snapshot
  look n = snapshot sys parse_url decode digest e (some n) (some n) (some n)

  pub loaded-eq-ok :
      (text : String) (m : FileMetadata) (s : Snapshot)
      → loaded sys parse_url decode digest e text m ≡ ok s
      → (s.text ≡ text)
        × (s.metadata ≡ m)
        × (parse parse_url decode text ≡ ok s.config)
        × (validate_worker s.config ≡ ok tt)
  unfolding loaded
  loaded-eq-ok text m s h =
      let (_, h1) =
        reject->>-eq-ok
          (not (is_blank e.expected_revision) && not (digest text == e.expected_revision))
          policy_changed _ h in
      let (c, parsed, h2) =
        >>=-eq-ok (map_err policy_not_loaded (parse parse_url decode text)) _ h1 in
      let (worker, h3) = >>-eq-ok (map_err policy_not_worker (validate_worker c)) _ h2 in
      let same = ap (λ x. x.config) (ok_inj h3) in
      (
        ap (λ x. x.text) (sym (ok_inj h3)),
        ap (λ x. x.metadata) (sym (ok_inj h3)),
        map_err-eq-ok policy_not_loaded _ parsed ∙ ap ok same,
        ap validate_worker (sym same) ∙ map_err-eq-ok policy_not_worker _ worker,
      )

  snapshot-loaded :
      (first second third : Option Node) (s : Snapshot)
      → snapshot sys parse_url decode digest e first second third ≡ ok s
      → (parse parse_url decode s.text ≡ ok s.config)
        × (validate_worker s.config ≡ ok tt)
        × (byte_length s.text ≤ max_policy_bytes)
  unfolding snapshot
  snapshot-loaded first second third s h =
      let (_, h1) =
        >>-eq-ok (map_err policy_folder_refused (validate_trusted_dir sys.euid sys.policy_folder)) _
          h in
      let (before, _, h2) = >>=-eq-ok (metadata e.expected_owner first) _ h1 in
      let (text, content, h3) =
        >>=-eq-ok
          (map_err policy_not_read
            (read sys.euid second sys.readable max_policy_bytes perm_022 true))
          _ h2 in
      let (after, _, h4) = >>=-eq-ok (metadata e.expected_owner third) _ h3 in
      let (_, h5) = reject->>-eq-ok (not (same_file before after)) policy_changed_while_read _ h4 in
      let (same, _, parsed, worker) = loaded-eq-ok text after s h5 in
      let small =
        read-small sys.euid second sys.readable text (map_err-eq-ok policy_not_read _ content) in
      (
        ap (parse parse_url decode) same ∙ parsed,
        worker,
        subst (λ t. byte_length t ≤ max_policy_bytes) (sym same) small,
      )

  snapshot-IsReadable :
      (n : Node) (s : Snapshot)
      → look n ≡ ok s
      → IsReadable sys.euid e.expected_owner n
        × (validate_trusted_dir sys.euid sys.policy_folder ≡ ok tt)
        × (sys.readable ≡ true)
        × (s.text ≡ n.content)
        × (s.metadata.perm ≡ n.perm)
        × (n.stat ≡ some s.metadata.stat)
  unfolding snapshot
  snapshot-IsReadable n s h =
      let (dir, h1) =
        >>-eq-ok (map_err policy_folder_refused (validate_trusted_dir sys.euid sys.policy_folder)) _
          h in
      let (before, seen, h2) = >>=-eq-ok (metadata e.expected_owner (some n)) _ h1 in
      let (text, content, h3) =
        >>=-eq-ok
          (map_err policy_not_read
            (read sys.euid (some n) sys.readable max_policy_bytes perm_022 true))
          _ h2 in
      let (after, again, h4) = >>=-eq-ok (metadata e.expected_owner (some n)) _ h3 in
      let (_, h5) = reject->>-eq-ok (not (same_file before after)) policy_changed_while_read _ h4 in
      let (kind, perm, (st, has, expected, same_perm', same_stat)) =
        metadata-eq-ok e.expected_owner n after again in
      let (readable, trusted, content') =
        read-eq-ok sys.euid n sys.readable st text has (map_err-eq-ok policy_not_read _ content) in
      let (text', meta, _, _) = loaded-eq-ok text after s h5 in
      (
        record {
          kind = kind;
          perm = perm;
          stat = st;
          has_stat = has;
          expected = expected;
          trusted = trusted;
        },
        map_err-eq-ok policy_folder_refused _ dir,
        readable,
        text' ∙ sym content',
        ap (λ m. m.perm) meta ∙ same_perm',
        has ∙ ap some (sym (ap (λ m. m.stat) meta ∙ same_stat)),
      )

  -- What was read is loaded, and is not larger than the limit, whatever the others did.
  pub read_policy-loaded :
      (d : Disk) (s : Snapshot)
      → (read_policy sys parse_url decode digest e d).1 ≡ ok s
      → (parse parse_url decode s.text ≡ ok s.config)
        × (validate_worker s.config ≡ ok tt)
        × (byte_length s.text ≤ max_policy_bytes)
  unfolding read_policy pass
  read_policy-loaded d s h =
      snapshot-loaded (sys.others reading d.policy)
        (sys.others content_reading (sys.others reading d.policy))
        (sys.others rechecking (sys.others content_reading (sys.others reading d.policy))) s h

  -- What a file is read as while nobody changes it.
  look-Readable :
      (n : Node) (r : IsReadable sys.euid e.expected_owner n)
      → validate_trusted_dir sys.euid sys.policy_folder ≡ ok tt
      → sys.readable ≡ true
      → byte_length n.content ≤ max_policy_bytes
      → look n
        ≡ loaded sys parse_url decode digest e n.content
            (record { perm = n.perm; stat = r.stat; size = byte_length n.content })
  unfolding snapshot
  look-Readable n r dir readable small =
      rw
        (
          dir,
          metadata-Readable sys.euid e.expected_owner n r,
          readable,
          read-Readable sys.euid e.expected_owner n r small,
          same_file_refl (record { perm = n.perm; stat = r.stat; size = byte_length n.content }),
        )
        refl

  -- What is read while nobody changes the file: its metadata, whatever it is, and a file that is there.
  snapshot-some :
      (path : Option Node) (s : Snapshot)
      → snapshot sys parse_url decode digest e path path path ≡ ok s
      → (n : Node) × (path ≡ some n)
  unfolding snapshot metadata
  snapshot-some none s h =
      let (_, h1) =
        >>-eq-ok (map_err policy_folder_refused (validate_trusted_dir sys.euid sys.policy_folder)) _
          h in
      cc
  snapshot-some (some n) s h = (n, refl)

  module _ (quiet : (m : Moment) (path : Option Node) → sys.others m path ≡ path) where
    pub read_policy-quiet :
        (d : Disk)
        → (read_policy sys parse_url decode digest e d).1
          ≡ snapshot sys parse_url decode digest e d.policy d.policy d.policy
    unfolding read_policy pass
    read_policy-quiet d =
        rw (quiet reading d.policy, quiet content_reading d.policy, quiet rechecking d.policy) refl

    pub read_policy-disk :
        (d : Disk)
        → ((read_policy sys parse_url decode digest e d).0.policy ≡ d.policy)
          × ((read_policy sys parse_url decode digest e d).0.temp ≡ d.temp)
    unfolding read_policy pass
    read_policy-disk d = (
      rw (quiet reading d.policy, quiet content_reading d.policy, quiet rechecking d.policy) refl,
      refl,
    )

    -- A file that replaced the one which was read is read as well, and passes the checks of a write.
    pub read-replaced :
        (d after : Disk) (s : Snapshot) (n : Node)
        → (read_policy sys parse_url decode digest e d).1 ≡ ok s
        → after.policy ≡ some n
        → IsReplacement n.content s.metadata n
        → byte_length n.content ≤ max_policy_bytes
        → (m : FileMetadata) × ((read_policy sys parse_url decode digest e after).1
            ≡ loaded sys parse_url decode digest e n.content m)
          × (metadata e.expected_owner (some n) ≡ ok m)
          × (open_file (some n) ≡ ok n)
    read-replaced d after s n h has r small =
        let seen = sym (read_policy-quiet d) ∙ h in
        let (old, there) = snapshot-some d.policy s seen in
        let found : look old ≡ ok s =
          subst (λ path. snapshot sys parse_url decode digest e path path path ≡ ok s) there seen in
        let (old_ok, dir, readable, _, perm, stat) = snapshot-IsReadable old s found in
        let same_stat : old_ok.stat ≡ s.metadata.stat = cc (old_ok.has_stat, stat) in
        let (st, n_stat, uid, _) = r.owned in
        let uids : st.uid ≡ old_ok.stat.uid = uid ∙ ap (λ x. x.uid) (sym same_stat) in
        let ok_new : IsReadable sys.euid e.expected_owner n = record {
          kind = ap is_regular r.is_regular;
          perm = ap (λ p. overlaps p perm_022) (r.perm ∙ perm) ∙ old_ok.perm;
          stat = st;
          has_stat = n_stat;
          expected = uids ∙ old_ok.expected;
          trusted = is_owner-uid sys.euid st old_ok.stat uids ∙ old_ok.trusted;
        } in
        (
          _,
          read_policy-quiet after
              ∙ ap (λ path. snapshot sys parse_url decode digest e path path path) has
              ∙ look-Readable n ok_new dir readable small,
          metadata-Readable sys.euid e.expected_owner n ok_new,
          open_file-regular n ok_new.kind,
        )
