-- ===== src/Admin/Files/Atomic.antt =====
-- What `write_atomic` does to the disk.
use secrets_broker.Base.{
  ℕ, String, ◌≡◌, refl, sym, true, not, ◌⊎◌, inl, inr, Option, none, some, Result, Check, ok, err,
  Bool-cases, arith, ltb, ◌≤◌, >>=-eq-ok, reject-eq-ok, reject->>-eq-ok, ok_inj, ◌&&◌, not-eq_false,
}
use mathlib.Core.Path.{subst}
use secrets_broker.Go.{byte_length}
use secrets_broker.Securefile.{Node, Stat, regular}
use secrets_broker.Admin.Errors.{
  EditError, temp_not_owned, temp_not_chmodded, temp_not_written, temp_not_synced, temp_not_closed,
  temp_not_stated, policy_changed_before_replacement,
}
use secrets_broker.Admin.Files.{
  System, Editor, Disk, FileMetadata, Moment, max_policy_bytes, metadata, same_file, pass,
  check_same, discard, sync_renamed, rename_temp, with_filled, with_temp, with_lock, write_atomic,
  fill_owned, fill_stated, fill_temp, new_temp, temp_writing, chown_temp, chmod_temp, write_temp,
  sync_temp, close_temp, stat_temp, same_owner, checking, locking, replacing, remove_temp, rename,
  create_temp,
}

-- The file that a write puts in the place of the policy.
pub record IsReplacement (text : String) (original : FileMetadata) (n : Node) : Type 0 where
  pub is_regular : n.kind ≡ regular
  pub content : n.content ≡ text
  pub perm : n.perm ≡ original.perm
  pub owned :
      (s : Stat) × (n.stat ≡ some s) × (s.uid ≡ original.stat.uid) × (s.gid ≡ original.stat.gid)

module _ (sys : System) where
  -- What the others alone make of a policy file.
  pub data Left : Option Node → Option Node → Type 0 where
    untouched : (p : Option Node) → Left p p
    passed : (p q : Option Node) (m : Moment) → Left p q → Left p (sys.others m q)

  -- The policy file was checked to be the one that was read, as the others had left it by the end of the
  -- writing of the temporary file, and then replaced.
  pub record Replaced (e : Editor) (text : String) (original : FileMetadata) (before : Disk)
      (after : Disk) : Type 0 where
    pub small : byte_length text ≤ max_policy_bytes
    pub earlier : Option Node
    pub earlier_left : Left before.policy earlier
    pub seen : Option Node
    pub seen_last : seen ≡ sys.others temp_writing earlier
    pub current : FileMetadata
    pub seen_metadata : metadata e.expected_owner seen ≡ ok current
    pub seen_same : same_file original current ≡ true
    pub written : Node
    pub policy : after.policy ≡ some written
    pub replacement : IsReplacement text original written
    pub no_temp : after.temp ≡ none

  -- The policy file is as the others left it, and so is the directory, unless the removal of the
  -- temporary file failed.
  pub record Kept (before : Disk) (after : Disk) (result : Check EditError) : Type 0 where
    pub left : Left before.policy after.policy
    pub failed : (e : EditError) × (result ≡ err e)
    pub cleaned : (sys.fails remove_temp ≡ true) ⊎ (after.temp ≡ none)

  pass-Left :
      (p : Option Node) (m : Moment) (d : Disk) → Left p d.policy → Left p (pass sys m d).policy
  unfolding pass
  pass-Left p m d l = passed p d.policy m l

  now-Left :
      (p earlier now : Option Node)
      → Left p earlier
      → now ≡ sys.others temp_writing earlier
      → Left p now
  now-Left p earlier now l last = subst (Left p) (sym last) (passed p earlier temp_writing l)

  Outcome : Editor → String → FileMetadata → Disk → Disk × Check EditError → Type 0
  Outcome e text original before out =
      Kept before out.0 out.1 ⊎ Replaced e text original before out.0

  discard-Kept :
      (before d : Disk) (e' : EditError)
      → Left before.policy d.policy
      → Kept before (discard sys e' d).0 (discard sys e' d).1
  unfolding discard
  discard-Kept before d e' l = elim (Bool-cases (sys.fails remove_temp)) [
    | inl f ↦ rw f (record { left = l; failed = (e', refl); cleaned = inl f })
    | inr f ↦ rw f (record { left = l; failed = (e', refl); cleaned = inr refl })
  ]

  sync_renamed-disk : (d : Disk) → (sync_renamed sys d).0 ≡ d
  unfolding sync_renamed
  sync_renamed-disk d = ground arith

  check_same-eq-ok :
      (owner : ℕ) (original : FileMetadata) (e' : EditError) (path : Option Node)
      → check_same sys owner original e' path ≡ ok tt
      → (m : FileMetadata) × (metadata owner path ≡ ok m) × (same_file original m ≡ true)
  unfolding check_same
  check_same-eq-ok owner original e' path h =
      let (m, found, h1) = >>=-eq-ok (metadata owner path) _ h in
      (m, found, not-eq_false (same_file original m) (reject-eq-ok _ e' h1))

  fill_owned-IsReplacement :
      (text : String) (original : FileMetadata) (s : Stat) (t : Node)
      → fill_owned sys text original s ≡ ok t
      → IsReplacement text original t
  unfolding fill_owned new_temp
  fill_owned-IsReplacement text original s t h =
      let (_, h1) =
        reject->>-eq-ok (not (same_owner sys s original.stat) && sys.fails chown_temp)
          temp_not_owned _ h in
      let (_, h2) = reject->>-eq-ok (sys.fails chmod_temp) temp_not_chmodded _ h1 in
      let (_, h3) = reject->>-eq-ok (sys.fails write_temp) temp_not_written _ h2 in
      let (_, h4) = reject->>-eq-ok (sys.fails sync_temp) temp_not_synced _ h3 in
      let (_, h5) = reject->>-eq-ok (sys.fails close_temp) temp_not_closed _ h4 in
      subst (IsReplacement text original) (ok_inj h5)
        (record { is_regular = refl; content = refl; perm = refl; owned = (_, refl, refl, refl) })

  fill_stated-IsReplacement :
      (text : String) (original : FileMetadata) (o : Option Stat) (t : Node)
      → fill_stated sys text original o ≡ ok t
      → IsReplacement text original t
  unfolding fill_stated
  fill_stated-IsReplacement text original none t h = cc
  fill_stated-IsReplacement text original (some s) t h =
      fill_owned-IsReplacement text original s t h

  fill_temp-IsReplacement :
      (text : String) (original : FileMetadata) (t : Node)
      → fill_temp sys text original ≡ ok t
      → IsReplacement text original t
  unfolding fill_temp
  fill_temp-IsReplacement text original t h =
      let (_, h1) = reject->>-eq-ok (sys.fails stat_temp) temp_not_stated _ h in
      fill_stated-IsReplacement text original sys.temp_stat t h1

  module _ (e : Editor) (text : String) (original : FileMetadata)
      (small : byte_length text ≤ max_policy_bytes) where
    rename_temp-Outcome :
        (before d : Disk) (t : Node) (checked : Check EditError) (earlier : Option Node)
        → d.temp ≡ some t
        → IsReplacement text original t
        → Left before.policy earlier
        → d.policy ≡ sys.others temp_writing earlier
        → (checked ≡ ok tt
            → (m : FileMetadata) × (metadata e.expected_owner d.policy ≡ ok m)
              × (same_file original m ≡ true))
        → Outcome e text original before (rename_temp sys checked d)
    unfolding rename_temp Outcome
    rename_temp-Outcome before d t (err e') earlier has r l last seen =
        inl (discard-Kept before d e' (now-Left before.policy earlier d.policy l last))
    rename_temp-Outcome before d t (ok u) earlier has r l last seen =
        elim (Bool-cases (sys.fails rename)) [
          | inl f ↦ rw f (
              inl (
                discard-Kept before (pass sys replacing d) _ (
                  pass-Left before.policy replacing d
                    (now-Left before.policy earlier d.policy l last))))
          | inr f ↦
              rw (f, sync_renamed-disk (record { policy = d.temp; temp = none }))
                (let (m, found, same) = seen refl in
                  inr (record {
                    small = small;
                    earlier = earlier;
                    earlier_left = l;
                    seen = d.policy;
                    seen_last = last;
                    current = m;
                    seen_metadata = found;
                    seen_same = same;
                    written = t;
                    policy = has;
                    replacement = r;
                    no_temp = refl;
                  }))
        ]

    with_filled-Outcome :
        (before d : Disk) (filled : Result EditError Node)
        → Left before.policy d.policy
        → ((t : Node) → filled ≡ ok t → IsReplacement text original t)
        → Outcome e text original before (with_filled sys e text original filled d)
    unfolding with_filled Outcome pass
    with_filled-Outcome before d (err e') l r = inl (discard-Kept before d e' l)
    with_filled-Outcome before d (ok t) l r =
        let d' = pass sys temp_writing (record d { temp = some t }) in
        rename_temp-Outcome before d' t
          (check_same sys e.expected_owner original policy_changed_before_replacement d'.policy)
          d.policy refl (r t refl) l refl
          (check_same-eq-ok e.expected_owner original policy_changed_before_replacement d'.policy)

    with_temp-Outcome :
        (before d : Disk) (checked : Check EditError)
        → Left before.policy d.policy
        → d.temp ≡ none
        → Outcome e text original before (with_temp sys e text original checked d)
    unfolding with_temp Outcome
    with_temp-Outcome before d (err e') l n =
        inl (record { left = l; failed = (e', refl); cleaned = inr n })
    with_temp-Outcome before d (ok u) l n = elim (Bool-cases (sys.fails create_temp)) [
      | inl f ↦ rw f (inl (record { left = l; failed = (_, refl); cleaned = inr n }))
      | inr f ↦ rw f (
          with_filled-Outcome before (record d { temp = some (new_temp sys) })
            (fill_temp sys text original) l (fill_temp-IsReplacement text original))
    ]

    with_lock-Outcome :
        (before d : Disk) (locked : Check EditError)
        → Left before.policy d.policy
        → d.temp ≡ none
        → Outcome e text original before (with_lock sys e text original locked d)
    unfolding with_lock Outcome pass
    with_lock-Outcome before d (err e') l n =
        inl (record { left = l; failed = (e', refl); cleaned = inr n })
    with_lock-Outcome before d (ok u) l n =
        with_temp-Outcome before (pass sys checking d) _ (passed before.policy d.policy checking l)
          n

  -- A write of the policy, whatever the others do to the file in between and whichever calls fail, either
  -- reports an error and leaves the file as the others left it, without a temporary file beside it
  -- unless that file's removal failed; or it has put a regular file with exactly the new text, of at
  -- most 1 MiB, with the original's permissions, owner and group, in the place of a file that was seen
  -- just before to be the one that was read. No temporary file of an earlier write is there at first.
  pub write_atomic-Outcome :
      (e : Editor) (text : String) (original : FileMetadata) (d : Disk)
      → d.temp ≡ none
      → Kept d (write_atomic sys e text original d).0 (write_atomic sys e text original d).1
        ⊎ Replaced e text original d (write_atomic sys e text original d).0
  unfolding write_atomic Outcome pass
  write_atomic-Outcome e text original d n =
      elim (Bool-cases (ltb max_policy_bytes (byte_length text))) [
        | inl big ↦
            rw big (inl (record { left = untouched d.policy; failed = (_, refl); cleaned = inr n }))
        | inr small ↦ rw small (
            with_lock-Outcome e text original (ground arith) d (pass sys locking d) _
              (passed d.policy d.policy locking (untouched d.policy)) n)
      ]
