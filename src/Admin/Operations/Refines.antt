-- ===== src/Admin/Operations/Refines.antt =====
-- The operations on the disk implement the specification of the edits.
use secrets_broker.Base.{
  String, ◌≤◌, ◌≡◌, refl, sym, ap, ◌∙◌, ◌⊎◌, inl, inr, Bool, true, false, Option, none, some, List,
  Result, Check, ok, err, ok_inj, ◌==◌, if◌then◌else◌,
}
use mathlib.Core.Path.{subst}
use secrets_broker.Config.{Config, approval_never, approval_allowlisted_prompt}
use secrets_broker.Config.Validate.{Url}
use secrets_broker.Config.Worker.{Decoder, parse}
use secrets_broker.Config.Validity.{IsValid}
use secrets_broker.Config.Trusted.{IsWorker, validate_worker-IsWorker_iff, parse-IsValid}
use secrets_broker.Admin.Errors.{EditError, unsupported_mode}
use secrets_broker.Admin.Files.{
  System, Editor, Disk, Snapshot, read_policy, write_atomic, pass, max_policy_bytes,
}
use secrets_broker.Go.{byte_length}
use secrets_broker.Admin.Files.Atomic.{IsReplacement, Kept, Replaced, write_atomic-Outcome}
use secrets_broker.Securefile.{Node}
use secrets_broker.Admin.Editor.{Plan, stored_approval, plan_approval, mode_automatic, mode_confirm}
use secrets_broker.Admin.Editor.Spec.{
  Edit, create_project, update_project_metadata, set_approval, add_allowlist, remove_allowlist,
  edit_config, with_projects, change_first, with_approval,
}
use secrets_broker.Admin.Editor.Planned.{
  PlanMeets, create-PlanMeets, approval-PlanMeets, add-PlanMeets, remove-PlanMeets,
  metadata-PlanMeets,
}
use secrets_broker.Admin.Operations.{
  finished, write_planned, planned, apply_plan, guarded, with_stored, perform,
}

stored-edit_config :
    (alias mode approval : String) (c : Config)
    → stored_approval mode ≡ ok approval
    → edit_config (set_approval alias mode) c
      ≡ with_projects c (change_first (with_approval approval) alias c.projects)
unfolding stored_approval edit_config
stored-edit_config alias mode approval c h =
    by_mode (mode == mode_automatic) (mode == mode_confirm) h
  where
    by_mode :
        (a b : Bool)
        → (if a
            then ok approval_never
            else if b
            then ok approval_allowlisted_prompt
            else err (unsupported_mode mode))
          ≡ ok approval
        → (if a
            then with_projects c (change_first (with_approval approval_never) alias c.projects)
            else if b
            then with_projects c
                (change_first (with_approval approval_allowlisted_prompt) alias c.projects)
            else none)
          ≡ with_projects c (change_first (with_approval approval) alias c.projects)
    by_mode true b k =
        ap (λ x. with_projects c (change_first (with_approval x) alias c.projects)) (ok_inj k)
    by_mode false true k =
        ap (λ x. with_projects c (change_first (with_approval x) alias c.projects)) (ok_inj k)
    by_mode false false k = cc

module _ (json_text : String → String) (json_argv : List String → String)
    (parse_url : String → Option Url) (decode : Decoder) (digest : String → String) (sys : System)
    (e : Editor) where
  -- A plan that was carried out.
  Done : Snapshot → Disk → Option String → Bool → Disk → Type 0
  Done s d none changed after = (changed ≡ false) × (after ≡ d)
  Done s d (some text) changed after =
      (changed ≡ true)
      × ((n : Node) × (after.policy ≡ some n)
          × IsReplacement text s.metadata n
          × (byte_length text ≤ max_policy_bytes))

  finished-Done :
      (s : Snapshot) (text : String) (d : Disk) (changed : Bool) (out : Disk × Check EditError)
      → Kept sys d out.0 out.1 ⊎ Replaced sys e text s.metadata d out.0
      → (finished json_text json_argv parse_url decode digest sys e out).1 ≡ ok changed
      → Done s d
          (some text)
          changed
          (finished json_text json_argv parse_url decode digest sys e out).0
  unfolding finished Done
  finished-Done s text d changed (x, err e') r h = cc
  finished-Done s text d changed (x, ok u) (inl k) h = let (e', f) = k.failed in cc
  finished-Done s text d changed (x, ok u) (inr r) h =
      (sym (ok_inj h), (r.written, r.policy, r.replacement, r.small))

  write_planned-Done :
      (s : Snapshot) (plan : Result EditError (Option String)) (d : Disk) (changed : Bool)
      → d.temp ≡ none
      → (write_planned json_text json_argv parse_url decode digest sys e s plan d).1 ≡ ok changed
      → (o : Option String) × (plan ≡ ok o)
        × Done s d o changed
            (write_planned json_text json_argv parse_url decode digest sys e s plan d).0
  unfolding write_planned Done
  write_planned-Done s (err e') d changed n h = cc
  write_planned-Done s (ok none) d changed n h = (none, refl, (sym (ok_inj h), refl))
  write_planned-Done s (ok (some text)) d changed n h = (
    some text,
    refl,
    finished-Done s text d changed (write_atomic sys e text s.metadata d)
        (write_atomic-Outcome sys e text s.metadata d n) h,
  )

  planned-Done :
      (plan : Plan) (d : Disk) (seen : Result EditError Snapshot) (changed : Bool)
      → d.temp ≡ none
      → (planned json_text json_argv parse_url decode digest sys e plan d seen).1 ≡ ok changed
      → (s : Snapshot) × (seen ≡ ok s)
        × ((o : Option String) × (plan s ≡ ok o)
            × Done s d o changed
                (planned json_text json_argv parse_url decode digest sys e plan d seen).0)
  unfolding planned
  planned-Done plan d (err e') changed n h = cc
  planned-Done plan d (ok s) changed n h = (s, refl, write_planned-Done s (plan s) d changed n h)

  read_policy-temp : (d : Disk) → (read_policy sys parse_url decode digest e d).0.temp ≡ d.temp
  unfolding read_policy pass
  read_policy-temp d = refl

  -- The policy that an operation read, and what it has made of it.
  pub record Performed (edit : Edit) (before after : Disk) (changed : Bool) : Type 0 where
    pub read : Snapshot
    pub was_read : (read_policy sys parse_url decode digest e before).1 ≡ ok read
    pub config : Config
    pub applied : edit_config edit read.config ≡ some config
    pub outcome :
        ((changed ≡ false)
          × (config ≡ read.config)
          × (after ≡ (read_policy sys parse_url decode digest e before).0))
        ⊎ ((changed ≡ true)
            × ((n : Node) × (after.policy ≡ some n)
                × IsReplacement n.content read.metadata n
                × (byte_length n.content ≤ max_policy_bytes)
                × (parse parse_url decode n.content ≡ ok config)
                × IsWorker config
                × IsValid parse_url config))

  Done-Performed :
      (edit : Edit) (before after : Disk) (changed : Bool) (s : Snapshot) (o : Option String)
      → (read_policy sys parse_url decode digest e before).1 ≡ ok s
      → PlanMeets json_text json_argv parse_url decode edit s o
      → Done s (read_policy sys parse_url decode digest e before).0 o changed after
      → Performed edit before after changed
  unfolding Done
  Done-Performed edit before after changed s none seen (c, applied, same) done = record {
    read = s;
    was_read = seen;
    config = c;
    applied = applied;
    outcome = inl (done.0, same, done.1);
  }
  Done-Performed edit before after changed s (some text) seen (c, applied, meets)
        (did, (n, has, r, small)) =
      let content = sym r.content in
      let loads : parse parse_url decode n.content ≡ ok c =
        ap (parse parse_url decode) r.content ∙ meets.0 in
      record {
        read = s;
        was_read = seen;
        config = c;
        applied = applied;
        outcome = inr (
          did,
          (
            n,
            has,
            subst (λ t. IsReplacement t s.metadata n) content r,
            subst (λ t. byte_length t ≤ max_policy_bytes) content small,
            loads,
            (validate_worker-IsWorker_iff c).0 meets.1,
            (parse-IsValid parse_url decode n.content c loads).0,
          ),
        );
      }

  apply_plan-Performed :
      (edit : Edit) (plan : Plan) (d : Disk) (changed : Bool)
      → ((s : Snapshot) (o : Option String)
          → plan s ≡ ok o
          → PlanMeets json_text json_argv parse_url decode edit s o)
      → d.temp ≡ none
      → (apply_plan json_text json_argv parse_url decode digest sys e plan d).1 ≡ ok changed
      → Performed edit d
          (apply_plan json_text json_argv parse_url decode digest sys e plan d).0
          changed
  unfolding apply_plan
  apply_plan-Performed edit plan d changed meets n h =
      let (s, seen, (o, made, done)) =
        planned-Done plan (read_policy sys parse_url decode digest e d).0
          (read_policy sys parse_url decode digest e d).1 changed (read_policy-temp d ∙ n) h in
      Done-Performed edit d _ changed s o seen (meets s o made) done

  guarded-Performed :
      (edit : Edit) (check : Check EditError) (plan : Plan) (d : Disk) (changed : Bool)
      → ((s : Snapshot) (o : Option String)
          → plan s ≡ ok o
          → PlanMeets json_text json_argv parse_url decode edit s o)
      → d.temp ≡ none
      → (guarded json_text json_argv parse_url decode digest sys e check plan d).1 ≡ ok changed
      → Performed edit d
          (guarded json_text json_argv parse_url decode digest sys e check plan d).0
          changed
  unfolding guarded
  guarded-Performed edit (err e') plan d changed meets n h = cc
  guarded-Performed edit (ok u) plan d changed meets n h =
      apply_plan-Performed edit plan d changed meets n h

  stored-Performed :
      (alias mode : String) (stored : Result EditError String) (d : Disk) (changed : Bool)
      → stored_approval mode ≡ stored
      → d.temp ≡ none
      → (with_stored json_text json_argv parse_url decode digest sys e alias stored d).1
        ≡ ok changed
      → Performed
          (set_approval alias mode)
          d
          (with_stored json_text json_argv parse_url decode digest sys e alias stored d).0
          changed
  unfolding with_stored
  stored-Performed alias mode (err e') d changed same n h = cc
  stored-Performed alias mode (ok approval) d changed same n h =
      apply_plan-Performed (set_approval alias mode)
        (plan_approval json_text json_argv parse_url decode alias approval) d changed
        (λ s o made.
          let (c, applied, meets) =
            approval-PlanMeets json_text json_argv parse_url decode alias approval s o made in
          (c, stored-edit_config alias mode approval s.config same ∙ applied, meets))
        n h

  -- An operation of the editor that reports no error, whatever the others do to the policy file in
  -- between, has read a policy to which the specification of the edit applies. If it reports no change,
  -- the specification changes nothing and the operation has written nothing. If it reports a change, the
  -- policy file is now a regular file with the original's permissions and owner, which loads as exactly
  -- the policy that the specification yields, and that policy is valid for the worker. No temporary file
  -- of an earlier write is there at first.
  pub perform-Performed :
      (edit : Edit) (d : Disk) (changed : Bool)
      → d.temp ≡ none
      → (perform json_text json_argv parse_url decode digest sys e edit d).1 ≡ ok changed
      → Performed edit d
          (perform json_text json_argv parse_url decode digest sys e edit d).0
          changed
  unfolding perform
  perform-Performed (create_project input) d changed n h =
      guarded-Performed (create_project input) _ _ d changed
        (create-PlanMeets json_text json_argv parse_url decode input) n h
  perform-Performed (update_project_metadata alias u) d changed n h =
      guarded-Performed (update_project_metadata alias u) _ _ d changed
        (metadata-PlanMeets json_text json_argv parse_url decode alias u) n h
  perform-Performed (set_approval alias mode) d changed n h =
      stored-Performed alias mode (stored_approval mode) d changed refl n h
  perform-Performed (add_allowlist alias argv) d changed n h =
      guarded-Performed (add_allowlist alias argv) _ _ d changed
        (add-PlanMeets json_text json_argv parse_url decode alias argv) n h
  perform-Performed (remove_allowlist alias argv) d changed n h =
      guarded-Performed (remove_allowlist alias argv) _ _ d changed
        (remove-PlanMeets json_text json_argv parse_url decode alias argv) n h
