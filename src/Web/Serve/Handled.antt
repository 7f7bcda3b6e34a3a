-- ===== src/Web/Serve/Handled.antt =====
-- The handlers, after the guard.
use secrets_broker.Base.{
  ℕ, ◌<◌, String, ◌≡◌, refl, sym, ◌≢◌, inl, inr, Option, none, some, Bool, true, Bool-cases, not,
  ◌&&◌, ◌||◌, [], ◌∷◌, All, ◌==◌, eq_iff, Result, ok, err, reject->>-eq-ok, arith,
}
use secrets_broker.Admin.Editor.{ProjectDetail}
use secrets_broker.Admin.Editor.Spec.{Edit}
use secrets_broker.Web.{WebConfig, PolicyChange, WebError, change_not_confirmed}
use secrets_broker.Web.Forms.{Form, form_value, valid_fields}
use secrets_broker.Web.Tokens.Live.{All-map, All-zip}
use secrets_broker.Web.Guard.{Passed}
use secrets_broker.Web.Controls.{review}
use secrets_broker.Web.Controls.Widening.{check_review-ShowsWidening}
use secrets_broker.Web.Commit.{commit_edit, edit_of}
use secrets_broker.Web.Serve.{
  WebState, Answers, OpenRequest, find_open, delete_open, resume, review_actions, is_one_of,
  answer_commit, commit, handle,
}
use secrets_broker.Web.Serve.Invariant.{
  past_edit, open_past_edit, edit_event, IsOpen, HasTaken, IsServed, find_open-All, delete_open-All,
  delete_open-ne,
}
use secrets_broker.Web.Serve.Issued.{issue_commit-IsServed}

module _ (cfg : WebConfig) (is_print : ℕ → Bool) where
  commit_edit-eq-ok :
      (c : PolicyChange) (form : Form) (detail : Option ProjectDetail) (edit : Edit)
      → commit_edit c form detail ≡ ok edit
      → (c.widen ≡ true → form_value form "confirm" ≡ "yes") × (edit_of c detail ≡ ok edit)
  unfolding commit_edit
  commit_edit-eq-ok c form detail edit h =
      let (tests, made) =
        reject->>-eq-ok
          (not (valid_fields form ("confirm" ∷ []))
            || c.widen && not (form_value form "confirm" == "yes"))
          change_not_confirmed _ h in
      ((λ wide. (eq_iff (form_value form "confirm") "yes").0 (ground (arith, tests, wide))), made)

  -- What holds of the request with the number while its handler runs: it has left the open ones.
  pub record IsHandled (s : WebState) (id : ℕ) (p : Passed) : Type 0 where
    pub served : IsServed cfg s
    pub left : All (λ f. f.0 ≢ id) s.open_requests
    pub request :
        (c : PolicyChange)
        → p.entry.change ≡ some c
        → IsOpen cfg id p.token c p.entry.revision p.form s.trace

  answer_commit-IsServed :
      (s : WebState) (id : ℕ) (a : Answers) (p : Passed) (c : PolicyChange)
      (made : Result WebError Edit)
      → commit_edit c p.form a.reads.detail ≡ made
      → p.entry.change ≡ some c
      → IsHandled s id p
      → IsServed cfg (answer_commit is_print cfg s id a p c made).0
  unfolding answer_commit
  answer_commit-IsServed s id a p c (err e) m change g = g.served
  answer_commit-IsServed s id a p c (ok edit) m change g =
      let (confirmed, made) = commit_edit-eq-ok c p.form a.reads.detail edit m in
      record {
        reviews =
            All-map (λ f k d e. past_edit id p.entry.revision edit s.trace (k d e)) s.tokens
              g.served.reviews;
        few = g.served.few;
        requests =
            All-zip
              (λ f ne k d e.
                open_past_edit id p.entry.revision edit s.trace (λ x. ne (sym x)) (k d e))
              s.open_requests g.left g.served.requests;
        numbered = g.served.numbered;
        trace =
            edit_event id p.entry.revision edit s.trace
              (record {
                token = p.token;
                change = c;
                form = p.form;
                request = g.request c change;
                confirmed = confirmed;
                detail = a.reads.detail;
                made = made;
              })
              g.served.trace;
      }

  commit-IsServed :
      (s : WebState) (id : ℕ) (a : Answers) (p : Passed) (change : Option PolicyChange)
      → p.entry.change ≡ change
      → IsHandled s id p
      → IsServed cfg (commit is_print cfg s id a p change).0
  unfolding commit
  commit-IsServed s id a p none change g = g.served
  commit-IsServed s id a p (some c) change g =
      answer_commit-IsServed s id a p c (commit_edit c p.form a.reads.detail) refl change g

  handle-IsServed :
      (action : String) (s : WebState) (id : ℕ) (a : Answers) (p : Passed)
      → IsHandled s id p
      → IsServed cfg (handle is_print cfg action s id a p).0
  unfolding handle review
  handle-IsServed action s id a p g = elim (Bool-cases (is_one_of review_actions action)) [
    | inl reviews ↦ rw reviews (
        issue_commit-IsServed cfg is_print s p.entry.revision a.reads _
          (check_review-ShowsWidening is_print s.available action p.entry.revision a.reads p.form)
          g.served)
    | inr other ↦ elim (Bool-cases (action == "commit")) [
      | inl commits ↦ rw (other, commits) (commit-IsServed s id a p p.entry.change refl g)
      | inr check ↦ elim (Bool-cases (action == "discover")) [
        | inl discovers ↦
            rw (other, check, discovers)
              (record {
                reviews = g.served.reviews;
                few = g.served.few;
                requests = g.served.requests;
                numbered = g.served.numbered;
                trace = g.served.trace;
              })
        | inr rest ↦ rw (other, check, rest) g.served
      ]
    ]
  ]

  pub resume-IsServed :
      (s : WebState) (id : ℕ) (a : Answers) (o : Option OpenRequest)
      → find_open s.open_requests id ≡ o
      → IsServed cfg s
      → IsServed cfg (resume is_print cfg s id a o).0
  unfolding resume
  resume-IsServed s id a none found v = v
  resume-IsServed s id a (some o) found v =
      handle-IsServed o.action (record s { open_requests = delete_open s.open_requests id }) id a
        o.passed
        (record {
          served = record {
            reviews = v.reviews;
            few = v.few;
            requests = delete_open-All (HasTaken cfg s.trace) s.open_requests id v.requests;
            numbered = delete_open-All (λ f. f.0 < s.next) s.open_requests id v.numbered;
            trace = v.trace;
          };
          left = delete_open-ne s.open_requests id;
          request = find_open-All (HasTaken cfg s.trace) s.open_requests id o v.requests found;
        })
