-- ===== src/Web/Serve/Issued.antt =====
-- The tokens that the pages and the reviews issue.
use mathlib.Core.Path.{subst}
use secrets_broker.Base.{
  ℕ, ◌+◌, ◌≤◌, String, ◌≡◌, refl, sym, inl, inr, Option, none, some, Bool, false, Bool-cases, List,
  [], ◌∷◌, All, length, leb, eq_refl, Result, ok, err, arith,
}
use secrets_broker.Web.{WebConfig, PolicyChange, FormToken, WebError}
use secrets_broker.Web.Tokens.{
  Tokens, max_tokens, form_lifetime, issue_target_token, new_token, add_token, set_change,
  prune_tokens, delete_token,
}
use secrets_broker.Web.Tokens.Live.{
  All-map, All-zip, delete_token-All, delete_token-ne, delete_token-length-le, prune_tokens-All,
  prune_tokens-length-le, set_change-length,
}
use secrets_broker.Web.Controls.{Reads, issue_commit, stored}
use secrets_broker.Admin.Editor.{ProjectDetail}
use secrets_broker.Web.Controls.Widening.{ShowsWidening}
use secrets_broker.Web.Serve.Invariant.{
  here, past_review, review_event, open_past_review, Unspent, HasReview, IsServed,
}
use secrets_broker.Web.Serve.{
  reviewed, WebTrace, WebState, PageForm, unless_stopped, issue_forms, answer_review,
}

module _ (cfg : WebConfig) where
  add_token-HasReview :
      (t : WebTrace) (entry : FormToken) (random : Option String) (tokens : Tokens)
      → entry.change ≡ none
      → All (HasReview cfg t) tokens
      → All (HasReview cfg t) (add_token entry random tokens).0
  unfolding add_token
  add_token-HasReview t entry none tokens blank h = h
  add_token-HasReview t entry (some token) tokens blank h =
      ((λ c e. absurd (cc (blank, e))), delete_token-All (HasReview cfg t) tokens token h)

  add_token-length :
      (entry : FormToken) (random : Option String) (tokens : Tokens)
      → leb max_tokens (length tokens) ≡ false
      → length (add_token entry random tokens).0 ≤ max_tokens
  unfolding add_token
  add_token-length entry none tokens few = ground (arith, few)
  add_token-length entry (some token) tokens few =
      ground (arith, few, delete_token-length-le tokens token)

  issued-length :
      (action revision target : String) (random : Option String) (now : ℕ) (tokens : Tokens)
      → length tokens ≤ max_tokens
      → length (issue_target_token cfg action revision target random now tokens).0 ≤ max_tokens
  unfolding issue_target_token
  issued-length action revision target random now tokens few =
      elim (Bool-cases (leb max_tokens (length (prune_tokens now tokens)))) [
        | inl full ↦ rw full (omega (arith, few, prune_tokens-length-le now tokens))
        | inr room ↦ rw room (add_token-length _ random (prune_tokens now tokens) room)
      ]

  issued-HasReview :
      (t : WebTrace) (action revision target : String) (random : Option String) (now : ℕ)
      (tokens : Tokens)
      → All (HasReview cfg t) tokens
      → All (HasReview cfg t) (issue_target_token cfg action revision target random now tokens).0
  unfolding issue_target_token
  issued-HasReview t action revision target random now tokens h =
      let live = prune_tokens-All (HasReview cfg t) now tokens h in
      elim (Bool-cases (leb max_tokens (length (prune_tokens now tokens)))) [
        | inl full ↦ rw full live
        | inr room ↦ rw room (
            add_token-HasReview t (new_token cfg action revision target now) random
              (prune_tokens now tokens) refl live)
      ]

  unless_stopped-All :
      (P : Tokens → Type 0) (issued : Option String) (stopped more : Tokens)
      → P stopped
      → P more
      → P (unless_stopped issued stopped more)
  unfolding unless_stopped
  unless_stopped-All P none stopped more h k = h
  unless_stopped-All P (some token) stopped more h k = k

  module _ (is_print : ℕ → Bool) where
    pub issue_forms-HasReview :
        (t : WebTrace) (now : ℕ) (forms : List PageForm) (tokens : Tokens)
        → All (HasReview cfg t) tokens
        → length tokens ≤ max_tokens
        → All (HasReview cfg t) (issue_forms is_print cfg now forms tokens)
          × (length (issue_forms is_print cfg now forms tokens) ≤ max_tokens)
    unfolding issue_forms
    issue_forms-HasReview t now [] tokens h few = (h, few)
    issue_forms-HasReview t now (f ∷ rest) tokens h few =
        let out = issue_target_token cfg f.action f.revision f.target f.random now tokens in
        let kept = issued-HasReview t f.action f.revision f.target f.random now tokens h in
        let fits = issued-length f.action f.revision f.target f.random now tokens few in
        unless_stopped-All (λ x. All (HasReview cfg t) x × (length x ≤ max_tokens)) out.1 out.0 _
          (kept, fits) (issue_forms-HasReview t now rest out.0 kept fits)

    -- A review stores its change with its token, and nothing else is changed.
    set_issued :
        (t : WebTrace) (token : String) (c : PolicyChange) (seen : Option ProjectDetail)
        (entry : FormToken) (tokens : Tokens)
        → All (HasReview cfg t) tokens
        → All
            (HasReview cfg (reviewed token c entry.revision entry.expires seen ∷ t))
            (set_change token c (add_token entry (some token) tokens).0)
    unfolding set_change add_token
    set_issued t token c seen entry tokens h = rw (eq_refl token) (
      (λ d e. stored_here d (cc e)),
      All-zip
          (λ f ne k d e.
            past_review token c entry.revision entry.expires seen t (λ x. ne (sym x)) (k d e))
          (delete_token tokens token) (delete_token-ne tokens token)
          (delete_token-All (HasReview cfg t) tokens token h),
    )
      where
        stored_here :
            (d : PolicyChange)
            → c ≡ d
            → Unspent token d entry.revision entry.expires
                (reviewed token c entry.revision entry.expires seen ∷ t)
        stored_here d e =
            subst
              (λ x.
                Unspent token x entry.revision entry.expires
                  (reviewed token c entry.revision entry.expires seen ∷ t))
              e (here seen t)

    added-IsServed :
        (s : WebState) (c : PolicyChange) (seen : Option ProjectDetail) (entry : FormToken)
        (random : Option String) (live : Tokens)
        → ShowsWidening seen c
        → All (HasReview cfg s.trace) live
        → leb max_tokens (length live) ≡ false
        → IsServed cfg s
        → IsServed cfg
            (answer_review is_print cfg s entry.revision entry.expires seen
              (stored c (add_token entry random live))).0
    unfolding answer_review stored add_token
    added-IsServed s c seen entry none live shows h few v = record {
      reviews = h;
      few = ground (arith, few);
      requests = v.requests;
      numbered = v.numbered;
      trace = v.trace;
    }
    added-IsServed s c seen entry (some token) live shows h few v = record {
      reviews = set_issued s.trace token c seen entry live h;
      few = omega (
        arith,
        set_change-length token c (add_token entry (some token) live).0,
        add_token-length entry (some token) live few,
      );
      requests =
          All-map
            (λ f k d e. open_past_review token c entry.revision entry.expires seen s.trace (k d e))
            s.open_requests v.requests;
      numbered = v.numbered;
      trace = review_event token c entry.revision entry.expires seen s.trace shows v.trace;
    }

    pub issue_commit-IsServed :
        (s : WebState) (revision : String) (reads : Reads) (found : Result WebError PolicyChange)
        → ((c : PolicyChange) → found ≡ ok c → ShowsWidening reads.detail c)
        → IsServed cfg s
        → IsServed cfg
            (answer_review is_print cfg s revision
              (reads.issue_now + form_lifetime)
              reads.detail
              (issue_commit cfg revision reads s.tokens found)).0
    unfolding issue_commit issue_target_token answer_review stored
    issue_commit-IsServed s revision reads (err e) shows v = record {
      reviews = v.reviews;
      few = v.few;
      requests = v.requests;
      numbered = v.numbered;
      trace = v.trace;
    }
    issue_commit-IsServed s revision reads (ok c) shows v =
        let live = prune_tokens reads.issue_now s.tokens in
        let kept = prune_tokens-All (HasReview cfg s.trace) reads.issue_now s.tokens v.reviews in
        elim (Bool-cases (leb max_tokens (length live))) [
          | inl full ↦ rw full (record {
            reviews = kept;
            few = omega (arith, v.few, prune_tokens-length-le reads.issue_now s.tokens);
            requests = v.requests;
            numbered = v.numbered;
            trace = v.trace;
          })
          | inr room ↦ rw room (
              added-IsServed s c reads.detail
                (new_token cfg "commit" revision c.alias reads.issue_now) reads.random live
                (shows c refl) kept room v)
        ]
