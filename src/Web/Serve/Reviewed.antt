-- ===== src/Web/Serve/Reviewed.antt =====
-- The requests of the administrator's web pages, from the guard to the handler, and sequences of them.
use mathlib.Core.Path.{subst}
use secrets_broker.Base.{
  ℕ, String, ◌≡◌, refl, sym, ◌∙◌, ◌≢◌, inl, inr, Option, Bool, Bool-cases, ◌||◌, List, [], ◌∷◌, All,
  Result, Check, ok, err, arith,
}
use secrets_broker.Web.{WebConfig, WebError}
use secrets_broker.Web.Tokens.{Tokens, take_token, prune_tokens}
use secrets_broker.Web.Tokens.Live.{All-map, All-zip, take_token-ok, delete_token-ne}
use secrets_broker.Web.Guard.{WebRequest, Passed, admit, protect_post}
use secrets_broker.Web.Guard.Passes.{
  check_form-origin, protect_post-IsPassed, protect_post-All, protect_post-length-le,
}
use secrets_broker.Web.Serve.{
  WebState, WebCall, posted, resumed, page_shown, find_open, review_actions, check_actions,
  is_one_of, after_guard, serve_post, serve_admitted, serve_web, serve_all,
}
use secrets_broker.Web.Serve.Invariant.{
  past_taken, opened, open_past_taken, taken_event, HasReview, IsServed,
}
use secrets_broker.Web.Serve.Issued.{issue_forms-HasReview}
use secrets_broker.Web.Serve.Handled.{resume-IsServed}

module _ (cfg : WebConfig) (is_print : ℕ → Bool) where
  take_token-ne :
      (token action : String) (now : ℕ) (tokens : Tokens)
      → All (λ f. f.0 ≢ token) (take_token cfg token action now tokens).0
  unfolding take_token
  take_token-ne token action now tokens = delete_token-ne (prune_tokens now tokens) token

  after_guard-IsServed :
      (action : String) (s : WebState) (q : WebRequest) (now : ℕ) (current : Option String)
      (tokens : Tokens) (result : Result WebError Passed)
      → (protect_post cfg action q now current s.tokens).0 ≡ tokens
      → (protect_post cfg action q now current s.tokens).1 ≡ result
      → admit cfg q ≡ ok tt
      → IsServed cfg s
      → IsServed cfg (record s { tokens = tokens })
      → IsServed cfg (after_guard is_print cfg action (record s { tokens = tokens }) q now result).0
  unfolding after_guard
  after_guard-IsServed action s q now current tokens (err e) left found admitted before after =
      after
  after_guard-IsServed action s q now current tokens (ok p) left found admitted before after =
      let passed = protect_post-IsPassed cfg action now current s.tokens q p found in
      let (entry, in_time, _, _) =
        take_token-ok (HasReview cfg s.trace) cfg p.token action now s.tokens p.entry before.reviews
          passed.taken in
      let gone =
        subst (All (λ f. f.0 ≢ p.token)) (sym passed.left ∙ left)
          (take_token-ne p.token action now s.tokens) in
      record {
        reviews =
            All-zip
              (λ f ne k d e. past_taken s.next p.token q now s.trace (λ x. ne (sym x)) (k d e))
              tokens gone after.reviews;
        few = after.few;
        requests = (
          λ c change. opened q now s.trace (record {
            expires = p.entry.expires;
            unspent = entry c change;
            in_time = in_time;
            admitted = admitted;
            origin = (check_form-origin cfg q p.form passed.form).1;
            read = passed.form;
            csrf = passed.token;
          }),
          All-zip
              (λ f older k d e.
                open_past_taken s.next p.token q now s.trace (λ x. ground (arith, older, x))
                  (k d e))
              s.open_requests after.numbered after.requests,
        );
        numbered =
            (omega arith, All-map (λ f older. omega (arith, older)) s.open_requests after.numbered);
        trace = taken_event s.next p.token q now s.trace after.trace;
      }

  serve_post-IsServed :
      (action : String) (s : WebState) (q : WebRequest) (now : ℕ) (current : Option String)
      → admit cfg q ≡ ok tt
      → IsServed cfg s
      → IsServed cfg (serve_post is_print cfg action s q now current).0
  unfolding serve_post
  serve_post-IsServed action s q now current admitted v =
      after_guard-IsServed action s q now current _ _ refl refl admitted v (record {
        reviews =
            protect_post-All cfg action now current s.tokens (HasReview cfg s.trace) q v.reviews;
        few = omega (arith, v.few, protect_post-length-le cfg action now current s.tokens q);
        requests = v.requests;
        numbered = v.numbered;
        trace = v.trace;
      })

  serve_admitted-IsServed :
      (action : String) (s : WebState) (q : WebRequest) (now : ℕ) (current : Option String)
      (checked : Check WebError)
      → admit cfg q ≡ checked
      → IsServed cfg s
      → IsServed cfg (serve_admitted is_print cfg action s q now current checked).0
  unfolding serve_admitted
  serve_admitted-IsServed action s q now current (err e) admitted v = v
  serve_admitted-IsServed action s q now current (ok u) admitted v =
      elim (Bool-cases
        (is_one_of ("commit" ∷ review_actions) action || is_one_of check_actions action)) [
          | inl known ↦ rw known (serve_post-IsServed action s q now current admitted v)
          | inr unknown ↦ rw unknown v
        ]

  pub serve_web-IsServed :
      (call : WebCall) (s : WebState)
      → IsServed cfg s
      → IsServed cfg (serve_web is_print cfg call s).0
  unfolding serve_web
  serve_web-IsServed (posted action q now current) s v =
      serve_admitted-IsServed action s q now current (admit cfg q) refl v
  serve_web-IsServed (resumed id a) s v =
      resume-IsServed cfg is_print s id a (find_open s.open_requests id) refl v
  serve_web-IsServed (page_shown now forms) s v =
      let (reviews, few) =
        issue_forms-HasReview cfg is_print s.trace now forms s.tokens v.reviews v.few in
      record {
        reviews = reviews;
        few = few;
        requests = v.requests;
        numbered = v.numbered;
        trace = v.trace;
      }

  -- Over any sequence of requests, handlers and pages, in which the handlers of several requests may
  -- interleave, and whatever the policy's readers and the editor answer, every call of the editor makes a
  -- change that was reviewed for the same policy revision: its request, which makes no other call, took a
  -- token that the review has stored for the change, that had not expired and that no request has taken
  -- since; it passed the tests for the administrator's login, and came from a form of the own origin with that
  -- token, which confirmed the change if it widens what the policy allows; and the call is the one for
  -- that change. A change widens it, by the project as the review had read it, when it gives another
  -- Bitwarden project, token entry or working directory, turns the mode to automatic, or adds an
  -- allowlist entry; the creation of a project and the removal of an entry do not. There are never more than 128 tokens, and each that is stored for a change was not taken.
  -- The server starts in such a state, as it does without tokens, requests and events.
  pub serve_all-IsServed :
      (calls : List WebCall) (s : WebState)
      → IsServed cfg s
      → IsServed cfg (serve_all is_print cfg calls s)
  unfolding serve_all
  serve_all-IsServed [] s v = v
  serve_all-IsServed (call ∷ rest) s v =
      serve_all-IsServed rest (serve_web is_print cfg call s).0 (serve_web-IsServed call s v)
