-- ===== src/Web/Serve/Invariant.antt =====
-- The invariant of the web server: its tokens, its open requests and its trace; and the operations on the open
-- requests.
use Prim.Native.String
use mathlib.Core.Path.{subst}
use secrets_broker.Base.{
  ℕ, ◌≤◌, ◌<◌, String, ◌≡◌, ◌≢◌, inl, inr, Option, some, true, not, eqb, eqb-eq_iff, List, [], ◌∷◌,
  All, length, ok, arith,
}
use secrets_broker.Admin.Editor.{ProjectDetail}
use secrets_broker.Admin.Editor.Spec.{Edit}
use secrets_broker.Web.{WebConfig, PolicyChange, FormToken}
use secrets_broker.Web.Forms.{Form, form_value}
use secrets_broker.Web.Tokens.{max_tokens}
use secrets_broker.Web.Tokens.Live.{if-some-cases, All-keep, keep-All, All-map}
use secrets_broker.Web.Guard.{WebRequest, admit, check_form}
use secrets_broker.Web.Commit.{edit_of}
use secrets_broker.Web.Controls.Widening.{ShowsWidening}
use secrets_broker.Web.Serve.{
  reviewed, edited, taken, OpenRequest, find_open, delete_open, WebTrace, WebState,
}

-- The token was stored for the change in a review, and neither taken nor stored again since.
pub data Unspent (token : String) (c : PolicyChange) (revision : String) (expires : ℕ)
    : WebTrace → Type 0 where
  here :
      (seen : Option ProjectDetail) (t : WebTrace)
      → Unspent token c revision expires (reviewed token c revision expires seen ∷ t)
  past_review :
      (k : String) (d : PolicyChange) (r : String) (until : ℕ) (seen : Option ProjectDetail)
      (t : WebTrace)
      → k ≢ token
      → Unspent token c revision expires t
      → Unspent token c revision expires (reviewed k d r until seen ∷ t)
  past_taken :
      (id : ℕ) (k : String) (q : WebRequest) (now : ℕ) (t : WebTrace)
      → k ≢ token
      → Unspent token c revision expires t
      → Unspent token c revision expires (taken id k q now ∷ t)
  past_edit :
      (id : ℕ) (r : String) (e : Edit) (t : WebTrace)
      → Unspent token c revision expires t
      → Unspent token c revision expires (edited id r e ∷ t)

module _ (cfg : WebConfig) where
  -- A request for a change, with the revision for which it was reviewed: the token is unspent and has not
  -- expired, and the request comes from the administrator, from a form of these pages, with this token.
  pub record IsAuthentic (token : String) (c : PolicyChange) (revision : String) (form : Form)
      (q : WebRequest) (now : ℕ) (t : WebTrace) : Type 0 where
    pub expires : ℕ
    pub unspent : Unspent token c revision expires t
    pub in_time : now < expires
    pub admitted : admit cfg q ≡ ok tt
    pub origin : q.origins ≡ String.◌++◌ "https://" cfg.host ∷ []
    pub read : check_form cfg q ≡ ok form
    pub csrf : token ≡ form_value form "csrf"

  -- The request of the number has taken the token of a review, and made no edit since.
  pub data IsOpen (id : ℕ) (token : String) (c : PolicyChange) (revision : String) (form : Form)
      : WebTrace → Type 0 where
    opened :
        (q : WebRequest) (now : ℕ) (t : WebTrace)
        → IsAuthentic token c revision form q now t
        → IsOpen id token c revision form (taken id token q now ∷ t)
    open_past_review :
        (k : String) (d : PolicyChange) (r : String) (until : ℕ) (seen : Option ProjectDetail)
        (t : WebTrace)
        → IsOpen id token c revision form t
        → IsOpen id token c revision form (reviewed k d r until seen ∷ t)
    open_past_taken :
        (i : ℕ) (k : String) (q : WebRequest) (now : ℕ) (t : WebTrace)
        → i ≢ id
        → IsOpen id token c revision form t
        → IsOpen id token c revision form (taken i k q now ∷ t)
    open_past_edit :
        (i : ℕ) (r : String) (e : Edit) (t : WebTrace)
        → i ≢ id
        → IsOpen id token c revision form t
        → IsOpen id token c revision form (edited i r e ∷ t)

  -- An edit of an open request, which confirms the change if it widens what the policy allows.
  pub record IsConfirmed (id : ℕ) (revision : String) (edit : Edit) (t : WebTrace) : Type 0 where
    pub token : String
    pub change : PolicyChange
    pub form : Form
    pub request : IsOpen id token change revision form t
    pub confirmed : change.widen ≡ true → form_value form "confirm" ≡ "yes"
    pub detail : Option ProjectDetail
    pub made : edit_of change detail ≡ ok edit

  pub data IsReviewed : WebTrace → Type 0 where
    no_events : IsReviewed []
    review_event :
        (k : String) (c : PolicyChange) (r : String) (until : ℕ) (seen : Option ProjectDetail)
        (t : WebTrace)
        → ShowsWidening seen c
        → IsReviewed t
        → IsReviewed (reviewed k c r until seen ∷ t)
    taken_event :
        (id : ℕ) (k : String) (q : WebRequest) (now : ℕ) (t : WebTrace)
        → IsReviewed t
        → IsReviewed (taken id k q now ∷ t)
    edit_event :
        (id : ℕ) (r : String) (e : Edit) (t : WebTrace)
        → IsConfirmed id r e t
        → IsReviewed t
        → IsReviewed (edited id r e ∷ t)

  -- A token with a change is the unspent one of its review.
  abbrev pub HasReview : WebTrace → String × FormToken → Type 0
  HasReview t f =
      (c : PolicyChange) → f.1.change ≡ some c → Unspent f.0 c f.1.revision f.1.expires t

  -- An open request whose token had a change.
  abbrev pub HasTaken : WebTrace → ℕ × OpenRequest → Type 0
  HasTaken t f =
      (c : PolicyChange)
      → f.1.passed.entry.change ≡ some c
      → IsOpen f.0 f.1.passed.token c f.1.passed.entry.revision f.1.passed.form t

  pub record IsServed (s : WebState) : Type 0 where
    pub reviews : All (HasReview s.trace) s.tokens
    pub few : length s.tokens ≤ max_tokens
    pub requests : All (HasTaken s.trace) s.open_requests
    pub numbered : All (λ f. f.0 < s.next) s.open_requests
    pub trace : IsReviewed s.trace

pub find_open-All :
    (P : ℕ × OpenRequest → Type 0) (requests : List (ℕ × OpenRequest)) (id : ℕ) (o : OpenRequest)
    → All P requests
    → find_open requests id ≡ some o
    → P (id, o)
unfolding find_open
find_open-All P [] id o h f = cc
find_open-All P ((k, d) ∷ rest) id o h f = elim (if-some-cases (eqb k id) f) [
  | inl (same, found) ↦
      subst (λ x. P (x, o)) ((eqb-eq_iff k id).0 same) (subst (λ x. P (k, x)) found h.0)
  | inr (other, later) ↦ find_open-All P rest id o h.1 later
]

pub delete_open-All :
    (P : ℕ × OpenRequest → Type 0) (requests : List (ℕ × OpenRequest)) (id : ℕ)
    → All P requests
    → All P (delete_open requests id)
unfolding delete_open
delete_open-All P requests id h = All-keep P _ requests h

pub delete_open-ne :
    (requests : List (ℕ × OpenRequest)) (id : ℕ) → All (λ f. f.0 ≢ id) (delete_open requests id)
unfolding delete_open
delete_open-ne requests id =
    All-map (λ f h e. ground (arith, h, (eqb-eq_iff f.0 id).1 e)) _
      (keep-All (λ f. not (eqb f.0 id)) requests)
