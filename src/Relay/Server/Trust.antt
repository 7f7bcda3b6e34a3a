-- ===== src/Relay/Server/Trust.antt =====
-- The decision endpoint of internal/relay/server.go: which requests change the store.
use secrets_broker.Base.{
  ◌↔◌, eqb, eqb-eq_iff, ℕ, String, ◌≡◌, refl, ap, ◌≢◌, ◌⊎◌, inl, inr, Option, none, some, Bool,
  true, false, Bool-cases, not, if◌then◌else◌, eq_iff, arith, Result, ok, err,
}
use secrets_broker.Config.Validate.{Url}
use secrets_broker.Relay.Store.{Store, decide, DecideError, not_found, has_expired, already_decided}
use secrets_broker.Relay.Server.Origin.{IsFromHere, same_origin-IsFromHere, IsFromHere-same_origin}
use secrets_broker.Relay.Server.{
  DecisionRequest, Response, cross_origin, invalid_id, status_code, is_valid_id, is_browser_form,
  read_decision, parse_decision, answer_decision, apply_decision, take_decision, same_origin,
  post_decision,
}

-- The word that a decision is given by.
abbrev pub word_of : Bool → String
word_of true = "approve"
word_of false = "deny"

module _ (parse_url : String → Option Url) where
  -- The request gives a decision that the store takes, and leaves the store as `t`.
  pub record Accepts (r : DecisionRequest) (now : ℕ) (s t : Store) : Type 0 where
    pub from_here : IsFromHere parse_url r
    pub id : is_valid_id r.id ≡ true
    pub approve : Bool
    pub decision : read_decision r ≡ some (word_of approve)
    pub taken : decide r.id approve now s ≡ ok t

parse_decision-word_of : (approve : Bool) → parse_decision (word_of approve) ≡ some approve
unfolding parse_decision
parse_decision-word_of true = refl
parse_decision-word_of false = refl

pub parse_decision-eq_some :
    (word : String) (approve : Bool) → parse_decision word ≡ some approve → word ≡ word_of approve
unfolding parse_decision
parse_decision-eq_some word true h = ground (arith, eq_iff word "approve", eq_iff word "deny")
parse_decision-eq_some word false h = ground (arith, eq_iff word "approve", eq_iff word "deny")

answer_decision-ok :
    (r : DecisionRequest) (word : String) (s : Store) (found : Result DecideError Store)
    → status_code (answer_decision r word s found).0 ≡ 200
    → found ≡ ok (answer_decision r word s found).1
answer_decision-ok r word s (ok t) h = refl
answer_decision-ok r word s (err not_found) h = ground arith
answer_decision-ok r word s (err has_expired) h = ground arith
answer_decision-ok r word s (err (already_decided status)) h = ground arith

answer_decision-code :
    (r : DecisionRequest) (word : String) (s t : Store) (found : Result DecideError Store)
    → found ≡ ok t
    → (status_code (answer_decision r word s found).0 ≡ 200)
      × ((answer_decision r word s found).1 ≡ t)
answer_decision-code r word s t found e = elim (Bool-cases (is_browser_form r)) [
  | inl form ↦ rw (e, form) (refl, refl)
  | inr json ↦ rw (e, json) (refl, refl)
]

answer_decision-refused :
    (r : DecisionRequest) (word : String) (s : Store) (found : Result DecideError Store)
    → status_code (answer_decision r word s found).0 ≢ 200
    → (answer_decision r word s found).1 ≡ s
answer_decision-refused r word s (err e) h = refl
answer_decision-refused r word s (ok t) h =
    absurd (h (answer_decision-code r word s t (ok t) refl).0)

-- The part of the handler behind the tests of the origin and the identifier.
apply_decision-ok :
    (r : DecisionRequest) (word : String) (named : Option Bool) (now : ℕ) (s : Store)
    → status_code (apply_decision r word named now s).0 ≡ 200
    → (approve : Bool) × (named ≡ some approve)
      × (decide r.id approve now s ≡ ok (apply_decision r word named now s).1)
unfolding apply_decision
apply_decision-ok r word none now s h = ground arith
apply_decision-ok r word (some approve) now s h = (approve, refl, answer_decision-ok r word s _ h)

take_decision-ok :
    (r : DecisionRequest) (given : Option String) (now : ℕ) (s : Store)
    → status_code (take_decision r given now s).0 ≡ 200
    → (approve : Bool) × (given ≡ some (word_of approve))
      × (decide r.id approve now s ≡ ok (take_decision r given now s).1)
unfolding take_decision
take_decision-ok r none now s h = ground arith
take_decision-ok r (some word) now s h =
    let (approve, named, taken) = apply_decision-ok r word (parse_decision word) now s h in
    (approve, ap some (parse_decision-eq_some word approve named), taken)

take_decision-code :
    (r : DecisionRequest) (approve : Bool) (now : ℕ) (s t : Store)
    → decide r.id approve now s ≡ ok t
    → (status_code (take_decision r (some (word_of approve)) now s).0 ≡ 200)
      × ((take_decision r (some (word_of approve)) now s).1 ≡ t)
unfolding take_decision apply_decision
take_decision-code r approve now s t e =
    rw (parse_decision-word_of approve) (answer_decision-code r (word_of approve) s t _ e)

take_decision-refused :
    (r : DecisionRequest) (given : Option String) (now : ℕ) (s : Store)
    → status_code (take_decision r given now s).0 ≢ 200
    → (take_decision r given now s).1 ≡ s
unfolding take_decision apply_decision
take_decision-refused r none now s h = refl
take_decision-refused r (some word) now s h = named_refused (parse_decision word) h
  where
    named_refused :
        (named : Option Bool)
        → status_code (apply_decision r word named now s).0 ≢ 200
        → (apply_decision r word named now s).1 ≡ s
    named_refused none n = refl
    named_refused (some approve) n = answer_decision-refused r word s _ n

-- The tests in front: an answer that is not a refusal has passed both.
behind_tests :
    (here named : Bool) (s : Store) (x : Response × Store)
    → status_code
        (if not here then (cross_origin, s) else if not named then (invalid_id, s) else x).0
      ≡ 200
    → (here ≡ true) × (named ≡ true) × (status_code x.0 ≡ 200)
behind_tests false named s x h = ground arith
behind_tests true false s x h = ground arith
behind_tests true true s x h = (refl, refl, h)

refused_by_tests :
    (here named : Bool) (s : Store) (x : Response × Store)
    → (status_code x.0 ≢ 200 → x.1 ≡ s)
    → status_code
        (if not here then (cross_origin, s) else if not named then (invalid_id, s) else x).0
      ≢ 200
    → (if not here then (cross_origin, s) else if not named then (invalid_id, s) else x).1 ≡ s
refused_by_tests false named s x k h = refl
refused_by_tests true false s x k h = refl
refused_by_tests true true s x k h = k h

module _ (parse_url : String → Option Url) (r : DecisionRequest) (now : ℕ) (s : Store) where
  abbrev answer : Response × Store
  answer = post_decision parse_url r now s

  post_decision-ok : status_code answer.0 ≡ 200 → Accepts parse_url r now s answer.1
  unfolding post_decision
  post_decision-ok h =
      let (here, named, c) = behind_tests (same_origin parse_url r) (is_valid_id r.id) s _ h in
      let (approve, given, taken) = take_decision-ok r (read_decision r) now s c in
      record {
        from_here = same_origin-IsFromHere parse_url r here;
        id = named;
        approve = approve;
        decision = given;
        taken = rw (here, named) taken;
      }

  post_decision-code :
      (t : Store) → Accepts parse_url r now s t → (status_code answer.0 ≡ 200) × (answer.1 ≡ t)
  unfolding post_decision
  post_decision-code t a =
      rw (IsFromHere-same_origin parse_url r a.from_here, a.id, a.decision)
        (take_decision-code r a.approve now s t a.taken)

  post_decision-refused : status_code answer.0 ≢ 200 → answer.1 ≡ s
  unfolding post_decision
  post_decision-refused =
      refused_by_tests (same_origin parse_url r) (is_valid_id r.id) s _
        (take_decision-refused r (read_decision r) now s)

  -- A decision is answered by 200 exactly when the request comes from the server's own pages or from no
  -- page, its identifier is well formed, it tells "approve" or "deny", and the store takes that decision;
  -- the store is then what `Decide` made of it. Any other answer leaves the store as it was.
  pub post_decision-Accepts :
      ((status_code (post_decision parse_url r now s).0 ≡ 200)
        ↔ Accepts parse_url r now s (post_decision parse_url r now s).1)
      × ((status_code (post_decision parse_url r now s).0 ≡ 200)
          ⊎ ((post_decision parse_url r now s).1 ≡ s))
  post_decision-Accepts = ((post_decision-ok, λ a. (post_decision-code _ a).0), taken_or_kept)
    where
      taken_or_kept : (status_code answer.0 ≡ 200) ⊎ (answer.1 ≡ s)
      taken_or_kept = elim (Bool-cases (eqb (status_code answer.0) 200)) [
        | inl same ↦ inl ((eqb-eq_iff (status_code answer.0) 200).0 same)
        | inr other ↦ inr (post_decision-refused (λ e. ground (arith, e, other)))
      ]
