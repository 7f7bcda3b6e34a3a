-- ===== src/Relay/Server/Serve.antt =====
-- What a relay serves over its lifetime, and the calls of the store that it comes down to.
use secrets_broker.Base.{
  ℕ, String, ◌≡◌, refl, inl, inr, Option, none, some, Bool, Bool-cases, not, List, [], ◌∷◌, ◌++◌,
  Result, ok, err, if◌then◌else◌, ltb, ◌||◌,
}
use secrets_broker.Go.{is_blank, byte_length}
use secrets_broker.Config.Validate.{Url}
use secrets_broker.Relay.Store.{
  Store, CreateError, DecideError, Op, creates, decides, sweeps, decide, sweep, step, run, after,
}
use secrets_broker.Relay.Server.{
  DecisionRequest, is_valid_id, read_decision, parse_decision, post_request, post_body,
  answer_create, post_decision, answer_decision, take_decision, apply_decision, same_origin,
}

-- What a relay serves that may change its store. The second time is that of the `Get` behind `Create`.
pub data Served : Type 0 where
  registration : String → Option String → ℕ → Served
  decision : DecisionRequest → Served
  sweeping : ℕ → Served

module _ (parse_url : String → Option Url) (ttl : ℕ) where
  unfoldable pub serve_one : ℕ → Served → Store → Store
  serve_one now (registration id body at) s = (post_request ttl id body now at s).1
  serve_one now (decision r) s = (post_decision parse_url r now s).1
  serve_one now (sweeping older_than) s = (sweep older_than now s).0

  unfoldable pub serve : List (ℕ × Served) → Store → Store
  serve [] s = s
  serve ((now, call) ∷ rest) s = serve rest (serve_one now call s)

  -- The calls of the store that a request leads to.
  abbrev pub ops_of_word : DecisionRequest → ℕ → Option Bool → List (ℕ × Op)
  ops_of_word r now none = []
  ops_of_word r now (some approve) = (now, decides r.id approve) ∷ []

  abbrev pub ops_of_decision : DecisionRequest → ℕ → Option String → List (ℕ × Op)
  ops_of_decision r now none = []
  ops_of_decision r now (some word) = ops_of_word r now (parse_decision word)

  abbrev pub ops_of_body : String → ℕ → Option String → List (ℕ × Op)
  ops_of_body id now none = []
  ops_of_body id now (some prompt) =
      if is_blank prompt || ltb 8192 (byte_length prompt)
      then []
      else (now, creates id prompt ttl) ∷ []

  abbrev pub ops_of : ℕ → Served → List (ℕ × Op)
  ops_of now (registration id body at) =
      if not (is_valid_id id) then [] else ops_of_body id now body
  ops_of now (decision r) =
      if not (same_origin parse_url r)
      then []
      else if not (is_valid_id r.id)
      then []
      else ops_of_decision r now (read_decision r)
  ops_of now (sweeping older_than) = (now, sweeps older_than) ∷ []

  abbrev pub all_ops : List (ℕ × Served) → List (ℕ × Op)
  all_ops [] = []
  all_ops ((now, call) ∷ rest) = ops_of now call ++ all_ops rest

  answer_create-after :
      (id : String) (at : ℕ) (s : Store) (made : Result CreateError Store)
      → (answer_create id at s made).1 ≡ after s made
  unfolding answer_create
  answer_create-after id at s (err e) = refl
  answer_create-after id at s (ok t) = refl

  post_body-run :
      (id : String) (body : Option String) (now at : ℕ) (s : Store)
      → (post_body ttl id body now at s).1 ≡ run (ops_of_body id now body) s
  unfolding post_body run step
  post_body-run id none now at s = refl
  post_body-run id (some prompt) now at s =
      elim (Bool-cases (is_blank prompt || ltb 8192 (byte_length prompt))) [
        | inl bad ↦ rw bad refl
        | inr good ↦ rw good (answer_create-after id at s _)
      ]

  post_request-run :
      (id : String) (body : Option String) (now at : ℕ) (s : Store)
      → (post_request ttl id body now at s).1 ≡ run (ops_of now (registration id body at)) s
  unfolding post_request run
  post_request-run id body now at s = elim (Bool-cases (is_valid_id id)) [
    | inl good ↦ rw good (post_body-run id body now at s)
    | inr bad ↦ rw bad refl
  ]

  answer_decision-after :
      (r : DecisionRequest) (word : String) (s : Store) (made : Result DecideError Store)
      → (answer_decision r word s made).1 ≡ after s made
  answer_decision-after r word s (err e) = refl
  answer_decision-after r word s (ok t) = refl

  apply_decision-run :
      (r : DecisionRequest) (word : String) (named : Option Bool) (now : ℕ) (s : Store)
      → (apply_decision r word named now s).1 ≡ run (ops_of_word r now named) s
  unfolding apply_decision run step
  apply_decision-run r word none now s = refl
  apply_decision-run r word (some approve) now s =
      answer_decision-after r word s (decide r.id approve now s)

  take_decision-run :
      (r : DecisionRequest) (given : Option String) (now : ℕ) (s : Store)
      → (take_decision r given now s).1 ≡ run (ops_of_decision r now given) s
  unfolding take_decision run
  take_decision-run r none now s = refl
  take_decision-run r (some word) now s = apply_decision-run r word (parse_decision word) now s

  post_decision-run :
      (r : DecisionRequest) (now : ℕ) (s : Store)
      → (post_decision parse_url r now s).1 ≡ run (ops_of now (decision r)) s
  unfolding post_decision run
  post_decision-run r now s = elim (Bool-cases (same_origin parse_url r)) [
    | inr away ↦ rw away refl
    | inl here ↦ elim (Bool-cases (is_valid_id r.id)) [
      | inl good ↦ rw (here, good) (take_decision-run r (read_decision r) now s)
      | inr bad ↦ rw (here, bad) refl
    ]
  ]

  pub serve_one-run :
      (now : ℕ) (call : Served) (s : Store) → serve_one now call s ≡ run (ops_of now call) s
  unfolding serve_one run step
  serve_one-run now (registration id body at) s = post_request-run id body now at s
  serve_one-run now (decision r) s = post_decision-run r now s
  serve_one-run now (sweeping older_than) s = refl
