-- ===== src/Relay/Server/History.antt =====
-- What the broker's poll may tell after any requests that a relay has served.
use mathlib.Core.Path.{subst}
use secrets_broker.Base.{
  ℕ, ◌≤◌, String, ◌≡◌, refl, ap, sym, ◌∙◌, ◌⊎◌, inl, inr, Option, none, some, Bool, true, false,
  Bool-cases, Option-cases, not, ◌&&◌, List, [], ◌∷◌, ◌++◌, Any, arith, if◌then◌else◌, ltb, ◌||◌,
}
use secrets_broker.Go.{is_blank, byte_length}
use secrets_broker.Config.Validate.{Url}
use secrets_broker.Relay.Store.{
  Store, Request, approved, is_pending, is_past, Op, step, run, find, get, shown,
  new_store_with_limit,
}
use secrets_broker.Relay.Store.History.{Approves, approved_was_decided}
use secrets_broker.Relay.Server.{
  View, ok_view, view_of, status_of, DecisionRequest, is_valid_id, read_decision, parse_decision,
  same_origin, get_status,
}
use secrets_broker.Relay.Server.Origin.{IsFromHere, same_origin-IsFromHere}
use secrets_broker.Relay.Server.Trust.{parse_decision-eq_some}
use secrets_broker.Relay.Server.Serve.{
  Served, registration, decision, sweeping, serve, ops_of_word, ops_of_decision, ops_of_body,
  ops_of, all_ops, serve_one-run,
}

run-append : (xs ys : List (ℕ × Op)) (s : Store) → run (xs ++ ys) s ≡ run ys (run xs s)
unfolding run
run-append [] ys s = refl
run-append ((now, op) ∷ xs) ys s = run-append xs ys (step now op s)

Any-++ : (P : ℕ × Op → Type 0) (xs ys : List (ℕ × Op)) → Any P (xs ++ ys) → Any P xs ⊎ Any P ys
Any-++ P [] ys h = inr h
Any-++ P (x ∷ xs) ys (inl p) = inl (inl p)
Any-++ P (x ∷ xs) ys (inr h) = elim (Any-++ P xs ys h) [ inl l ↦ inl (inr l) | inr r ↦ inr r ]

shown-approved : (now : ℕ) (r : Request) → (shown now r).status ≡ approved → shown now r ≡ r
unfolding shown
shown-approved now r h = elim (Bool-cases (is_pending r.status && is_past now r)) [
  | inl late ↦ ground (arith, h, late)
  | inr kept ↦ rw kept refl
]

Any-if :
    (P : ℕ × Op → Type 0) (b : Bool) (xs : List (ℕ × Op))
    → Any P (if b then [] else xs)
    → (b ≡ false) × Any P xs
Any-if P true xs h = absurd h
Any-if P false xs h = (refl, h)

true_of_refuted : (b : Bool) → not b ≡ false → b ≡ true
true_of_refuted true h = refl
true_of_refuted false h = cc

get-approved :
    (id : String) (now : ℕ) (s : Store) (r : Request)
    → get id now s ≡ some r
    → r.status ≡ approved
    → find id s.requests ≡ some r
unfolding get
get-approved id now s r h a = elim (Option-cases (find id s.requests)) [
  | inl e ↦ ground (arith, h, e)
  | inr (q, e) ↦ ground (arith, h, e, a, shown-approved now q)
]

status_of-ok_view :
    (found : Option Request) (view : View)
    → status_of found ≡ ok_view view
    → (r : Request) × (found ≡ some r) × (view_of r ≡ view)
status_of-ok_view none view h = cc
status_of-ok_view (some r) view h = (r, refl, ground (arith, h))

-- A poll that tells "approved" found an approved request in the store.
get_status-approved :
    (id : String) (now : ℕ) (s : Store) (view : View)
    → get_status id now s ≡ ok_view view
    → view.status ≡ approved
    → (q : Request) × (find id s.requests ≡ some q)
      × (q.status ≡ approved)
      × (q.deadline ≡ view.deadline)
unfolding get_status
get_status-approved id now s view h a = elim (Bool-cases (is_valid_id id)) [
  | inr bad ↦ ground (arith, h, bad)
  | inl good ↦
      let (q, found, same) = status_of-ok_view (get id now s) view (ground (arith, h, good)) in
      let approved_q : q.status ≡ approved = ap (λ v. v.status) same ∙ a in
      (q, get-approved id now s q found approved_q, approved_q, ap (λ v. v.deadline) same)
]

module _ (parse_url : String → Option Url) (ttl : ℕ) where
  serve-run :
      (calls : List (ℕ × Served)) (s : Store)
      → serve parse_url ttl calls s ≡ run (all_ops parse_url ttl calls) s
  unfolding serve run
  serve-run [] s = refl
  serve-run ((now, call) ∷ rest) s =
      rw
        (
          run-append (ops_of parse_url ttl now call) (all_ops parse_url ttl rest) s,
          serve_one-run parse_url ttl now call s,
        )
        (serve-run rest _)

  -- The request is a decision "approve" for `id`, from the server's own pages or from no page, no later
  -- than `deadline`.
  abbrev pub IsApproval : String → ℕ → ℕ × Served → Type 0
  IsApproval id deadline (now, registration name body at) = ⊥
  IsApproval id deadline (now, decision r) =
      (r.id ≡ id) × (read_decision r ≡ some "approve") × IsFromHere parse_url r × (now ≤ deadline)
  IsApproval id deadline (now, sweeping older_than) = ⊥

  no_registration :
      (id name : String) (q : Request) (now : ℕ) (body : Option String)
      → ¬ Any (Approves id q) (ops_of_body parse_url ttl name now body)
  no_registration id name q now none h = h
  no_registration id name q now (some prompt) h =
      elim (Any-if _ (is_blank prompt || ltb 8192 (byte_length prompt)) _ h).1 [
        | inl (e, l) ↦ ground (arith, e)
        | inr n ↦ n
      ]

  IsApproval-word :
      (id : String) (q : Request) (now : ℕ) (r : DecisionRequest) (named : Option Bool)
      → Any (Approves id q) (ops_of_word parse_url ttl r now named)
      → (r.id ≡ id) × (named ≡ some true) × (now ≤ q.deadline)
  IsApproval-word id q now r none h = absurd h
  IsApproval-word id q now r (some approve) (inl (e, l)) = (ground (arith, e), ground (arith, e), l)
  IsApproval-word id q now r (some approve) (inr n) = absurd n

  IsApproval-given :
      (id : String) (q : Request) (now : ℕ) (r : DecisionRequest) (given : Option String)
      → Any (Approves id q) (ops_of_decision parse_url ttl r now given)
      → (r.id ≡ id) × (given ≡ some "approve") × (now ≤ q.deadline)
  IsApproval-given id q now r none h = absurd h
  IsApproval-given id q now r (some word) h =
      let (same, named, l) = IsApproval-word id q now r (parse_decision word) h in
      (same, ap some (parse_decision-eq_some word true named), l)

  IsApproval-ops_of :
      (id : String) (q : Request) (now : ℕ) (call : Served)
      → Any (Approves id q) (ops_of parse_url ttl now call)
      → IsApproval id q.deadline (now, call)
  IsApproval-ops_of id q now (registration name body at) h =
      no_registration id name q now body (Any-if _ (not (is_valid_id name)) _ h).1
  IsApproval-ops_of id q now (decision r) h =
      let (here, rest) = Any-if _ (not (same_origin parse_url r)) _ h in
      let (named, given) = Any-if _ (not (is_valid_id r.id)) _ rest in
      let (same, word, l) = IsApproval-given id q now r (read_decision r) given in
      (same, word, same_origin-IsFromHere parse_url r (true_of_refuted _ here), l)
  IsApproval-ops_of id q now (sweeping older_than) h = ground (arith, h)

  Any-all_ops :
      (id : String) (q : Request) (calls : List (ℕ × Served))
      → Any (Approves id q) (all_ops parse_url ttl calls)
      → Any (IsApproval id q.deadline) calls
  Any-all_ops id q [] h = h
  Any-all_ops id q ((now, call) ∷ rest) h = elim (Any-++ _ (ops_of parse_url ttl now call) _ h) [
    | inl l ↦ inl (IsApproval-ops_of id q now call l)
    | inr r ↦ inr (Any-all_ops id q rest r)
  ]

  -- Whatever requests a new relay has served, a poll that it answers with "approved" rests on a decision
  -- request "approve" for the polled identifier, that came from the server's own pages or from no page,
  -- no later than the deadline that the poll tells.
  pub approved_poll :
      (limit : ℕ) (calls : List (ℕ × Served)) (id : String) (now : ℕ) (view : View)
      → get_status id now (serve parse_url ttl calls (new_store_with_limit limit)) ≡ ok_view view
      → view.status ≡ approved
      → Any (IsApproval id view.deadline) calls
  approved_poll limit calls id now view h a =
      let (q, found, approved_q, deadline) = get_status-approved id now _ view h a in
      subst (λ d. Any (IsApproval id d) calls) deadline
        (Any-all_ops id q calls (
          approved_was_decided limit (all_ops parse_url ttl calls) id q
            (ap (λ s. find id s.requests) (sym (serve-run calls _)) ∙ found) approved_q))
