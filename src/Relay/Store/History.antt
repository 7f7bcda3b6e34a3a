-- ===== src/Relay/Store/History.antt =====
-- What a store's content tells of the calls that it has seen.
use secrets_broker.Base.{
  ℕ, ◌≤◌, String, ◌≡◌, ◌≢◌, ◌⊎◌, some, true, false, Bool-cases, inl, inr, List, [], ◌∷◌, Any, All,
  arith, eq_iff, ◌==◌,
}
use secrets_broker.Relay.Store.{
  Store, Request, pending, approved, Op, creates, decides, sweeps, find, decided, sweep, step, run,
  is_swept, new_store_with_limit,
}
use secrets_broker.Relay.Store.Map.{find-update, find-sweep}
use secrets_broker.Relay.Store.Invariant.{
  IsValid, create_cases, decide_cases, step-IsValid, new_store-IsValid,
}

-- The call is an approval of `id` at a time up to the deadline of `r`.
abbrev pub Approves : String → Request → ℕ × Op → Type 0
Approves id r (now, op) = (op ≡ decides id true) × (now ≤ r.deadline)

step-approved :
    (id : String) (r : Request) (now : ℕ) (op : Op) (s : Store)
    → r.status ≡ approved
    → IsValid s
    → find id (step now op s).requests ≡ some r
    → (find id s.requests ≡ some r) ⊎ Approves id r (now, op)
unfolding step sweep find
step-approved id r now (creates j prompt ttl) s a v =
    create_cases
      (λ t.
        find id t.requests ≡ some r
        → (find id s.requests ≡ some r) ⊎ Approves id r (now, creates j prompt ttl))
      j prompt ttl now s inl (λ fresh room h. ground (arith, eq_iff j id))
step-approved id r now (decides j approve) s a v =
    decide_cases
      (λ t.
        find id t.requests ≡ some r
        → (find id s.requests ≡ some r) ⊎ Approves id r (now, decides j approve))
      j approve now s inl
      (λ q e live waiting h.
        ground
          (arith, eq_iff j id, find-update j id (record q { status = decided approve }) s.requests))
step-approved id r now (sweeps older_than) s a v =
    λ h. inl (ground (arith, find-sweep older_than now id s.requests v.unique))

run-approved :
    (id : String) (r : Request) (ops : List (ℕ × Op)) (s : Store)
    → r.status ≡ approved
    → IsValid s
    → find id (run ops s).requests ≡ some r
    → (find id s.requests ≡ some r) ⊎ Any (Approves id r) ops
unfolding run
run-approved id r [] s a v h = inl h
run-approved id r ((now, op) ∷ ops) s a v h =
    elim (run-approved id r ops (step now op s) a (step-IsValid now op s v) h) [
      | inl there ↦ elim (step-approved id r now op s a v there) [
        | inl old ↦ inl old
        | inr by ↦ inr (inl by)
      ]
      | inr later ↦ inr (inr later)
    ]

-- A request that is approved in a store was approved by a call for its identifier, made no later than
-- its deadline: nothing else turns a request into an approved one.
pub approved_was_decided :
    (limit : ℕ) (ops : List (ℕ × Op)) (id : String) (r : Request)
    → find id (run ops (new_store_with_limit limit)).requests ≡ some r
    → r.status ≡ approved
    → Any (Approves id r) ops
unfolding find
approved_was_decided limit ops id r h a =
    elim (run-approved id r ops (new_store_with_limit limit) a (new_store-IsValid limit) h) [
      | inl old ↦ absurd (nothing old)
      | inr by ↦ by
    ]
  where
    nothing : find id [] ≡ some r → ⊥
    nothing e = cc

-- No sweep among the calls is old enough for the request.
abbrev pub Spares : Request → ℕ × Op → Type 0
Spares r (now, creates id prompt ttl) = Unit
Spares r (now, decides id approve) = Unit
Spares r (now, sweeps older_than) = is_swept older_than now r ≡ false

step-decided :
    (id : String) (r : Request) (now : ℕ) (op : Op) (s : Store)
    → IsValid s
    → r.status ≢ pending
    → find id s.requests ≡ some r
    → Spares r (now, op)
    → find id (step now op s).requests ≡ some r
unfolding step sweep find
step-decided id r now (creates j prompt ttl) s v d h k =
    create_cases (λ t. find id t.requests ≡ some r) j prompt ttl now s h
      (λ fresh room. ground (arith, eq_iff j id))
step-decided id r now (decides j approve) s v d h k =
    decide_cases (λ t. find id t.requests ≡ some r) j approve now s h
      (λ q e live waiting. elim (Bool-cases (j == id)) [
        | inl hit ↦ absurd (d (ground (arith, eq_iff j id)))
        | inr miss ↦
            rw (find-update j id (record q { status = decided approve }) s.requests, miss) h
      ])
step-decided id r now (sweeps older_than) s v d h k =
    ground (arith, find-sweep older_than now id s.requests v.unique)

-- A decided request keeps its decision, its prompt and its deadline through any calls, until a sweep
-- whose age its deadline has passed removes it.
pub decision_final :
    (ops : List (ℕ × Op)) (id : String) (r : Request) (s : Store)
    → IsValid s
    → r.status ≢ pending
    → find id s.requests ≡ some r
    → All (Spares r) ops
    → find id (run ops s).requests ≡ some r
unfolding run
decision_final [] id r s v d h k = h
decision_final ((now, op) ∷ ops) id r s v d h k =
    decision_final ops id r (step now op s) (step-IsValid now op s v) d
      (step-decided id r now op s v d h k.0) k.1
