-- ===== src/Relay/Store/Examples.antt =====
-- The store's theorems at two requests, of which one is approved in time.
use secrets_broker.Base.{ℕ, ◌≤◌, ◌↔◌, ◌≡◌, refl, some, true, false, List, [], ◌∷◌, Any}
use secrets_broker.Relay.Store.{
  Request, Op, pending_requests, pending, approved, creates, decides, sweeps, new_store_with_limit,
  new_request, run, find, step, create, decide, decide_found, update,
}
use secrets_broker.Relay.Store.Invariant.{IsValid, run-IsValid, new_store-IsValid}
use secrets_broker.Relay.Store.Decisions.{Meaning, decide-Meaning}
use secrets_broker.Relay.Store.Listing.{IsSorted, HasDistinctIds, pending_requests_lem}
use secrets_broker.Relay.Store.History.{Approves, approved_was_decided, decision_final}

abbrev two_requests : List (ℕ × Op)
two_requests = (10, creates "a" "run a" 100) ∷ (20, creates "b" "run b" 100) ∷ []

abbrev approval_of_a : List (ℕ × Op)
approval_of_a =
    (10, creates "a" "run a" 100) ∷ (20, creates "b" "run b" 100) ∷ (50, decides "a" true) ∷ []

abbrev approved_a : Request
approved_a = record (new_request "a" "run a" 100 10) { status = approved }

a_is_approved : find "a" (run approval_of_a (new_store_with_limit 8)).requests ≡ some approved_a
unfolding run find step create decide decide_found update
a_is_approved = refl

run-IsValid_example : IsValid (run approval_of_a (new_store_with_limit 2))
run-IsValid_example = run-IsValid approval_of_a (new_store_with_limit 2) (new_store-IsValid 2)

decide-Meaning_example :
    Meaning "a" true 50
      (run two_requests (new_store_with_limit 8))
      (decide "a" true 50 (run two_requests (new_store_with_limit 8)))
decide-Meaning_example = decide-Meaning "a" true 50 (run two_requests (new_store_with_limit 8))

approved_was_decided_example : Any (Approves "a" approved_a) approval_of_a
approved_was_decided_example =
    approved_was_decided 8 approval_of_a "a" approved_a a_is_approved refl

decision_final_example :
    find "a"
      (run
        ((60, decides "a" false) ∷ (100, sweeps 600) ∷ [])
        (run approval_of_a (new_store_with_limit 8))).requests
    ≡ some approved_a
decision_final_example =
    decision_final ((60, decides "a" false) ∷ (100, sweeps 600) ∷ []) "a" approved_a
      (run approval_of_a (new_store_with_limit 8))
      (run-IsValid approval_of_a (new_store_with_limit 8) (new_store-IsValid 8)) (λ h. cc)
      a_is_approved (tt, (refl, tt))

pending_requests_lem_example :
    IsSorted (pending_requests 60 (run two_requests (new_store_with_limit 8)))
    × HasDistinctIds (pending_requests 60 (run two_requests (new_store_with_limit 8)))
    × ((r : Request)
        → Any (λ x. x ≡ r) (pending_requests 60 (run two_requests (new_store_with_limit 8)))
          ↔ Any
              (λ e. (e.1.status ≡ pending) × (60 ≤ e.1.deadline) × (e.1 ≡ r))
              (run two_requests (new_store_with_limit 8)).requests)
pending_requests_lem_example =
    pending_requests_lem 60 (run two_requests (new_store_with_limit 8))
      (run-IsValid two_requests (new_store_with_limit 8) (new_store-IsValid 8))
