-- ===== src/Relay/Store/Decisions.antt =====
-- `Decide` on every branch, and `Get`.
use secrets_broker.Base.{
  ℕ, ◌≤◌, ◌<◌, String, ◌≡◌, refl, ◌≢◌, Option, none, some, Bool, Bool-cases, inl, inr, arith,
  if◌then◌else◌, ◌==◌, Result, ok, err,
}
use secrets_broker.Relay.Store.{
  Store, Request, pending, DecideError, not_found, has_expired, already_decided, find, update,
  decide, decide_found, decided, is_past, is_pending,
}
use secrets_broker.Relay.Store.Map.{find-update}

module _ (id : String) (approve : Bool) (now : ℕ) (s : Store) where
  -- What each answer of `Decide` means. The answers exclude one another.
  abbrev pub Meaning : Result DecideError Store → Type 0
  Meaning (ok t) =
      (r : Request) × (find id s.requests ≡ some r)
      × (now ≤ r.deadline)
      × (r.status ≡ pending)
      × (t.limit ≡ s.limit)
      × ((j : String)
          → find j t.requests
            ≡ (if id == j then some (record r { status = decided approve }) else find j s.requests))
  Meaning (err not_found) = find id s.requests ≡ none
  Meaning (err has_expired) = (r : Request) × (find id s.requests ≡ some r) × (r.deadline < now)
  Meaning (err (already_decided status)) =
      (r : Request) × (find id s.requests ≡ some r)
      × (now ≤ r.deadline)
      × (r.status ≡ status)
      × (status ≢ pending)

  updated :
      (r : Request) (new : Request)
      → find id s.requests ≡ some r
      → (j : String)
      → find j (update id new s.requests) ≡ (if id == j then some new else find j s.requests)
  updated r new e j = rw (find-update id j new s.requests, e)

  decide_found-Meaning :
      (found : Option Request)
      → find id s.requests ≡ found
      → Meaning (decide_found found id approve now s)
  unfolding decide_found
  decide_found-Meaning none e = e
  decide_found-Meaning (some r) e = elim (Bool-cases (is_past now r)) [
    | inl past ↦ rw past (r, e, ground arith)
    | inr live ↦ elim (Bool-cases (is_pending r.status)) [
      | inl waiting ↦ rw (live, waiting) (r, e, ground arith, ground arith, refl, updated r _ e)
      | inr shut ↦ rw (live, shut) (r, e, ground arith, refl, λ h. ground arith)
    ]
  ]

-- `Decide` answers exactly so: unknown for an identifier that is not in the store; expired after the
-- deadline, whatever the status; already decided up to the deadline when the status is not pending; and
-- otherwise it sets the status of that request to the decision, and changes nothing else.
pub decide-Meaning :
    (id : String) (approve : Bool) (now : ℕ) (s : Store)
    → Meaning id approve now s (decide id approve now s)
unfolding decide
decide-Meaning id approve now s = decide_found-Meaning id approve now s (find id s.requests) refl
