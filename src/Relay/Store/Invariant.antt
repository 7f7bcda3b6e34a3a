-- ===== src/Relay/Store/Invariant.antt =====
-- The store's invariant, and that every call keeps it.
use secrets_broker.Base.{
  ℕ, ◌≤◌, String, ◌≡◌, refl, ◌≢◌, Option, none, some, Bool, Bool-cases, inl, inr, List, [], ◌∷◌,
  All, length, leb, arith, suc, is_some, is_some-eq_false,
}
use secrets_broker.Relay.Store.{
  Store, Request, pending, expired, Op, creates, decides, sweeps, new_store_with_limit, new_request,
  find, update, create, decide, decide_found, decided, sweep, step, run, after, is_past, is_pending,
}
use secrets_broker.Relay.Store.Map.{
  HasUniqueKeys, update-HasUniqueKeys, sweep-HasUniqueKeys, length-update, length-sweep, All-update,
  All-sweep, All-find,
}

-- A request stands under its own identifier, and `expired` is never stored.
abbrev pub IsEntry : String × Request → Type 0
IsEntry (k, r) = (r.id ≡ k) × (r.status ≢ expired)

pub record IsValid (s : Store) : Type 0 where
  pub unique : HasUniqueKeys s.requests
  pub entries : All IsEntry s.requests
  pub bounded : length s.requests ≤ s.limit

-- What holds of a store, and of it with the new request where a new one is made, holds after `create`.
pub create_cases {ℓ} :
    (P : Store → Type ℓ) (id prompt : String) (ttl now : ℕ) (s : Store)
    → P s
    → (find id s.requests ≡ none
        → suc (length s.requests) ≤ s.limit
        → P (record s { requests = (id, new_request id prompt ttl now) ∷ s.requests }))
    → P (after s (create id prompt ttl now s))
unfolding create
create_cases P id prompt ttl now s old new = elim (Bool-cases (is_some (find id s.requests))) [
  | inl e ↦ rw e old
  | inr e ↦ elim (Bool-cases (leb s.limit (length s.requests))) [
    | inl full ↦ rw (e, full) old
    | inr room ↦ rw (e, room) (new (is_some-eq_false _ e) (ground arith))
  ]
]

decide_found_cases {ℓ} :
    (P : Store → Type ℓ) (found : Option Request) (id : String) (approve : Bool) (now : ℕ)
    (s : Store)
    → P s
    → ((r : Request)
        → found ≡ some r
        → now ≤ r.deadline
        → r.status ≡ pending
        → P (record s { requests = update id (record r { status = decided approve }) s.requests }))
    → P (after s (decide_found found id approve now s))
unfolding decide_found
decide_found_cases P none id approve now s old new = old
decide_found_cases P (some r) id approve now s old new = elim (Bool-cases (is_past now r)) [
  | inl past ↦ rw past old
  | inr live ↦ elim (Bool-cases (is_pending r.status)) [
    | inl waiting ↦ rw (live, waiting) (new r refl (ground arith) (ground arith))
    | inr shut ↦ rw (live, shut) old
  ]
]

-- What holds of a store, and of it with the status of a live pending request set, holds after `decide`.
pub decide_cases {ℓ} :
    (P : Store → Type ℓ) (id : String) (approve : Bool) (now : ℕ) (s : Store)
    → P s
    → ((r : Request)
        → find id s.requests ≡ some r
        → now ≤ r.deadline
        → r.status ≡ pending
        → P (record s { requests = update id (record r { status = decided approve }) s.requests }))
    → P (after s (decide id approve now s))
unfolding decide
decide_cases P id approve now s = decide_found_cases P (find id s.requests) id approve now s

decided-ne-expired : (approve : Bool) → decided approve ≢ expired
decided-ne-expired approve h = ground arith

pub step-IsValid : (now : ℕ) (op : Op) (s : Store) → IsValid s → IsValid (step now op s)
unfolding step sweep
step-IsValid now (creates id prompt ttl) s v =
    create_cases IsValid id prompt ttl now s v λ fresh room. record {
      unique = (fresh, v.unique);
      entries = ((refl, λ h. cc), v.entries);
      bounded = room;
    }
step-IsValid now (decides id approve) s v =
    decide_cases IsValid id approve now s v λ r e live waiting. record {
      unique = update-HasUniqueKeys id _ s.requests v.unique;
      entries =
          All-update IsEntry id _ s.requests
            ((All-find IsEntry id s.requests v.entries e).0, decided-ne-expired approve) v.entries;
      bounded =
          omega
            (arith, length-update id (record r { status = decided approve }) s.requests, v.bounded);
    }
step-IsValid now (sweeps older_than) s v = record {
  unique = sweep-HasUniqueKeys older_than now s.requests v.unique;
  entries = All-sweep IsEntry older_than now s.requests v.entries;
  bounded = omega (arith, length-sweep older_than now s.requests, v.bounded);
}

-- Whatever calls a store has seen since it was made, it holds at most as many requests as its limit,
-- each under its own identifier and no identifier twice, and `expired` is no stored status.
pub run-IsValid : (ops : List (ℕ × Op)) (s : Store) → IsValid s → IsValid (run ops s)
unfolding run
run-IsValid [] s v = v
run-IsValid ((now, op) ∷ ops) s v = run-IsValid ops (step now op s) (step-IsValid now op s v)

pub new_store-IsValid : (limit : ℕ) → IsValid (new_store_with_limit limit)
new_store-IsValid limit = record { unique = tt; entries = tt; bounded = omega arith }
