-- ===== src/Relay/Store/Listing.antt =====
-- What the dashboard lists: the live requests, by deadline and then by identifier.
use mathlib.Core.Path.{subst}
use Prim.Native.String.{compare}
use text.Mathlib.Text.{is_lt}
use secrets_broker.Base.{
  ℕ, ◌≤◌, ◌<◌, String, ◌≡◌, ◌≢◌, sym, ◌↔◌, ◌⊎◌, ◌∙◌, true, false, none, some, ltb, Bool-cases, inl,
  inr, List, [], ◌∷◌, All, Any, arith, ◌==◌, eq_iff,
}
use secrets_broker.Relay.Store.Map.{HasUniqueKeys}
use secrets_broker.Relay.Store.Invariant.{IsEntry, IsValid}
use secrets_broker.Go.Order.{lt_asym}
use secrets_broker.Relay.Store.{
  Store, Request, pending, before, insert_sorted, sort, live_requests, pending_requests, is_live,
  find,
}

before_asym : (a b : Request) → before a b ≡ true → before b a ≡ false
unfolding before
before_asym a b h = ground (arith, lt_asym a.id b.id)

-- The deadline comes first, and the identifiers decide between equal deadlines.
abbrev pub IsInOrder : Request → Request → Type 0
IsInOrder a b =
    (a.deadline < b.deadline) ⊎ ((a.deadline ≡ b.deadline) × (is_lt (compare b.id a.id) ≡ false))

abbrev pub IsSorted : List Request → Type 0
IsSorted [] = Unit
IsSorted (x ∷ []) = Unit
IsSorted (x ∷ y ∷ rest) = IsInOrder x y × IsSorted (y ∷ rest)

abbrev pub HasDistinctIds : List Request → Type 0
HasDistinctIds [] = Unit
HasDistinctIds (x ∷ rest) = All (λ y. y.id ≢ x.id) rest × HasDistinctIds rest

IsInOrder-before : (a b : Request) → before b a ≡ false → IsInOrder a b
unfolding before
IsInOrder-before a b h = elim (Bool-cases (ltb a.deadline b.deadline)) [
  | inl e ↦ inl (ground arith)
  | inr e ↦ inr (ground arith, ground arith)
]

-- `r` goes behind `x`, in front of which it does not come.
IsSorted-behind :
    (r x y : Request) (rest : List Request)
    → before r x ≡ false
    → IsInOrder x y
    → IsSorted (insert_sorted r (y ∷ rest))
    → IsSorted (x ∷ insert_sorted r (y ∷ rest))
unfolding insert_sorted
IsSorted-behind r x y rest rx yx k = elim (Bool-cases (before r y)) [
  | inl e ↦ rw e (IsInOrder-before x r rx, (rw e at k))
  | inr e ↦ rw e (yx, (rw e at k))
]

insert_sorted-IsSorted :
    (r : Request) (xs : List Request) → IsSorted xs → IsSorted (insert_sorted r xs)
unfolding insert_sorted
insert_sorted-IsSorted r [] h = tt
insert_sorted-IsSorted r (x ∷ []) h = elim (Bool-cases (before r x)) [
  | inl e ↦ rw e (IsInOrder-before r x (before_asym r x e), tt)
  | inr e ↦ rw e (IsInOrder-before x r e, tt)
]
insert_sorted-IsSorted r (x ∷ y ∷ rest) h =
    let deeper = insert_sorted-IsSorted r (y ∷ rest) h.1 in
    elim (Bool-cases (before r x)) [
      | inl e ↦ rw e (IsInOrder-before r x (before_asym r x e), h)
      | inr e ↦ rw e (IsSorted-behind r x y rest e h.0 deeper)
    ]

sort-IsSorted : (xs : List Request) → IsSorted (sort xs)
unfolding sort
sort-IsSorted [] = tt
sort-IsSorted (r ∷ rs) = insert_sorted-IsSorted r (sort rs) (sort-IsSorted rs)

is_live_iff :
    (now : ℕ) (r : Request) → (is_live now r ≡ true) ↔ ((r.status ≡ pending) × (now ≤ r.deadline))
is_live_iff now r = (λ h. (ground arith, ground arith), λ h. ground arith)

not_live :
    (now : ℕ) (r : Request) → is_live now r ≡ false → r.status ≡ pending → now ≤ r.deadline → ⊥
not_live now r e p d = ground arith

module _ (P : Request → Type 0) where
  Any-insert_sorted :
      (r : Request) (xs : List Request) → Any P (insert_sorted r xs) ↔ (P r ⊎ Any P xs)
  unfolding insert_sorted
  Any-insert_sorted r [] = (λ h. h, λ h. h)
  Any-insert_sorted r (x ∷ xs) =
      let (to, from) = Any-insert_sorted r xs in
      elim (Bool-cases (before r x)) [
        | inl e ↦ rw e (λ h. h, λ h. h)
        | inr e ↦ rw e (
          elim [
            | inl px ↦ inr (inl px)
            | inr deep ↦ elim (to deep) [ inl pr ↦ inl pr | inr p ↦ inr (inr p) ]
          ],
          elim [
            | inl pr ↦ inr (from (inl pr))
            | inr (inl px) ↦ inl px
            | inr (inr p) ↦ inr (from (inr p))
          ],
        )
      ]

  Any-sort : (xs : List Request) → Any P (sort xs) ↔ Any P xs
  unfolding sort
  Any-sort [] = (λ h. h, λ h. h)
  Any-sort (r ∷ rs) =
      let (to, from) = Any-sort rs in
      let (into, out) = Any-insert_sorted r (sort rs) in
      (
        λ h. elim (into h) [ inl p ↦ inl p | inr q ↦ inr (to q) ],
        elim [ inl p ↦ out (inl p) | inr q ↦ out (inr (from q)) ],
      )

  Any-live :
      (now : ℕ) (m : List (String × Request))
      → Any P (live_requests now m)
        ↔ Any (λ e. (e.1.status ≡ pending) × (now ≤ e.1.deadline) × P e.1) m
  unfolding live_requests
  Any-live now [] = (λ h. h, λ h. h)
  Any-live now ((k, r) ∷ m) =
      let (to, from) = Any-live now m in
      elim (Bool-cases (is_live now r)) [
        | inl e ↦
            let (a, b) = is_live_iff now r in
            rw e (
              elim [ inl p ↦ inl ((a e).0, (a e).1, p) | inr q ↦ inr (to q) ],
              elim [ inl h ↦ inl h.2 | inr q ↦ inr (from q) ],
            )
        | inr e ↦
            rw e
              (λ q. inr (to q), elim [ inl h ↦ absurd (not_live now r e h.0 h.1) | inr q ↦ from q ])
      ]

module _ (P : Request → Type 0) where
  All-insert_sorted :
      (r : Request) (xs : List Request) → P r → All P xs → All P (insert_sorted r xs)
  unfolding insert_sorted
  All-insert_sorted r [] pr h = (pr, tt)
  All-insert_sorted r (x ∷ xs) pr h = elim (Bool-cases (before r x)) [
    | inl e ↦ rw e (pr, h)
    | inr e ↦ rw e (h.0, All-insert_sorted r xs pr h.1)
  ]

  All-sort : (xs : List Request) → All P xs → All P (sort xs)
  unfolding sort
  All-sort [] h = tt
  All-sort (r ∷ rs) h = All-insert_sorted r (sort rs) h.0 (All-sort rs h.1)

insert_sorted-HasDistinctIds :
    (r : Request) (xs : List Request)
    → All (λ y. y.id ≢ r.id) xs
    → HasDistinctIds xs
    → HasDistinctIds (insert_sorted r xs)
unfolding insert_sorted
insert_sorted-HasDistinctIds r [] new h = (tt, tt)
insert_sorted-HasDistinctIds r (x ∷ xs) new h = elim (Bool-cases (before r x)) [
  | inl e ↦ rw e (new, h)
  | inr e ↦ rw e (
    All-insert_sorted (λ y. y.id ≢ x.id) r xs (λ same. new.0 (sym same)) h.0,
    insert_sorted-HasDistinctIds r xs new.1 h.1,
  )
]

sort-HasDistinctIds : (xs : List Request) → HasDistinctIds xs → HasDistinctIds (sort xs)
unfolding sort
sort-HasDistinctIds [] h = tt
sort-HasDistinctIds (r ∷ rs) h =
    insert_sorted-HasDistinctIds r (sort rs) (All-sort (λ y. y.id ≢ r.id) rs h.0)
      (sort-HasDistinctIds rs h.1)

live_requests-ne :
    (now : ℕ) (id : String) (m : List (String × Request))
    → find id m ≡ none
    → All IsEntry m
    → All (λ y. y.id ≢ id) (live_requests now m)
unfolding find live_requests
live_requests-ne now id [] fresh h = tt
live_requests-ne now id ((k, r) ∷ m) fresh h = elim (Bool-cases (k == id)) [
  | inl e ↦ let k : some r ≡ none = rw e at fresh in cc k
  | inr e ↦
      let rest = live_requests-ne now id m (rw e at fresh) h.1 in
      elim (Bool-cases (is_live now r)) [
        | inl live ↦
            rw live ((λ same. let k = (eq_iff k id).1 (sym h.0.0 ∙ same) in cc (e, k)), rest)
        | inr gone ↦ rw gone rest
      ]
]

live_requests-HasDistinctIds :
    (now : ℕ) (m : List (String × Request))
    → HasUniqueKeys m
    → All IsEntry m
    → HasDistinctIds (live_requests now m)
unfolding live_requests
live_requests-HasDistinctIds now [] u h = tt
live_requests-HasDistinctIds now ((k, r) ∷ m) u h =
    let rest = live_requests-HasDistinctIds now m u.1 h.1 in
    elim (Bool-cases (is_live now r)) [
      | inl live ↦ rw live (
        subst (λ id. All (λ y. y.id ≢ id) (live_requests now m)) (sym h.0.0)
            (live_requests-ne now k m u.0 h.1),
        rest,
      )
      | inr gone ↦ rw gone rest
    ]

-- The dashboard's list of a valid store, as every store is that has served calls since it was made, is
-- sorted by deadline, and by identifier where the deadlines are equal; it holds exactly the requests of
-- the store that are pending and not past their deadline, and no identifier twice.
pub pending_requests_lem :
    (now : ℕ) (s : Store)
    → IsValid s
    → IsSorted (pending_requests now s)
      × HasDistinctIds (pending_requests now s)
      × ((r : Request)
          → Any (λ x. x ≡ r) (pending_requests now s)
            ↔ Any (λ e. (e.1.status ≡ pending) × (now ≤ e.1.deadline) × (e.1 ≡ r)) s.requests)
unfolding pending_requests
pending_requests_lem now s v = (
  sort-IsSorted (live_requests now s.requests),
  sort-HasDistinctIds (live_requests now s.requests)
      (live_requests-HasDistinctIds now s.requests v.unique v.entries),
  λ r.
      let (a, b) = Any-sort (λ x. x ≡ r) (live_requests now s.requests) in
      let (c, d) = Any-live (λ x. x ≡ r) now s.requests in (λ h. c (a h), λ h. b (d h)),
)
