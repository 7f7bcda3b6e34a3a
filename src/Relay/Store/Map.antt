-- ===== src/Relay/Store/Map.antt =====
-- The laws of the store's map: lookup after update, after a new key, and after a sweep.
use mathlib.Core.Path.{subst}
use secrets_broker.Base.{
  ℕ, ◌+◌, String, ◌≡◌, refl, none, some, Bool-cases, inl, inr, List, [], ◌∷◌, All, length, arith,
  eq_iff, if◌then◌else◌, ◌==◌,
}
use secrets_broker.Relay.Store.{Request, find, update, sweep_requests, is_swept}

-- No key stands twice.
abbrev pub HasUniqueKeys : List (String × Request) → Type 0
HasUniqueKeys [] = Unit
HasUniqueKeys ((k, r) ∷ m) = (find k m ≡ none) × HasUniqueKeys m

pub find-update :
    (id j : String) (new : Request) (m : List (String × Request))
    → find j (update id new m)
      ≡ (if id == j then elim (find id m) [ none ↦ none | some r ↦ some new ] else find j m)
unfolding find update
find-update id j new [] = ground arith
find-update id j new ((k, r) ∷ m) =
    ground (arith, eq_iff id j, eq_iff k id, eq_iff k j, find-update id j new m)

pub length-update :
    (id : String) (new : Request) (m : List (String × Request))
    → length (update id new m) ≡ length m
unfolding update
length-update id new [] = refl
length-update id new ((k, r) ∷ m) = ground (arith, length-update id new m)

pub update-HasUniqueKeys :
    (id : String) (new : Request) (m : List (String × Request))
    → HasUniqueKeys m
    → HasUniqueKeys (update id new m)
unfolding update
update-HasUniqueKeys id new [] u = tt
update-HasUniqueKeys id new ((k, r) ∷ m) u =
    ground
      (arith, eq_iff id k, eq_iff k id, find-update id k new m, update-HasUniqueKeys id new m u.1)

module _ (P : String × Request → Type 0) where
  pub All-update :
      (id : String) (new : Request) (m : List (String × Request))
      → P (id, new)
      → All P m
      → All P (update id new m)
  unfolding update
  All-update id new [] p h = tt
  All-update id new ((k, r) ∷ m) p h = elim (Bool-cases (k == id)) [
    | inl e ↦ rw e (rw ((eq_iff k id).0 e) p, h.1)
    | inr e ↦ rw e (h.0, All-update id new m p h.1)
  ]

  pub All-sweep :
      (older_than now : ℕ) (m : List (String × Request))
      → All P m
      → All P (sweep_requests older_than now m).0
  unfolding sweep_requests
  All-sweep older_than now [] h = tt
  All-sweep older_than now ((k, r) ∷ m) h = elim (Bool-cases (is_swept older_than now r)) [
    | inl e ↦ rw e (All-sweep older_than now m h.1)
    | inr e ↦ rw e (h.0, All-sweep older_than now m h.1)
  ]

  pub All-find :
      (id : String) (m : List (String × Request)) {r : Request}
      → All P m
      → find id m ≡ some r
      → P (id, r)
  unfolding find
  All-find id [] h e = cc
  All-find id ((k, s) ∷ m) {r} h e = elim (Bool-cases (k == id)) [
    | inl hit ↦
        let same : ◌≡◌ {A = String × Request} (k, s) (id, r) = ground (arith, eq_iff k id) in
        subst P same h.0
    | inr miss ↦ All-find id m h.1 (rw miss at e)
  ]

-- A sweep counts what it removes.
pub length-sweep :
    (older_than now : ℕ) (m : List (String × Request))
    → length (sweep_requests older_than now m).0 + (sweep_requests older_than now m).1 ≡ length m
unfolding sweep_requests
length-sweep older_than now [] = refl
length-sweep older_than now ((k, r) ∷ m) = ground (arith, length-sweep older_than now m)

module _ (older_than now : ℕ) where
  find-sweep_none :
      (id : String) (m : List (String × Request))
      → find id m ≡ none
      → find id (sweep_requests older_than now m).0 ≡ none
  unfolding find sweep_requests
  find-sweep_none id [] h = refl
  find-sweep_none id ((k, r) ∷ m) h = ground (arith, find-sweep_none id m)

  pub sweep-HasUniqueKeys :
      (m : List (String × Request))
      → HasUniqueKeys m
      → HasUniqueKeys (sweep_requests older_than now m).0
  unfolding sweep_requests
  sweep-HasUniqueKeys [] u = tt
  sweep-HasUniqueKeys ((k, r) ∷ m) u =
      ground (arith, find-sweep_none k m u.0, sweep-HasUniqueKeys m u.1)

  -- A sweep keeps exactly the requests whose deadline is not that far back.
  pub find-sweep :
      (id : String) (m : List (String × Request))
      → HasUniqueKeys m
      → find id (sweep_requests older_than now m).0 ≡ elim (find id m) [
        | none ↦ none
        | some r ↦ if is_swept older_than now r then none else some r
      ]
  unfolding find sweep_requests
  find-sweep id [] u = refl
  find-sweep id ((k, r) ∷ m) u =
      ground
        (arith, eq_iff k id, find-sweep_none id m, find-sweep_none k m u.0, find-sweep id m u.1)
