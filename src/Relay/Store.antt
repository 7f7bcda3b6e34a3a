-- ===== src/Relay/Store.antt =====
-- internal/relay/store.go. Times are nanoseconds since some epoch, durations nanoseconds; each
-- operation takes the reading of the clock that it makes. The mutex makes each one atomic. The map is
-- an association list, whose order no operation shows.
pub mod Map
pub mod Invariant
pub mod Decisions
pub mod History
pub mod Listing
mod Examples
use secrets_broker.Base.{
  ℕ, ◌+◌, String, Option, none, some, Bool, true, false, not, ◌&&◌, List, [], ◌∷◌, ltb, leb, length,
  is_some, if◌then◌else◌, ◌==◌, Result, ok, err,
}
use text.Mathlib.Text.{is_lt}
use Prim.Native.String.{compare}

pub data Status : Type 0 where
  pending approved denied expired : Status

pub record Request : Type 0 where
  pub id : String
  pub prompt : String
  pub status : Status
  pub created_at : ℕ
  pub deadline : ℕ

pub record Store : Type 0 where
  pub requests : List (String × Request)
  pub limit : ℕ

-- `NewStoreWithLimit`; `NewStore` takes a limit of 1024.
abbrev pub new_store_with_limit : ℕ → Store
new_store_with_limit limit = record { requests = []; limit = limit }

abbrev pub new_store : Store
new_store = new_store_with_limit 1024

-- The map's lookup, update of a present key, and `delete` of the keys whose request fails a test.
unfoldable pub find : String → List (String × Request) → Option Request
find id [] = none
find id ((k, r) ∷ m) = if k == id then some r else find id m

unfoldable pub update : String → Request → List (String × Request) → List (String × Request)
update id new [] = []
update id new ((k, r) ∷ m) = if k == id then (k, new) ∷ m else (k, r) ∷ update id new m

pub data CreateError : Type 0 where
  already_exists store_full : CreateError

pub data DecideError : Type 0 where
  not_found has_expired : DecideError
  already_decided : Status → DecideError

abbrev pub is_pending : Status → Bool
is_pending pending = true
is_pending approved = false
is_pending denied = false
is_pending expired = false

-- `now.After(r.Deadline)`.
abbrev pub is_past : ℕ → Request → Bool
is_past now r = ltb r.deadline now

abbrev pub new_request : String → String → ℕ → ℕ → Request
new_request id prompt ttl now = record {
  id = id;
  prompt = prompt;
  status = pending;
  created_at = now;
  deadline = now + ttl;
}

-- `(*Store).Create`.
unfoldable pub create : String → String → ℕ → ℕ → Store → Result CreateError Store
create id prompt ttl now s =
    if is_some (find id s.requests)
    then err already_exists
    else if leb s.limit (length s.requests)
    then err store_full
    else ok (record s { requests = (id, new_request id prompt ttl now) ∷ s.requests })

-- The copy that `Get` returns.
unfoldable pub shown : ℕ → Request → Request
shown now r = if is_pending r.status && is_past now r then record r { status = expired } else r

-- `(*Store).Get`.
unfoldable pub get : String → ℕ → Store → Option Request
get id now s = elim (find id s.requests) [ none ↦ none | some r ↦ some (shown now r) ]

-- The comparison that `Pending` sorts by.
unfoldable pub before : Request → Request → Bool
before a b =
    if not (ltb a.deadline b.deadline) && not (ltb b.deadline a.deadline)
    then is_lt (compare a.id b.id)
    else ltb a.deadline b.deadline

-- `sort.Slice`. Distinct requests never compare equal, so every sort gives the same list.
unfoldable pub insert_sorted : Request → List Request → List Request
insert_sorted r [] = r ∷ []
insert_sorted r (x ∷ xs) = if before r x then r ∷ x ∷ xs else x ∷ insert_sorted r xs

unfoldable pub sort : List Request → List Request
sort [] = []
sort (r ∷ rs) = insert_sorted r (sort rs)

abbrev pub is_live : ℕ → Request → Bool
is_live now r = is_pending r.status && not (is_past now r)

-- The loop of `Pending`.
unfoldable pub live_requests : ℕ → List (String × Request) → List Request
live_requests now [] = []
live_requests now ((k, r) ∷ m) =
    if is_live now r then r ∷ live_requests now m else live_requests now m

-- `(*Store).Pending`.
unfoldable pub pending_requests : ℕ → Store → List Request
pending_requests now s = sort (live_requests now s.requests)

abbrev pub decided : Bool → Status
decided approve = if approve then approved else denied

-- `Decide`, from the answer of the lookup on.
unfoldable pub decide_found : Option Request → String → Bool → ℕ → Store → Result DecideError Store
decide_found none id approve now s = err not_found
decide_found (some r) id approve now s =
    if is_past now r
    then err has_expired
    else if not (is_pending r.status)
    then err (already_decided r.status)
    else ok (record s { requests = update id (record r { status = decided approve }) s.requests })

-- `(*Store).Decide`.
unfoldable pub decide : String → Bool → ℕ → Store → Result DecideError Store
decide id approve now s = decide_found (find id s.requests) id approve now s

-- `r.Deadline.Before(now.Add(-olderThan))`, with the duration on the other side.
abbrev pub is_swept : ℕ → ℕ → Request → Bool
is_swept older_than now r = ltb (r.deadline + older_than) now

unfoldable pub sweep_requests : ℕ → ℕ → List (String × Request) → List (String × Request) × ℕ
sweep_requests older_than now [] = ([], 0)
sweep_requests older_than now ((k, r) ∷ m) =
    let (kept, removed) = sweep_requests older_than now m in
    if is_swept older_than now r then (kept, removed + 1) else ((k, r) ∷ kept, removed)

-- `(*Store).Sweep`.
unfoldable pub sweep : ℕ → ℕ → Store → Store × ℕ
sweep older_than now s =
    let (kept, removed) = sweep_requests older_than now s.requests in
    (record s { requests = kept }, removed)

-- The calls that change a store, and a sequence of them, each with its time. A call that fails leaves
-- the store as it was.
pub data Op : Type 0 where
  creates : String → String → ℕ → Op
  decides : String → Bool → Op
  sweeps : ℕ → Op

abbrev pub after {ℓ} : {E : Type ℓ} → Store → Result E Store → Store
after s (ok t) = t
after s (err e) = s

unfoldable pub step : ℕ → Op → Store → Store
step now (creates id prompt ttl) s = after s (create id prompt ttl now s)
step now (decides id approve) s = after s (decide id approve now s)
step now (sweeps older_than) s = (sweep older_than now s).0

unfoldable pub run : List (ℕ × Op) → Store → Store
run [] s = s
run ((now, op) ∷ ops) s = run ops (step now op s)
