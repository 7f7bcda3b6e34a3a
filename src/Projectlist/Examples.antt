-- ===== src/Projectlist/Examples.antt =====
-- A listing of two projects.
use secrets_broker.Base.{some, ◌≡◌, ◌↔◌, true, List, [], ◌∷◌, map, ok}
use secrets_broker.Projectlist.{Item, absent, text, listed, from_bws}
use secrets_broker.Projectlist.Listing.{entry_of, IsListing, from_bws-IsListing_iff}

abbrev items : List Item
items =
    record { object = text "project"; id = "p1"; name = "infra" }
    ∷ record { object = absent; id = "p2"; name = "site" }
    ∷ []

from_bws-IsListing_iff_example :
    (from_bws (λ c. true) (λ output. some items) "[]" ≡ ok (listed (map entry_of items))) ↔ (
      (found : List Item) × (some items ≡ some found)
      × IsListing (λ c. true) found (listed (map entry_of items)))
from_bws-IsListing_iff_example =
    from_bws-IsListing_iff (λ c. true) (λ output. some items) "[]" (listed (map entry_of items))
