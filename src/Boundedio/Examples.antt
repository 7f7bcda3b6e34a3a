-- ===== src/Boundedio/Examples.antt =====
-- Three writes into a buffer of four bytes.
use secrets_broker.Base.{ℕ, ◌<◌, ◌≡◌, ◌↔◌, true, List, [], ◌∷◌, length}
use secrets_broker.Boundedio.{new_buffer, take, write_all}
use secrets_broker.Boundedio.Prefix.{concat, write_all_lem}

abbrev output : List (List ℕ)
output = (1 ∷ 2 ∷ 3 ∷ []) ∷ (4 ∷ 5 ∷ []) ∷ (6 ∷ []) ∷ []

write_all_lem_example :
    ((write_all output (new_buffer 4)).buf ≡ take 4 (concat output))
    × (((write_all output (new_buffer 4)).exceeded ≡ true) ↔ (4 < length (concat output)))
write_all_lem_example = write_all_lem 4 output
