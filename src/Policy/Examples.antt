-- ===== src/Policy/Examples.antt =====
-- The allowlist at one entry: a longer command does not match it.
use secrets_broker.Base.{String, ◌≡◌, refl, ◌↔◌, true, false, List, [], ◌∷◌, Any}
use secrets_broker.Policy.{match}
use secrets_broker.Policy.Matching.{match-eq_true_iff}

abbrev apply_only : List (List String)
apply_only = ("terraform" ∷ "apply" ∷ []) ∷ []

no_prefix_match : match apply_only ("terraform" ∷ "apply" ∷ "-destroy" ∷ []) ≡ false
unfolding match
no_prefix_match = refl

match-eq_true_iff_example :
    (match apply_only ("terraform" ∷ "apply" ∷ []) ≡ true)
    ↔ Any (λ entry. entry ≡ "terraform" ∷ "apply" ∷ []) apply_only
match-eq_true_iff_example = match-eq_true_iff apply_only ("terraform" ∷ "apply" ∷ [])
