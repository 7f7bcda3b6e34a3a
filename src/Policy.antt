-- ===== src/Policy.antt =====
-- internal/policy/policy.go: the exact-argv allowlist.
pub mod Matching
mod Examples
use secrets_broker.Base.{String, Bool, true, false, List, [], ◌∷◌, eqb, length, if◌then◌else◌, ◌==◌}

-- The loop `for i := range a`, after the lengths were found equal.
equal_from : List String → List String → Bool
equal_from [] b = true
equal_from (x ∷ xs) [] = false
equal_from (x ∷ xs) (y ∷ ys) = if x == y then equal_from xs ys else false

unfoldable pub argv_equal : List String → List String → Bool
unfolding equal_from
argv_equal a b = if eqb (length a) (length b) then equal_from a b else false

unfoldable pub match : List (List String) → List String → Bool
unfolding argv_equal
match [] argv = false
match (entry ∷ rest) argv = if argv_equal entry argv then true else match rest argv
