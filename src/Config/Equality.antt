-- ===== src/Config/Equality.antt =====
-- `reflect.DeepEqual` on policies. The decoder leaves an absent list nil, so that two lists of a policy
-- are equal when their elements are.
use native.Mathlib.Decide.{ℕ_discrete}
use secrets_broker.Base.{◌≡◌, ◌↔◌, Bool, true, false, ℤ, String, eq_iff, ◌==◌, refl}
use secrets_broker.Config.{Config}

unfoldable ℤ-discrete : Discrete ℤ
ℤ-discrete = hlevel ℕ_discrete

by_test : (a b : String) (same : Bool) → (a == b) ≡ same → Dec (a ≡ b)
by_test a b true h = yes ((eq_iff a b).0 h)
by_test a b false h = no (λ p. let k = (eq_iff a b).1 p in cc)

unfoldable text_discrete : Discrete String
unfolding by_test
text_discrete a b = by_test a b (a == b) refl

unfoldable Config-discrete : Discrete Config
unfolding ℤ-discrete text_discrete
Config-discrete = hlevel (ℤ-discrete, text_discrete)

decided {ℓ} : {A : Type ℓ} → Dec A → Bool
decided (yes a) = true
decided (no n) = false

unfoldable pub deep_equal : Config → Config → Bool
unfolding Config-discrete decided
deep_equal a b = decided (Config-discrete a b)

decided-eq_true : {A : Type 0} (d : Dec A) → (decided d ≡ true) ↔ A
unfolding decided
decided-eq_true (yes a) = (λ _. a, λ _. refl)
decided-eq_true (no n) = (λ h. cc, λ a. absurd (n a))

pub deep_equal-eq_iff : (a b : Config) → (deep_equal a b ≡ true) ↔ (a ≡ b)
unfolding deep_equal
deep_equal-eq_iff a b = decided-eq_true (Config-discrete a b)
