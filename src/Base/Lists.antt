-- ===== src/Base/Lists.antt =====
-- Lists measured by native numbers, predicates on their elements, and lists of texts.
use Prim.Native.Nat.{ℕ, suc, ◌+◌, ◌≤◌}
use Prim.Native.String.{String}
use text.Mathlib.Text.{◌==◌}
use text.Mathlib.TextEquality.{eq_iff}
use mathlib.Core.Path.{◌≡◌, refl}
use mathlib.Core.Bool.{Bool, true, false, ◌&&◌, ◌||◌}
use mathlib.Core.Logic.{◌⊎◌, ◌≢◌, ◌↔◌, inl, inr}
use mathlib.Core.List.{List, [], ◌∷◌, ◌++◌}
use native.Mathlib.Omega.{arith}
use secrets_broker.Base.Tests.{if◌then◌else◌, Bool-cases}

module _ {ℓ} {A : Type ℓ} where
  abbrev pub length : List A → ℕ
  length [] = 0
  length (x ∷ xs) = suc (length xs)

  abbrev pub is_empty : List A → Bool
  is_empty [] = true
  is_empty (x ∷ xs) = false

  abbrev pub any : (A → Bool) → List A → Bool
  any p [] = false
  any p (x ∷ xs) = p x || any p xs

  abbrev pub all : (A → Bool) → List A → Bool
  all p [] = true
  all p (x ∷ xs) = p x && all p xs

  -- `append` under a test: what a loop with `continue` keeps.
  abbrev pub keep : (A → Bool) → List A → List A
  keep p [] = []
  keep p (x ∷ xs) = if p x then x ∷ keep p xs else keep p xs

  pub length-append : (xs ys : List A) → length (xs ++ ys) ≡ length xs + length ys
  length-append [] ys = omega arith
  length-append (x ∷ xs) ys = omega (arith, length-append xs ys)

  pub length-keep-le : (p : A → Bool) (xs : List A) → length (keep p xs) ≤ length xs
  length-keep-le p [] = omega arith
  length-keep-le p (x ∷ xs) = ground (arith, length-keep-le p xs)

module _ {ℓ} {A : Type ℓ} where
  pub is_empty_of_ne : (xs : List A) → xs ≢ [] → is_empty xs ≡ false
  is_empty_of_ne [] n = absurd (n refl)
  is_empty_of_ne (x ∷ xs) n = refl

  pub ne_of_is_empty : (xs : List A) → is_empty xs ≡ false → xs ≢ []
  ne_of_is_empty xs h e = ground arith

module _ {ℓ κ} {A : Type ℓ} (P : A → Type κ) where
  abbrev pub All : List A → Type κ
  All [] = Unit
  All (x ∷ xs) = P x × All xs

module _ {ℓ} {A : Type ℓ} (P : A → Type 0) where
  abbrev pub Any : List A → Type 0
  Any [] = ⊥
  Any (x ∷ xs) = P x ⊎ Any xs

pub any-eq_false_iff :
    (a : String) (seen : List String) → (any (λ b. b == a) seen ≡ false) ↔ All (λ b. b ≢ a) seen
any-eq_false_iff a [] = (λ h. tt, λ h. refl)
any-eq_false_iff a (b ∷ seen) = (
  λ h. (λ e. ground (arith, eq_iff b a), (any-eq_false_iff a seen).0 (ground arith)),
  λ v. rw ((any-eq_false_iff a seen).1 v.1) (ne-eq_false v.0),
)
  where
    ne-eq_false : b ≢ a → (b == a || false) ≡ false
    ne-eq_false n = elim (Bool-cases (b == a)) [
      | inl e ↦ absurd (n ((eq_iff b a).0 e))
      | inr e ↦ rw e
    ]
