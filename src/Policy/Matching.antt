-- ===== src/Policy/Matching.antt =====
-- The allowlist test against equality of argument vectors.
use secrets_broker.Base.{
  String, ◌≡◌, refl, ◌↔◌, inl, inr, true, List, [], ◌∷◌, Any, arith, eq_iff, length, Bool-cases,
}
use secrets_broker.Policy.{equal_from, argv_equal, match}

equal_from-eq : (a b : List String) → length a ≡ length b → equal_from a b ≡ true → a ≡ b
unfolding equal_from
equal_from-eq [] [] l h = refl
equal_from-eq [] (y ∷ ys) l h = absurd (omega arith)
equal_from-eq (x ∷ xs) [] l h = cc
equal_from-eq (x ∷ xs) (y ∷ ys) l h = ground (arith, eq_iff x y, equal_from-eq xs ys (omega arith))

equal_from_refl : (a : List String) → equal_from a a ≡ true
unfolding equal_from
equal_from_refl [] = refl
equal_from_refl (x ∷ xs) = ground (arith, eq_iff x x, equal_from_refl xs)

argv_equal_refl : (a : List String) → argv_equal a a ≡ true
unfolding argv_equal
argv_equal_refl a = ground (arith, equal_from_refl a)

pub argv_equal-eq_iff : (a b : List String) → (argv_equal a b ≡ true) ↔ (a ≡ b)
argv_equal-eq_iff a b =
    (λ h. unfold argv_equal in ground (arith, equal_from-eq a b), λ e. rw e (argv_equal_refl b))

-- A command matches exactly when its whole argument vector is one of the allowlist's entries.
pub match-eq_true_iff :
    (allow : List (List String)) (argv : List String)
    → (match allow argv ≡ true) ↔ Any (λ entry. entry ≡ argv) allow
unfolding match
match-eq_true_iff [] argv = (λ h. cc, λ h. absurd h)
match-eq_true_iff (entry ∷ rest) argv =
    let (to, from) = match-eq_true_iff rest argv in
    let (same, listed) = argv_equal-eq_iff entry argv in
    elim (Bool-cases (argv_equal entry argv)) [
      | inl e ↦ (λ h. inl (same e), λ h. rw e)
      | inr e ↦ (λ h. inr (to (rw e at h)), elim [ inl p ↦ cc (listed p) | inr q ↦ rw e (from q) ])
    ]
