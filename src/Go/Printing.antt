-- ===== src/Go/Printing.antt =====
-- `unicode.IsPrint` over a text; the predicate on characters is a parameter.
use secrets_broker.Base.{
  ℕ, String, code, ◌≡◌, refl, ◌↔◌, Bool, true, false, Bool-cases, not, if◌then◌else◌, arith, inl,
  inr,
}

module _ (is_print : ℕ → Bool) where
  -- The loop that refuses a text at its first character that cannot be printed.
  unfoldable pub all_print : String → Bool
  all_print String.[] = true
  all_print (String.◌∷◌ c s) = if not (is_print (code c)) then false else all_print s

  -- Every character of the text can be printed.
  abbrev pub IsPrintable : String → Type 0
  IsPrintable String.[] = Unit
  IsPrintable (String.◌∷◌ c s) = (is_print (code c) ≡ true) × IsPrintable s

  pub all_print_iff : (s : String) → (all_print s ≡ true) ↔ IsPrintable s
  unfolding all_print
  all_print_iff String.[] = (λ h. tt, λ h. refl)
  all_print_iff (String.◌∷◌ c s) = elim (Bool-cases (is_print (code c))) [
    | inl good ↦
        (λ h. (good, (all_print_iff s).0 (ground arith)), λ v. rw good ((all_print_iff s).1 v.1))
    | inr bad ↦ (λ h. ground arith, λ v. ground (arith, bad, v.0))
  ]
