-- ===== src/Go/Order.antt =====
-- `<` on texts is asymmetric.
use Prim.Native.Nat.{Ordering, compare as compare_ℕ}
use Prim.Native.String.{compare, then}
use Prim.Native.String.compare
use text.Mathlib.Text.{is_lt}
use secrets_broker.Base.{String, Char, code, ◌≡◌, refl, true, false, arith}

then_asym :
    (c d : Char) (o p : Ordering)
    → (is_lt o ≡ true → is_lt p ≡ false)
    → is_lt (then (compare_ℕ (code c) (code d)) o) ≡ true
    → is_lt (then (compare_ℕ (code d) (code c)) p) ≡ false
then_asym c d o p h k = ground (arith, h)

pub lt_asym : (s t : String) → is_lt (compare s t) ≡ true → is_lt (compare t s) ≡ false
lt_asym String.[] String.[] h = refl
lt_asym String.[] (String.◌∷◌ d t) h = rw (compare.cons-nil d t)
lt_asym (String.◌∷◌ c s) String.[] h = let k : false ≡ true = rw (compare.cons-nil c s) at h in cc k
lt_asym (String.◌∷◌ c s) (String.◌∷◌ d t) h =
    rw (compare.cons-cons d c t s) (
      then_asym c d (compare s t) (compare t s) (lt_asym s t) (rw (compare.cons-cons c d s t) at h))
