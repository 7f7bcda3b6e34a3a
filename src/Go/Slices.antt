-- ===== src/Go/Slices.antt =====
-- Slices of a text by the positions of its characters.
use Prim.Native.String
use text.Mathlib.TextLemmas.{nil-append, cons-append}
use secrets_broker.Base.{
  ℕ, zero, suc, ◌+◌, ◌-◌, ◌≤◌, String, code, ◌≡◌, refl, ap, Bool, false, arith, eqb, ◌||◌, ◌==◌,
  ◌∙◌, Char, sym,
}

-- `len(s)`, of a text whose positions count characters.
unfoldable pub text_length : String → ℕ
text_length String.[] = 0
text_length (String.◌∷◌ c s) = suc (text_length s)

-- `s[:n]` and `s[n:]`, for `n` up to the length.
unfoldable pub text_take : ℕ → String → String
text_take zero s = ""
text_take (suc n) String.[] = ""
text_take (suc n) (String.◌∷◌ c s) = String.◌∷◌ c (text_take n s)

unfoldable pub text_drop : ℕ → String → String
text_drop zero s = s
text_drop (suc n) String.[] = ""
text_drop (suc n) (String.◌∷◌ c s) = text_drop n s

-- The text begins with a newline, and it ends with one.
unfoldable pub starts_line : String → Bool
starts_line String.[] = false
starts_line (String.◌∷◌ c s) = eqb (code c) 10

unfoldable pub ends_line : String → Bool
ends_line String.[] = false
ends_line (String.◌∷◌ c String.[]) = eqb (code c) 10
ends_line (String.◌∷◌ c (String.◌∷◌ d s)) = ends_line (String.◌∷◌ d s)

-- `strings.HasSuffix`, by the texts that are left.
unfoldable pub has_suffix : String → String → Bool
has_suffix String.[] part = String.[] == part
has_suffix (String.◌∷◌ c s) part = String.◌∷◌ c s == part || has_suffix s part

pub take-append-drop : (n : ℕ) (s : String) → String.◌++◌ (text_take n s) (text_drop n s) ≡ s
unfolding text_take text_drop
take-append-drop zero s = nil-append s
take-append-drop (suc n) String.[] = refl
take-append-drop (suc n) (String.◌∷◌ c s) =
    cons-append c _ _ ∙ ap (λ t. String.◌∷◌ c t) (take-append-drop n s)

pub length-drop : (n : ℕ) (s : String) → text_length (text_drop n s) ≡ text_length s - n
unfolding text_length text_drop
length-drop zero s = omega arith
length-drop (suc n) String.[] = omega arith
length-drop (suc n) (String.◌∷◌ c s) = omega (arith, length-drop n s)

pub length-take : (n : ℕ) (s : String) → n ≤ text_length s → text_length (text_take n s) ≡ n
unfolding text_length text_take
length-take zero s h = refl
length-take (suc n) String.[] h = absurd (omega arith)
length-take (suc n) (String.◌∷◌ c s) h = omega (arith, length-take n s)

pub length-append : (s t : String) → text_length (String.◌++◌ s t) ≡ text_length s + text_length t
unfolding text_length
length-append String.[] t = rw (nil-append t) (omega arith)
length-append (String.◌∷◌ c s) t = rw (cons-append c s t) (omega (arith, length-append s t))

suc_add : (m n : ℕ) → suc m + n ≡ suc (m + n)
suc_add m n = omega arith

drop-nil : (n : ℕ) → text_drop n "" ≡ ""
unfolding text_drop
drop-nil zero = refl
drop-nil (suc n) = refl

pub drop-drop : (m n : ℕ) (s : String) → text_drop n (text_drop m s) ≡ text_drop (m + n) s
unfolding text_drop
drop-drop zero n s = ap (λ k. text_drop k s) (omega arith)
drop-drop (suc m) n String.[] = drop-nil n ∙ sym (drop-nil (suc m + n))
drop-drop (suc m) n (String.◌∷◌ c s) =
    drop-drop m n s ∙ ap (λ k. text_drop k (String.◌∷◌ c s)) (sym (suc_add m n))

pub drop-append-cons :
    (l : String) (c : Char) (s : String)
    → text_drop (suc (text_length l)) (String.◌++◌ l (String.◌∷◌ c s)) ≡ s
unfolding text_drop text_length
drop-append-cons String.[] c s = rw (nil-append (String.◌∷◌ c s))
drop-append-cons (String.◌∷◌ d l) c s =
    rw (cons-append d l (String.◌∷◌ c s)) (drop-append-cons l c s)

pub drop-length : (n : ℕ) (s : String) → text_length s ≤ n → text_drop n s ≡ ""
unfolding text_drop text_length
drop-length zero String.[] h = refl
drop-length (suc n) String.[] h = refl
drop-length zero (String.◌∷◌ c s) h = absurd (omega arith)
drop-length (suc n) (String.◌∷◌ c s) h = drop-length n s (omega arith)

pub take-length : (n : ℕ) (s : String) → text_length s ≤ n → text_take n s ≡ s
unfolding text_take text_length
take-length zero String.[] h = refl
take-length (suc n) String.[] h = refl
take-length zero (String.◌∷◌ c s) h = absurd (omega arith)
take-length (suc n) (String.◌∷◌ c s) h = ap (λ t. String.◌∷◌ c t) (take-length n s (omega arith))

take-nil : (n : ℕ) → text_take n "" ≡ ""
unfolding text_take
take-nil zero = refl
take-nil (suc n) = refl

pub take-split :
    (m n : ℕ) (s : String)
    → text_take (m + n) s ≡ String.◌++◌ (text_take m s) (text_take n (text_drop m s))
unfolding text_take text_drop
take-split zero n s = ap (λ k. text_take k s) (omega arith) ∙ sym (nil-append _)
take-split (suc m) n String.[] = take-nil (suc m + n) ∙ sym (nil-append _ ∙ take-nil n)
take-split (suc m) n (String.◌∷◌ c s) =
    ap (λ k. text_take k (String.◌∷◌ c s)) (suc_add m n)
    ∙ (ap (λ t. String.◌∷◌ c t) (take-split m n s) ∙ sym (cons-append c _ _))
