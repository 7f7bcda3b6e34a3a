-- ===== src/Base/Results.antt =====
-- A Go function that returns a value and an error, and one that returns an error alone.
use mathlib.Core.Path.{◌≡◌, refl}
use mathlib.Core.Logic.{◌⊎◌, inl, inr}
use mathlib.Core.Bool.{Bool, true, false}

pub data Result {ℓ κ} (E : Type ℓ) (A : Type κ) : Type (ℓ ⊔ κ) where
  ok : A → Result E A
  err : E → Result E A

-- An error alone: `ok tt` is `nil`.
abbrev pub Check {ℓ} : Type ℓ → Type ℓ
Check E = Result E (Unit {0})

infixl 5 ◌>>=◌ ◌>>◌
abbrev pub ◌>>=◌ {ℓ κ ι} :
    {E : Type ℓ} {A : Type κ} {B : Type ι} → Result E A → (A → Result E B) → Result E B
ok x >>= next = next x
err e >>= next = err e

abbrev pub ◌>>◌ {ℓ κ ι} :
    {E : Type ℓ} {A : Type κ} {B : Type ι} → Result E A → Result E B → Result E B
first >> rest = first >>= λ _. rest

-- `if test { return e }` is `reject test e`.
abbrev pub reject {ℓ} : {E : Type ℓ} → Bool → E → Check E
reject true e = err e
reject false e = ok tt

-- `fmt.Errorf("…: %w", err)`, and every place that replaces an error by another.
abbrev pub map_err {ℓ κ ι} :
    {E : Type ℓ} {F : Type κ} {A : Type ι} → (E → F) → Result E A → Result F A
map_err f (ok a) = ok a
map_err f (err e) = err (f e)

abbrev pub is_ok {ℓ κ} : {E : Type ℓ} {A : Type κ} → Result E A → Bool
is_ok (ok a) = true
is_ok (err e) = false

pub ok_inj {ℓ κ} : {E : Type ℓ} {A : Type κ} {x y : A} → Path (Result E A) (ok x) (ok y) → x ≡ y
ok_inj h = cc

pub Check-cases {ℓ} :
    {E : Type ℓ} (r : Check E) → Path (Check E) r (ok tt) ⊎ ((e : E) × Path (Check E) r (err e))
Check-cases (ok tt) = inl refl
Check-cases (err e) = inr (e, refl)

-- Inversion of a successful chain.
pub >>=-eq-ok {ℓ κ ι} :
    {E : Type ℓ} {A : Type κ} {B : Type ι} (action : Result E A) (next : A → Result E B) {v : B}
    → (action >>= next) ≡ ok v
    → (x : A) × (action ≡ ok x) × (next x ≡ ok v)
>>=-eq-ok (err e) next done = cc
>>=-eq-ok (ok x) next done = (x, refl, done)

pub reject-eq-ok {ℓ} :
    {E : Type ℓ} (b : Bool) (e : E) {u : Unit {0}} → reject b e ≡ ok u → b ≡ false
reject-eq-ok true e h = cc
reject-eq-ok false e h = refl

pub >>-eq-ok {ℓ κ} :
    {E : Type ℓ} {A : Type κ} (m : Check E) (k : Result E A) {a : A}
    → (m >> k) ≡ ok a
    → (m ≡ ok tt) × (k ≡ ok a)
>>-eq-ok (ok tt) k h = (refl, h)
>>-eq-ok (err e) k h = cc

pub reject->>-eq-ok {ℓ κ} :
    {E : Type ℓ} {A : Type κ} (b : Bool) (e : E) (k : Result E A) {a : A}
    → (reject b e >> k) ≡ ok a
    → (b ≡ false) × (k ≡ ok a)
reject->>-eq-ok true e k h = cc
reject->>-eq-ok false e k h = (refl, h)

pub map_err-eq-ok {ℓ κ ι} :
    {E : Type ℓ} {F : Type κ} {A : Type ι} (f : E → F) (m : Result E A) {a : A}
    → map_err f m ≡ ok a
    → m ≡ ok a
map_err-eq-ok f (ok x) h = cc h
map_err-eq-ok f (err e) h = cc
