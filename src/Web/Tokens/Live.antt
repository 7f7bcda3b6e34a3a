-- ===== src/Web/Tokens/Live.antt =====
-- What the operations on the form tokens leave, and what they accept.
use mathlib.Core.Path.{subst}
use mathlib.Core.Logic.{◌⊎◌}
use secrets_broker.Base.{
  ℕ, ◌≤◌, ◌<◌, String, ◌≡◌, refl, ap, sym, ◌∙◌, ◌≢◌, inl, inr, Option, none, some, Bool, true,
  false, Bool-cases, not, ◌&&◌, List, [], ◌∷◌, All, keep, length, length-keep-le, ltb, ltb-lt_iff,
  ◌==◌, eq_iff, if◌then◌else◌, Result, ok, err, ok_inj, &&-eq_true, arith,
}
use secrets_broker.Web.{WebConfig, PolicyChange, FormToken, WebError, form_expired}
use secrets_broker.Web.Tokens.{
  Tokens, find_token, delete_token, prune_tokens, accepted, take_token, set_change,
}

module _ {A : Type 0} (P : A → Type 0) where
  pub All-keep : (q : A → Bool) (xs : List A) → All P xs → All P (keep q xs)
  All-keep q [] h = tt
  All-keep q (x ∷ xs) h = elim (Bool-cases (q x)) [
    | inl kept ↦ rw kept (h.0, All-keep q xs h.1)
    | inr left ↦ rw left (All-keep q xs h.1)
  ]

pub keep-All : {A : Type 0} (q : A → Bool) (xs : List A) → All (λ x. q x ≡ true) (keep q xs)
keep-All q [] = tt
keep-All q (x ∷ xs) = elim (Bool-cases (q x)) [
  | inl kept ↦ rw kept (kept, keep-All q xs)
  | inr left ↦ rw left (keep-All q xs)
]

not-eq-ne : (a b : String) → not (a == b) ≡ true → a ≢ b
not-eq-ne a b h e = ground (arith, h, (eq_iff a b).1 e)

module _ {A : Type 0} {P : A → Type 0} {Q : A → Type 0} where
  pub All-map : ((x : A) → P x → Q x) → (xs : List A) → All P xs → All Q xs
  All-map f [] h = tt
  All-map f (x ∷ xs) h = (f x h.0, All-map f xs h.1)

  pub All-zip :
      {R : A → Type 0}
      → ((x : A) → P x → Q x → R x)
      → (xs : List A) → All P xs
      → All Q xs
      → All R xs
  All-zip f [] h k = tt
  All-zip f (x ∷ xs) h k = (f x h.0 k.0, All-zip f xs h.1 k.1)

pub if-some-cases :
    {A : Type 0} (b : Bool) {d e : A} {later : Option A}
    → Path (Option A) (if b then some d else later) (some e)
    → ((b ≡ true) × (d ≡ e)) ⊎ ((b ≡ false) × (later ≡ some e))
if-some-cases true h = inl (refl, cc h)
if-some-cases false h = inr (refl, h)

if-ok :
    (b : Bool) {d e : FormToken}
    → Path (Result WebError FormToken) (if b then ok d else err form_expired) (ok e)
    → (b ≡ true) × (d ≡ e)
if-ok true h = (refl, ok_inj h)
if-ok false h = cc

accepted-eq-ok :
    (cfg : WebConfig) (action : String) (found : Option FormToken) (e : FormToken)
    → accepted cfg action found ≡ ok e
    → (found ≡ some e) × (e.action ≡ action) × (e.login ≡ cfg.login)
unfolding accepted
accepted-eq-ok cfg action none e h = cc
accepted-eq-ok cfg action (some d) e h =
    let (tests, same) = if-ok (d.action == action && d.login == cfg.login) h in
    let (first, second) = &&-eq_true (d.action == action) (d.login == cfg.login) tests in
    (
      ap some same,
      ap (λ x. x.action) (sym same) ∙ (eq_iff d.action action).0 first,
      ap (λ x. x.login) (sym same) ∙ (eq_iff d.login cfg.login).0 second,
    )

module _ (P : String × FormToken → Type 0) where
  find_token-All :
      (tokens : Tokens) (token : String) (e : FormToken)
      → All P tokens
      → find_token tokens token ≡ some e
      → P (token, e)
  unfolding find_token
  find_token-All [] token e h f = cc
  find_token-All ((t, d) ∷ rest) token e h f = elim (if-some-cases (t == token) f) [
    | inl (same, here) ↦
        subst (λ x. P (x, e)) ((eq_iff t token).0 same) (subst (λ x. P (t, x)) here h.0)
    | inr (other, later) ↦ find_token-All rest token e h.1 later
  ]

find_token-fresh :
    (now : ℕ) (live : Tokens) (token : String) (e : FormToken)
    → All (λ f. ltb now f.1.expires ≡ true) live
    → find_token live token ≡ some e
    → ltb now e.expires ≡ true
find_token-fresh now live token e fresh found =
    find_token-All (λ f. ltb now f.1.expires ≡ true) live token e fresh found

module _ (P : String × FormToken → Type 0) where
  pub delete_token-All :
      (tokens : Tokens) (token : String) → All P tokens → All P (delete_token tokens token)
  unfolding delete_token
  delete_token-All tokens token h = All-keep P _ tokens h

  pub prune_tokens-All :
      (now : ℕ) (tokens : Tokens) → All P tokens → All P (prune_tokens now tokens)
  unfolding prune_tokens
  prune_tokens-All now tokens h = All-keep P _ tokens h

  -- A token that is accepted was live, and had what every token of the store has.
  pub take_token-ok :
      (cfg : WebConfig) (token action : String) (now : ℕ) (tokens : Tokens) (e : FormToken)
      → All P tokens
      → (take_token cfg token action now tokens).1 ≡ ok e
      → P (token, e) × (now < e.expires) × (e.action ≡ action) × (e.login ≡ cfg.login)
  unfolding take_token prune_tokens
  take_token-ok cfg token action now tokens e h t =
      let live = prune_tokens now tokens in
      let (found, same_action, same_login) =
        accepted-eq-ok cfg action (find_token live token) e t in
      (
        find_token-All P live token e (prune_tokens-All now tokens h) found,
        in_time live found (keep-All (λ f. ltb now f.1.expires) tokens),
        same_action,
        same_login,
      )
    where
      in_time :
          (live : Tokens)
          → find_token live token ≡ some e
          → All (λ f. ltb now f.1.expires ≡ true) live
          → now < e.expires
      in_time live found fresh =
          (ltb-lt_iff now e.expires).0 (find_token-fresh now live token e fresh found)

-- No entry has the token after its deletion.
pub delete_token-ne :
    (tokens : Tokens) (token : String) → All (λ f. f.0 ≢ token) (delete_token tokens token)
unfolding delete_token
delete_token-ne tokens token =
    All-map (λ f h. not-eq-ne f.0 token h) _ (keep-All (λ f. not (f.0 == token)) tokens)

pub delete_token-length-le :
    (tokens : Tokens) (token : String) → length (delete_token tokens token) ≤ length tokens
unfolding delete_token
delete_token-length-le tokens token = length-keep-le _ tokens

pub prune_tokens-length-le :
    (now : ℕ) (tokens : Tokens) → length (prune_tokens now tokens) ≤ length tokens
unfolding prune_tokens
prune_tokens-length-le now tokens = length-keep-le _ tokens

pub set_change-length :
    (token : String) (c : PolicyChange) (tokens : Tokens)
    → length (set_change token c tokens) ≡ length tokens
unfolding set_change
set_change-length token c [] = refl
set_change-length token c ((t, e) ∷ rest) = ground (arith, set_change-length token c rest)
