-- ===== src/Web/Guard/Passes.antt =====
-- What a posted form that passes the guard has shown, and what the guard leaves of the tokens.
use Prim.Native.String
use mathlib.Core.Path.{subst}
use secrets_broker.Base.{
  ℕ, ◌≤◌, String, ◌≡◌, refl, ap, sym, ◌∙◌, Option, none, some, Bool, true, false, not, List, [],
  ◌∷◌, All, length, ◌==◌, eq_iff, if◌then◌else◌, Result, ok, err, >>-eq-ok, reject->>-eq-ok,
  reject-eq-ok, ok_inj, not-eq_false, arith,
}
use secrets_broker.Go.{is_blank}
use secrets_broker.Web.{
  WebConfig, FormToken, WebError, method_not_allowed, origin_denied, form_target_changed,
  policy_changed,
}
use secrets_broker.Web.Forms.{Form, form_value}
use secrets_broker.Web.Tokens.{Tokens, take_token, prune_tokens}
use secrets_broker.Web.Tokens.Live.{
  delete_token-All, prune_tokens-All, delete_token-length-le, prune_tokens-length-le,
}
use secrets_broker.Web.Guard.{
  WebRequest, Passed, is_single, check_form, check_entry, same_revision, passed_entry, check_taken,
  with_form, protect_post,
}

is_single-eq : (vs : List String) (value : String) → is_single vs value ≡ true → vs ≡ value ∷ []
unfolding is_single
is_single-eq [] value h = cc
is_single-eq (v ∷ []) value h = ap (λ x. x ∷ []) ((eq_iff v value).0 h)
is_single-eq (v ∷ w ∷ vs) value h = cc

-- A form that is read comes with the method POST, from the own origin alone.
pub check_form-origin :
    (cfg : WebConfig) (r : WebRequest) (form : Form)
    → check_form cfg r ≡ ok form
    → (r.method ≡ "POST") × (r.origins ≡ String.◌++◌ "https://" cfg.host ∷ [])
unfolding check_form
check_form-origin cfg r form h =
    let (post, h1) = reject->>-eq-ok (not (r.method == "POST")) method_not_allowed _ h in
    let (own, _) =
      reject->>-eq-ok (not (is_single r.origins (String.◌++◌ "https://" cfg.host))) origin_denied _
        h1 in
    (
      (eq_iff r.method "POST").0 (not-eq_false _ post),
      is_single-eq r.origins _ (not-eq_false _ own),
    )

same_revision-eq-ok :
    (revision : String) (current : Option String)
    → same_revision revision current ≡ ok tt
    → current ≡ some revision
unfolding same_revision
same_revision-eq-ok revision none h = cc
same_revision-eq-ok revision (some c) h =
    ap some ((eq_iff c revision).0 (not-eq_false _ (reject-eq-ok _ policy_changed h)))

-- The revision of a token, where it has one, is the policy's.
IsCurrent : FormToken → Option String → Type 0
IsCurrent e current = is_blank e.revision ≡ false → current ≡ some e.revision

revision_checked :
    (blank : Bool) (revision : String) (current : Option String)
    → (if blank then ok tt else same_revision revision current) ≡ ok tt
    → blank ≡ false
    → current ≡ some revision
revision_checked true revision current h b = cc
revision_checked false revision current h b = same_revision-eq-ok revision current h

check_entry-eq-ok :
    (form : Form) (current : Option String) (e d : FormToken)
    → check_entry form current e ≡ ok d
    → (e ≡ d) × IsCurrent e current
unfolding check_entry IsCurrent
check_entry-eq-ok form current e d h =
    let (_, h1) = reject->>-eq-ok _ form_target_changed _ h in
    let (checked, h2) =
      >>-eq-ok (if is_blank e.revision then ok tt else same_revision e.revision current) _ h1 in
    (ok_inj h2, revision_checked (is_blank e.revision) e.revision current checked)

pub record IsPassed (cfg : WebConfig) (action : String) (r : WebRequest) (now : ℕ)
    (current : Option String) (tokens : Tokens) (p : Passed) : Type 0 where
  pub form : check_form cfg r ≡ ok p.form
  pub token : p.token ≡ form_value p.form "csrf"
  pub taken : (take_token cfg p.token action now tokens).1 ≡ ok p.entry
  pub left :
      (protect_post cfg action r now current tokens).0
      ≡ (take_token cfg p.token action now tokens).0
  pub revision : is_blank p.entry.revision ≡ false → current ≡ some p.entry.revision

passed_entry-eq-ok :
    (form : Form) (token : String) (checked : Result WebError FormToken) (p : Passed)
    → passed_entry form token checked ≡ ok p
    → (checked ≡ ok p.entry) × (form ≡ p.form) × (token ≡ p.token)
unfolding passed_entry
passed_entry-eq-ok form token (err e) p h = cc
passed_entry-eq-ok form token (ok e) p h =
    (ap (λ x. ok x.entry) (ok_inj h), ap (λ x. x.form) (ok_inj h), ap (λ x. x.token) (ok_inj h))

check_taken-eq-ok :
    (form : Form) (token : String) (current : Option String)
    (out : Tokens × Result WebError FormToken) (p : Passed)
    → (check_taken form token current out).1 ≡ ok p
    → (out.1 ≡ ok p.entry)
      × (form ≡ p.form)
      × (token ≡ p.token)
      × IsCurrent p.entry current
      × ((check_taken form token current out).0 ≡ out.0)
unfolding check_taken
check_taken-eq-ok form token current (tokens, err e) p h =
    let clash = (passed_entry-eq-ok form token (err e) p h).0 in cc
check_taken-eq-ok form token current (tokens, ok e) p h =
    let (checked, same_form, same_token) =
      passed_entry-eq-ok form token (check_entry form current e) p h in
    let (same, fresh) = check_entry-eq-ok form current e p.entry checked in
    (ap ok same, same_form, same_token, subst (λ x. IsCurrent x current) same fresh, refl)

module _ (cfg : WebConfig) (action : String) (now : ℕ) (current : Option String)
    (tokens : Tokens) where
  with_form-eq-ok :
      (checked : Result WebError Form) (p : Passed)
      → (with_form cfg action now current tokens checked).1 ≡ ok p
      → (checked ≡ ok p.form)
        × (p.token ≡ form_value p.form "csrf")
        × ((take_token cfg p.token action now tokens).1 ≡ ok p.entry)
        × ((with_form cfg action now current tokens checked).0
            ≡ (take_token cfg p.token action now tokens).0)
        × IsCurrent p.entry current
  unfolding with_form
  with_form-eq-ok (err e) p h = cc
  with_form-eq-ok (ok form) p h =
      let token = form_value form "csrf" in
      let out = take_token cfg token action now tokens in
      let (taken, same_form, same_token, fresh, left) =
        check_taken-eq-ok form token current out p h in
      (
        ap ok same_form,
        sym same_token ∙ ap (λ f. form_value f "csrf") same_form,
        subst (λ t. (take_token cfg t action now tokens).1 ≡ ok p.entry) same_token taken,
        left ∙ ap (λ t. (take_token cfg t action now tokens).0) same_token,
        fresh,
      )

  pub protect_post-IsPassed :
      (r : WebRequest) (p : Passed)
      → (protect_post cfg action r now current tokens).1 ≡ ok p
      → IsPassed cfg action r now current tokens p
  unfolding protect_post IsCurrent
  protect_post-IsPassed r p h =
      let (form, token, taken, left, fresh) = with_form-eq-ok (check_form cfg r) p h in
      record { form = form; token = token; taken = taken; left = left; revision = fresh }

  -- The guard only takes tokens away.
  module _ (P : String × FormToken → Type 0) where
    take_token-All :
        (token : String) → All P tokens → All P (take_token cfg token action now tokens).0
    unfolding take_token
    take_token-All token h =
        delete_token-All P (prune_tokens now tokens) token (prune_tokens-All P now tokens h)

    with_form-All :
        (checked : Result WebError Form)
        → All P tokens
        → All P (with_form cfg action now current tokens checked).0
    unfolding with_form check_taken
    with_form-All (err e) h = h
    with_form-All (ok form) h = take_token-All (form_value form "csrf") h

    pub protect_post-All :
        (r : WebRequest) → All P tokens → All P (protect_post cfg action r now current tokens).0
    unfolding protect_post
    protect_post-All r h = with_form-All (check_form cfg r) h

  take_token-length-le :
      (token : String) → length (take_token cfg token action now tokens).0 ≤ length tokens
  unfolding take_token
  take_token-length-le token = omega (
    arith,
    delete_token-length-le (prune_tokens now tokens) token,
    prune_tokens-length-le now tokens,
  )

  with_form-length-le :
      (checked : Result WebError Form)
      → length (with_form cfg action now current tokens checked).0 ≤ length tokens
  unfolding with_form check_taken
  with_form-length-le (err e) = omega arith
  with_form-length-le (ok form) = take_token-length-le (form_value form "csrf")

  pub protect_post-length-le :
      (r : WebRequest) → length (protect_post cfg action r now current tokens).0 ≤ length tokens
  unfolding protect_post
  protect_post-length-le r = with_form-length-le (check_form cfg r)
