-- ===== src/Approval/Tailscale/Outcome.antt =====
-- internal/approval/tailscale.go: what the answers of the relay make of an approval.
use mathlib.Core.Path.{subst}
use secrets_broker.Base.{
  ℕ, ◌+◌, String, ◌≡◌, refl, ◌∙◌, ap, ◌≢◌, ◌⊎◌, inl, inr, ◌↔◌, Option, none, some, Bool, true,
  false, not, ◌&&◌, Bool-cases, Option-cases, List, [], ◌∷◌, All, any, is_some, ltb, arith, ◌||◌,
  eq_iff, if◌then◌else◌, ◌==◌,
}
use secrets_broker.Approval.{Reply, approved, cause_rejected, cause_expired, cause_unreachable}
use secrets_broker.Approval.Tailscale.{Poll, poll_loop, time_out, approve, deny_as, grant}

-- A status that ends the polling.
abbrev pub Closes : String → Type 0
Closes s = (s ≡ "approved") ⊎ (s ≡ "denied") ⊎ (s ≡ "expired")

-- A poll that leaves the request open: an error, or a status that does not end the polling.
pub data StaysOpen : Poll → Type 0 where
  no_answer : {p : Poll} → p.status ≡ none → StaysOpen p
  waiting : {p : Poll} (s : String) → p.status ≡ some s → ¬ Closes s → StaysOpen p

-- The first poll that does not leave the request open tells `s`.
pub data ClosedBy (s : String) : List Poll → Type 0 where
  now : {p : Poll} {rest : List Poll} → p.status ≡ some s → ClosedBy s (p ∷ rest)
  later : {p : Poll} {rest : List Poll} → StaysOpen p → ClosedBy s rest → ClosedBy s (p ∷ rest)

-- Some poll was answered, and some poll failed while the approval's time was not over.
abbrev pub answered : List Poll → Bool
answered polls = any (λ p. is_some p.status) polls

abbrev pub failed_in_time : List Poll → Bool
failed_in_time polls = any (λ p. not (is_some p.status) && not p.context_done) polls

-- What the polls make of the approval.
pub data Ends : List Poll → Reply × String → Type 0 where
  granted : {polls : List Poll} → ClosedBy "approved" polls → Ends polls grant
  refused : {polls : List Poll} → ClosedBy "denied" polls → Ends polls (deny_as cause_rejected)
  lapsed : {polls : List Poll} → ClosedBy "expired" polls → Ends polls (deny_as cause_expired)
  unanswered :
      {polls : List Poll} (c : String)
      → All StaysOpen polls
      → c ≡ (
          if failed_in_time polls && not (answered polls) then cause_unreachable else cause_expired)
      → Ends polls (deny_as c)

-- The same for a loop that has already counted `n` failures, and seen an answer or not.
abbrev late_cause : ℕ → Bool → List Poll → String
late_cause n seen polls =
    if (ltb 0 n || failed_in_time polls) && not (seen || answered polls)
    then cause_unreachable
    else cause_expired

data From (n : ℕ) (seen : Bool) (polls : List Poll) : Reply × String → Type 0 where
  by_grant : ClosedBy "approved" polls → From n seen polls grant
  by_refusal : ClosedBy "denied" polls → From n seen polls (deny_as cause_rejected)
  by_lapse : ClosedBy "expired" polls → From n seen polls (deny_as cause_expired)
  left_open :
      (c : String)
      → All StaysOpen polls
      → c ≡ late_cause n seen polls
      → From n seen polls (deny_as c)

From-later :
    {n m : ℕ} {seen before : Bool} {p : Poll} {rest : List Poll} {r : Reply × String}
    → StaysOpen p
    → late_cause n seen rest ≡ late_cause m before (p ∷ rest)
    → From n seen rest r
    → From m before (p ∷ rest) r
From-later o e (by_grant c) = by_grant (later o c)
From-later o e (by_refusal c) = by_refusal (later o c)
From-later o e (by_lapse c) = by_lapse (later o c)
From-later o e (left_open c a h) = left_open c (o, a) (h ∙ e)

time_out-From : (n : ℕ) (seen : Bool) → From n seen [] (time_out n seen)
unfolding time_out
time_out-From n seen = left_open _ tt (ground arith)

not_closing :
    (s : String)
    → (s == "approved") ≡ false
    → (s == "denied") ≡ false
    → (s == "expired") ≡ false
    → ¬ Closes s
not_closing s a b c h = ground (arith, eq_iff s "approved", eq_iff s "denied", eq_iff s "expired")

poll_loop-From :
    (n : ℕ) (seen : Bool) (polls : List Poll) → From n seen polls (poll_loop n seen polls)
unfolding poll_loop
poll_loop-From n seen [] = time_out-From n seen
poll_loop-From n seen (p ∷ rest) = elim (Option-cases p.status) [
  | inl e ↦ subst (From n seen (p ∷ rest)) (rw e) (
      From-later (no_answer e) (ground (arith, e))
        (poll_loop-From (if p.context_done then n else n + 1) seen rest))
  | inr (s, e) ↦ elim (Bool-cases (s == "approved")) [
    | inl a ↦
        subst (From n seen (p ∷ rest)) (rw (e, a))
          (by_grant (now (e ∙ ap some ((eq_iff s "approved").0 a))))
    | inr a ↦ elim (Bool-cases (s == "denied")) [
      | inl b ↦
          subst (From n seen (p ∷ rest)) (rw (e, a, b))
            (by_refusal (now (e ∙ ap some ((eq_iff s "denied").0 b))))
      | inr b ↦ elim (Bool-cases (s == "expired")) [
        | inl c ↦
            subst (From n seen (p ∷ rest)) (rw (e, a, b, c))
              (by_lapse (now (e ∙ ap some ((eq_iff s "expired").0 c))))
        | inr c ↦ subst (From n seen (p ∷ rest)) (rw (e, a, b, c)) (
            From-later (waiting s e (not_closing s a b c)) (ground (arith, e))
              (poll_loop-From n true rest))
      ]
    ]
  ]
]

-- The relay's answers decide on one end: polls that one status closes are closed by no other.
not_open : {p : Poll} {s : String} → Closes s → p.status ≡ some s → ¬ StaysOpen p
not_open c e (no_answer h) = ground (arith, e, h)
not_open c e (waiting t h n) = n (subst Closes (ground (arith, e, h)) c)

ClosedBy-unique :
    {s t : String} {polls : List Poll}
    → Closes s
    → Closes t
    → ClosedBy s polls
    → ClosedBy t polls
    → s ≡ t
ClosedBy-unique c d (now e) (now h) = ground (arith, e, h)
ClosedBy-unique c d (now e) (later o x) = absurd (not_open c e o)
ClosedBy-unique c d (later o x) (now h) = absurd (not_open d h o)
ClosedBy-unique c d (later o x) (later o' y) = ClosedBy-unique c d x y

apart_from_open :
    {s : String} {polls : List Poll} → Closes s → ClosedBy s polls → ¬ All StaysOpen polls
apart_from_open c (now e) (o, rest) = not_open c e o
apart_from_open c (later o x) (o', rest) = apart_from_open c x rest

Ends-From : {polls : List Poll} {r : Reply × String} → From 0 false polls r → Ends polls r
Ends-From (by_grant c) = granted c
Ends-From (by_refusal c) = refused c
Ends-From (by_lapse c) = lapsed c
Ends-From (left_open c a h) = unanswered c a h

apart : {s t : String} → (s == t) ≡ false → s ≢ t
apart {s} {t} h e = ground (arith, h, e, eq_iff s t)

Ends-approved :
    {polls : List Poll} {r : Reply × String}
    → Ends polls r
    → (r.0.decision ≡ approved) ↔ ClosedBy "approved" polls
Ends-approved (granted c) = (λ h. c, λ h. refl)
Ends-approved (refused c) =
    (λ h. cc, λ h. absurd (apart refl (ClosedBy-unique (inl refl) (inr (inl refl)) h c)))
Ends-approved (lapsed c) =
    (λ h. cc, λ h. absurd (apart refl (ClosedBy-unique (inl refl) (inr (inr refl)) h c)))
Ends-approved (unanswered c a e) = (λ h. cc, λ h. absurd (apart_from_open (inl refl) h a))

-- Once the identifier is made and the relay has taken the registration, the first poll that tells
-- "approved", "denied" or "expired" ends the approval: "approved" grants it, "denied" denies it with
-- the cause "rejected", "expired" denies it with "expired". When no poll tells one of the three, the
-- approval is denied: with "unreachable" when no poll was answered and one failed in time, else with
-- "expired".
pub approve-Ends :
    (id : String) (registered : String → Bool) (polls : List Poll)
    → registered id ≡ true
    → Ends polls (approve (some id) registered polls)
unfolding approve
approve-Ends id registered polls r = rw r (Ends-From (poll_loop-From 0 false polls))

-- An approval is granted exactly when an identifier was made, the relay took the registration under it,
-- and the first poll that tells of an end tells "approved".
pub approve-approved_iff :
    (made : Option String) (registered : String → Bool) (polls : List Poll)
    → ((approve made registered polls).0.decision ≡ approved)
      ↔ ((id : String) × (made ≡ some id) × (registered id ≡ true) × ClosedBy "approved" polls)
unfolding approve
approve-approved_iff none registered polls = (λ h. cc, λ (id, e, r, c). cc)
approve-approved_iff (some id) registered polls = elim (Bool-cases (registered id)) [
  | inl took ↦
      let told = Ends-approved (approve-Ends id registered polls took) in
      (λ h. (id, refl, took, told.0 h), λ (id', e, r, c). told.1 c)
  | inr refused_it ↦ (λ h. cc, λ (id', e, r, c). ground (arith, e, r))
]
