-- ===== src/Accessdiag/Severity.antt =====
-- The aggregate of internal/accessdiag/result.go as a maximum.
use secrets_broker.Base.{
  ℕ, ◌<◌, String, ◌≡◌, refl, ◌∙◌, ap, sym, inl, inr, true, false, Bool-cases, List, [], ◌∷◌, ltb,
  if◌then◌else◌, ◌==◌, arith,
}
use secrets_broker.Accessdiag.{ProjectResult, worsen, aggregate_from, aggregate}

-- The outcomes, from the best to the worst.
pub data Level : Type 0 where
  all_accessible inaccessible unknown_error api_error network_error authentication_error : Level

abbrev pub rank : Level → ℕ
rank all_accessible = 0
rank inaccessible = 1
rank unknown_error = 2
rank api_error = 3
rank network_error = 4
rank authentication_error = 5

abbrev pub outcome_name : Level → String
outcome_name all_accessible = "all_accessible"
outcome_name inaccessible = "inaccessible"
outcome_name unknown_error = "unknown_error"
outcome_name api_error = "api_error"
outcome_name network_error = "network_error"
outcome_name authentication_error = "authentication_error"

-- The outcome of one project; a text that is no status counts as accessible.
unfoldable pub level_of : String → Level
level_of s =
    if s == "authentication_error"
    then authentication_error
    else if s == "network_error"
    then network_error
    else if s == "api_error"
    then api_error
    else if s == "unknown_error"
    then unknown_error
    else if s == "inaccessible"
    then inaccessible
    else all_accessible

abbrev pub worse : Level → Level → Level
worse a b = if ltb (rank a) (rank b) then b else a

abbrev pub worst : List ProjectResult → Level
worst [] = all_accessible
worst (p ∷ rest) = worse (level_of p.status) (worst rest)

worsen-level :
    (s : String) (l : Level)
    → (s == "authentication_error") ≡ false
    → rank l < 5
    → worsen s (outcome_name l) ≡ outcome_name (worse (level_of s) l)
unfolding worsen level_of
worsen-level s all_accessible a h = ground arith
worsen-level s inaccessible a h = ground arith
worsen-level s unknown_error a h = ground arith
worsen-level s api_error a h = ground arith
worsen-level s network_error a h = ground arith
worsen-level s authentication_error a h = ground arith

worse_assoc : (a b c : Level) → worse (worse a b) c ≡ worse a (worse b c)
worse_assoc a b c = ground arith

worse_comm : (a b : Level) → worse a b ≡ worse b a
worse_comm all_accessible b = ground arith
worse_comm inaccessible b = ground arith
worse_comm unknown_error b = ground arith
worse_comm api_error b = ground arith
worse_comm network_error b = ground arith
worse_comm authentication_error b = ground arith

worse_authentication : (l m : Level) → worse l (worse authentication_error m) ≡ authentication_error
worse_authentication l m = ground arith

level_of_authentication :
    (s : String) → (s == "authentication_error") ≡ true → level_of s ≡ authentication_error
unfolding level_of
level_of_authentication s h = rw h refl

rank-worse-lt :
    (s : String) (l : Level)
    → (s == "authentication_error") ≡ false
    → rank l < 5
    → rank (worse (level_of s) l) < 5
unfolding level_of
rank-worse-lt s l a h = ground arith

aggregate_from-worst :
    (projects : List ProjectResult) (l : Level)
    → rank l < 5
    → aggregate_from (outcome_name l) projects ≡ outcome_name (worse l (worst projects))
unfolding aggregate_from
aggregate_from-worst [] l h = ground arith
aggregate_from-worst (p ∷ rest) l h = elim (Bool-cases (p.status == "authentication_error")) [
  | inl a ↦
      rw (a, level_of_authentication p.status a)
        (sym (ap outcome_name (worse_authentication l (worst rest))))
  | inr a ↦
      rw (a, worsen-level p.status l a h)
        (aggregate_from-worst rest (worse (level_of p.status) l) (rank-worse-lt p.status l a h)
          ∙ ap outcome_name (regroup (level_of p.status) l (worst rest)))
]
  where
    regroup : (a b c : Level) → worse (worse a b) c ≡ worse b (worse a c)
    regroup a b c = ap (λ x. worse x c) (worse_comm a b) ∙ worse_assoc b a c

-- The aggregate of any projects is the outcome of the worst of them, in the order all accessible,
-- inaccessible, unknown error, API error, network error, authentication error, and "all_accessible" when
-- there are none; their order does not matter.
pub aggregate-worst :
    (projects : List ProjectResult) → aggregate projects ≡ outcome_name (worst projects)
unfolding aggregate
aggregate-worst projects =
    aggregate_from-worst projects all_accessible (omega arith)
    ∙ ap outcome_name (start (worst projects))
  where
    start : (l : Level) → worse all_accessible l ≡ l
    start l = ground arith
