-- ===== src/Admin/Editor/Found.antt =====
-- The project that an edit finds, and the lists that it changes, against the specification.
use secrets_broker.Base.{
  ℕ, ◌+◌, String, ◌≡◌, refl, ap, Bool, true, false, not, Option, none, some, List, [], ◌∷◌, keep,
  is_empty, eq_iff, if◌then◌else◌, arith, inl, inr, Result, ok, not-eq_false, ◌⊎◌,
}
use secrets_broker.Config.{Config, Project, AllowEntry}
use secrets_broker.Admin.Editor.{
  find_indexed, set_project, has_argv, matching_from, is_changed, field_value,
}
use secrets_broker.Admin.Editor.Spec.{change_first, with_projects, change_first-set_project}

pub if-eq-ok {ℓ κ} :
    {E : Type ℓ} {A : Type κ} (b : Bool) (first second : Result E A) {a : A}
    → (if b then first else second) ≡ ok a
    → ((b ≡ true) × (first ≡ ok a)) ⊎ ((b ≡ false) × (second ≡ ok a))
if-eq-ok true first second h = inl (refl, h)
if-eq-ok false first second h = inr (refl, h)

-- No entry to remove: the specification keeps them all.
pub keep-matching_from :
    (argv : List String) (index : ℕ) (allow : List AllowEntry)
    → is_empty (matching_from argv index allow) ≡ true
    → keep (λ e. not (has_argv argv e)) allow ≡ allow
unfolding matching_from
keep-matching_from argv index [] h = refl
keep-matching_from argv index (e ∷ rest) h =
    by_test (has_argv argv e) (keep-matching_from argv (index + 1) rest) h
  where
    by_test :
        (b : Bool)
        → (is_empty (matching_from argv (index + 1) rest) ≡ true
            → keep (λ e. not (has_argv argv e)) rest ≡ rest)
        → is_empty (
            if b
            then index ∷ matching_from argv (index + 1) rest
            else matching_from argv (index + 1) rest)
          ≡ true
        → (if not b
            then e ∷ keep (λ e. not (has_argv argv e)) rest
            else keep (λ e. not (has_argv argv e)) rest)
          ≡ e ∷ rest
    by_test true later h = cc
    by_test false later h = ap (λ es. e ∷ es) (later h)

pub field_value_kept :
    (value : Option String) (current : String)
    → is_changed value current ≡ false
    → field_value value current ≡ current
unfolding is_changed field_value
field_value_kept none current h = refl
field_value_kept (some v) current h = (eq_iff v current).0 (not-eq_false _ h)

-- The project that was found is the one that the specification changes.
pub changed_found :
    (c : Config) (alias : String) (found : ℕ × Project) (change : Project → Project)
    → find_indexed c alias ≡ ok found
    → with_projects c (change_first change alias c.projects)
      ≡ some (record c { projects = set_project c.projects found.0 (change found.1) })
unfolding find_indexed with_projects
changed_found c alias found change h =
    let (same, _) =
      change_first-set_project change alias 0 found.0 c.projects found h (omega arith) in
    rw same

pub unchanged_found :
    (c : Config) (alias : String) (found : ℕ × Project) (change : Project → Project)
    → find_indexed c alias ≡ ok found
    → change found.1 ≡ found.1
    → with_projects c (change_first change alias c.projects) ≡ some c
unfolding find_indexed with_projects
unchanged_found c alias found change h fixed =
    let (same, kept) =
      change_first-set_project change alias 0 found.0 c.projects found h (omega arith) in
    rw (same, fixed, kept)
