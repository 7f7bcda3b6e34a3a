-- ===== src/Broker/Table.antt =====
-- The table of approval modes in README.md, and that `decide` follows it.
use secrets_broker.Base.{
  arith, ◌⊎◌, String, ◌≡◌, Bool, true, false, Bool-cases, inl, inr, List, Any,
}
use secrets_broker.Config.{Project, allow_argv}
use secrets_broker.Policy.{match}
use secrets_broker.Policy.Matching.{match-eq_true_iff}
use secrets_broker.Broker.{Verdict, deny, allow, prompt, decide}

pub data Mode : Type 0 where
  never prompt_unlisted allowlisted_prompt always : Mode

abbrev pub mode_name : Mode → String
mode_name never = "never"
mode_name prompt_unlisted = "prompt"
mode_name allowlisted_prompt = "allowlisted-prompt"
mode_name always = "always"

-- The table: the first column is that of an exact allowlist match.
abbrev pub table : Mode → Bool → Verdict
table never true = allow
table never false = deny
table prompt_unlisted true = allow
table prompt_unlisted false = prompt
table allowlisted_prompt true = prompt
table allowlisted_prompt false = deny
table always listed = prompt

-- The command is, word for word, an entry of the project's allowlist.
abbrev pub IsListed : Project → List String → Type 0
IsListed p argv = Any (λ entry. entry ≡ argv) (allow_argv p)

decide_by_match :
    (p : Project) (argv : List String) (m : Mode)
    → p.approval ≡ mode_name m
    → (b : Bool) → match (allow_argv p) argv ≡ b
    → decide p argv ≡ table m b
unfolding decide
decide_by_match p argv never e true h = rw (h, e)
decide_by_match p argv never e false h = rw (h, e)
decide_by_match p argv prompt_unlisted e true h = rw (h, e)
decide_by_match p argv prompt_unlisted e false h = rw (h, e)
decide_by_match p argv allowlisted_prompt e true h = rw (h, e)
decide_by_match p argv allowlisted_prompt e false h = rw (h, e)
decide_by_match p argv always e b h = rw e

-- In every approval mode, `decide` gives the verdict of the table's first column for a command that is
-- an entry of the allowlist, and that of the second for any other.
pub decide-table :
    (p : Project) (argv : List String) (m : Mode)
    → p.approval ≡ mode_name m
    → (IsListed p argv × (decide p argv ≡ table m true))
      ⊎ ((¬ IsListed p argv) × (decide p argv ≡ table m false))
decide-table p argv m e =
    let (to, from) = match-eq_true_iff (allow_argv p) argv in
    elim (Bool-cases (match (allow_argv p) argv)) [
      | inl h ↦ inl (to h, decide_by_match p argv m e true h)
      | inr h ↦ inr (λ listed. ground (arith, h, from listed), decide_by_match p argv m e false h)
    ]
