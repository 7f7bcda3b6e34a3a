-- ===== src/Web/Tokens.antt =====
-- internal/adminweb/server.go: the form tokens. Each function holds the mutex; the readings of the clock
-- within one of them are taken to be one. The map is a list with each token once, in any order.
pub mod Live
use secrets_broker.Base.{
  ℕ, ◌+◌, String, Option, none, some, not, ◌&&◌, List, [], ◌∷◌, keep, length, leb, ltb, ◌==◌,
  if◌then◌else◌, Result, ok, err,
}
use secrets_broker.Web.{WebConfig, PolicyChange, FormToken, WebError, form_expired}

abbrev pub Tokens : Type 0
Tokens = List (String × FormToken)

abbrev pub max_tokens : ℕ
max_tokens = 128

-- Ten minutes.
abbrev pub form_lifetime : ℕ
form_lifetime = 600_000_000_000

unfoldable pub find_token : Tokens → String → Option FormToken
find_token [] token = none
find_token ((t, e) ∷ rest) token =
    let later = find_token rest token in if t == token then some e else later

unfoldable pub delete_token : Tokens → String → Tokens
delete_token tokens token = keep (λ f. not (f.0 == token)) tokens

unfoldable pub prune_tokens : ℕ → Tokens → Tokens
prune_tokens now tokens = keep (λ f. ltb now f.1.expires) tokens

abbrev pub new_token : WebConfig → String → String → String → ℕ → FormToken
new_token cfg action revision target now = record {
  action = action;
  login = cfg.login;
  revision = revision;
  target = target;
  expires = now + form_lifetime;
  change = none;
}

-- The end of `issueTargetToken`; `random` is `none` when no random bytes can be had.
unfoldable pub add_token : FormToken → Option String → Tokens → Tokens × Option String
unfolding delete_token
add_token entry none tokens = (tokens, none)
add_token entry (some token) tokens = ((token, entry) ∷ delete_token tokens token, some token)

unfoldable pub issue_target_token :
    WebConfig → String → String → String → Option String → ℕ → Tokens → Tokens × Option String
unfolding add_token prune_tokens
issue_target_token cfg action revision target random now tokens =
    let live = prune_tokens now tokens in
    if leb max_tokens (length live)
    then (live, none)
    else add_token (new_token cfg action revision target now) random live

-- `takeToken`.
accepted : WebConfig → String → Option FormToken → Result WebError FormToken
accepted cfg action none = err form_expired
accepted cfg action (some e) =
    if e.action == action && e.login == cfg.login then ok e else err form_expired

unfoldable pub take_token :
    WebConfig → String → String → ℕ → Tokens → Tokens × Result WebError FormToken
unfolding prune_tokens delete_token find_token accepted
take_token cfg token action now tokens =
    let live = prune_tokens now tokens in
    (delete_token live token, accepted cfg action (find_token live token))

-- What `review` stores with the token that it has issued.
unfoldable pub set_change : String → PolicyChange → Tokens → Tokens
set_change token change [] = []
set_change token change ((t, e) ∷ rest) =
    let later = (t, e) ∷ set_change token change rest in
    if t == token then (t, record e { change = some change }) ∷ rest else later
