-- ===== src/Token.antt =====
-- internal/token: the three resolvers. What the file, the environment and secret-tool answer is a
-- parameter; a `Token` is the text that it holds.
pub mod Trimming
mod Examples
use secrets_broker.Base.{
  String, Option, none, some, not, ℤ, is_zero, if◌then◌else◌, ◌==◌, Result, ok, err,
}
use secrets_broker.Go.{is_blank, trim_newlines}

pub data TokenError : Type 0 where
  unreadable not_set empty_token not_started lookup_failed : TokenError

abbrev pub not_empty : String → Result TokenError String
not_empty value = if is_blank value then err empty_token else ok value

-- `(*FileResolver).Resolve`, by what `securefile.Read` gives.
unfoldable pub resolve_file : Option String → Result TokenError String
resolve_file none = err unreadable
resolve_file (some content) = not_empty (trim_newlines content)

-- `(*EnvResolver).Resolve`, by what `os.LookupEnv` gives.
unfoldable pub resolve_env : Option String → Result TokenError String
resolve_env none = err not_set
resolve_env (some value) = not_empty value

-- `(*SecretServiceResolver).Resolve`, by the exit code and the output of `secret-tool lookup`.
unfoldable pub resolve_secret_service : Option (ℤ × String) → Result TokenError String
resolve_secret_service none = err not_started
resolve_secret_service (some (code, output)) =
    if not (is_zero code) then err lookup_failed else not_empty (trim_newlines output)
