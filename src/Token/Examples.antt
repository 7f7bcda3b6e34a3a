-- ===== src/Token/Examples.antt =====
-- A token file with a newline at its end.
use secrets_broker.Base.{◌≡◌, refl, some, ok}
use secrets_broker.Go.{trim_newlines}
use secrets_broker.Token.{resolve_file}

resolves : resolve_file (some "0.token\n") ≡ ok "0.token"
unfolding resolve_file trim_newlines
resolves = refl
