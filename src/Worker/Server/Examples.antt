-- ===== src/Worker/Server/Examples.antt =====
-- The worker at one command that its policy allows.
use secrets_broker.Base.{All}
use secrets_broker.Worker.Cases.{world}
use secrets_broker.Worker.Server.{serve}
use secrets_broker.Worker.Server.Trust.{IsTrusted, serve-IsTrusted}

serve-IsTrusted_example : All (IsTrusted world) (serve world).1
serve-IsTrusted_example = serve-IsTrusted world
