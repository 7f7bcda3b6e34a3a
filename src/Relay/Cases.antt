-- ===== src/Relay/Cases.antt =====
-- A request that is registered and approved by a script, for the tests of the relay.
use secrets_broker.Base.{ℕ, none, some, false, List, [], ◌∷◌}
use secrets_broker.Relay.Server.{DecisionRequest}
use secrets_broker.Relay.Server.Serve.{Served, registration, decision}

abbrev pub approve_a : DecisionRequest
approve_a = record {
  id = "a";
  origin = "";
  referer = "";
  content_type = "application/json";
  host = "relay:7621";
  tls = false;
  form = none;
  json = some "approve";
}

abbrev pub calls : List (ℕ × Served)
calls = (10, registration "a" (some "run a") 11) ∷ (20, decision approve_a) ∷ []
