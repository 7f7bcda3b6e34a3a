-- ===== src/Worker/Requests/Examples.antt =====
-- The shared request as the worker reads it.
use secrets_broker.Base.{◌≡◌, ◌↔◌, ok}
use secrets_broker.Worker.{decode_request}
use secrets_broker.Worker.Cases.{apply_request, world}
use secrets_broker.Worker.Requests.{IsRequest, decode_request-IsRequest_iff}

decode_request-IsRequest_iff_example :
    (decode_request world.input ≡ ok apply_request) ↔ IsRequest world.input apply_request
decode_request-IsRequest_iff_example = decode_request-IsRequest_iff world.input apply_request
