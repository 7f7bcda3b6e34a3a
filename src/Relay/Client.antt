-- ===== src/Relay/Client.antt =====
-- internal/approval/relayclient.go, as the client of the relay's control side: what it makes of a response.
-- A request that gets no response is `none`.
pub mod Grant
mod Examples
use secrets_broker.Base.{String, Option, none, some, Bool, false, not, eqb, if◌then◌else◌}
use secrets_broker.Relay.Store.{Status, pending, approved, denied, expired}
use secrets_broker.Relay.Server.{Response, created, ok_view, status_code}

-- The JSON of a `Status`.
abbrev pub status_name : Status → String
status_name pending = "pending"
status_name approved = "approved"
status_name denied = "denied"
status_name expired = "expired"

-- The status that the body decodes to. Only a view is written as JSON.
abbrev pub decoded_status : Response → Option String
decoded_status (ok_view view) = some (status_name view.status)
decoded_status (created view) = some (status_name view.status)
decoded_status r = none

-- `(*HTTPRelayClient).Poll`.
unfoldable pub poll : Option Response → Option String
poll none = none
poll (some r) = if not (eqb (status_code r) 200) then none else decoded_status r

-- `(*HTTPRelayClient).Register`: `true` for no error.
unfoldable pub register : Option Response → Bool
register none = false
register (some r) = eqb (status_code r) 201
