-- ===== src/Worker.antt =====
-- internal/worker: the process that holds the credentials. What the two sides say to one another.
pub mod Server
pub mod Access
pub mod Requests
pub mod Client
pub mod Command
pub mod RuntimeCheck
pub mod Cases
use secrets_broker.Base.{
  ℕ, String, Option, none, some, Bool, not, List, [], ◌∷◌, is_empty, ltb, ℤ, Result, ok, err,
  reject, ◌>>=◌, ◌>>◌,
}
use secrets_broker.Go.{is_blank}

abbrev pub max_request_bytes : ℕ
max_request_bytes = 65536

pub record WorkerRequest : Type 0 where
  pub project : String
  pub working_dir : String
  pub argv : List String
  pub is_dry_run : Bool

pub record WorkerResult : Type 0 where
  pub denied : Bool
  pub reason : String
  pub cause : String
  pub exit_code : ℤ

pub data RequestError : Type 0 where
  unreadable too_large malformed trailing_data project_required working_dir_required argv_required :
      RequestError

-- What the reader gives: up to one byte more than the limit, by their number, and what the JSON decoder
-- with `DisallowUnknownFields` makes of them: the request, and whether the end follows it.
pub record Input : Type 0 where
  pub size : ℕ
  pub decoded : Option WorkerRequest
  pub ends : Bool

-- The checks of `decodeRequest` on a decoded request.
unfoldable pub check_request : WorkerRequest → Result RequestError WorkerRequest
check_request req = do
  reject (is_blank req.project) project_required
  reject (is_blank req.working_dir) working_dir_required
  reject (is_empty req.argv) argv_required
  ok req

unfoldable pub check_decoded : Bool → Option WorkerRequest → Result RequestError WorkerRequest
check_decoded ends none = err malformed
check_decoded ends (some req) = reject (not ends) trailing_data >> check_request req

-- `decodeRequest`.
unfoldable pub decode_request : Option Input → Result RequestError WorkerRequest
decode_request none = err unreadable
decode_request (some input) =
    reject (ltb max_request_bytes input.size) too_large >> check_decoded input.ends input.decoded
