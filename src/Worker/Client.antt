-- ===== src/Worker/Client.antt =====
-- internal/worker/client.go: `Run`. Starting the worker, sending the request and waiting for the worker's
-- end are parameters, and so is what decoding its output gives: frames, up to the end or an error.
pub mod Transport
mod Examples
use secrets_broker.Base.{
  ℕ, Option, none, some, Bool, not, List, [], ◌∷◌, if◌then◌else◌, Result, ok, err, ◌>>=◌, ◌>>◌,
  reject,
}
use secrets_broker.Worker.{WorkerResult}

-- A frame as it is decoded; a result frame may lack its result.
pub data WireFrame : Type 0 where
  stdout_data stderr_data : List ℕ → WireFrame
  result_frame : Option WorkerResult → WireFrame
  error_frame unknown_frame : WireFrame

-- One decoding: a frame, or an error other than the end of the output.
pub data Reading : Type 0 where
  frame : WireFrame → Reading
  malformed : Reading

pub data ClientError : Type 0 where
  not_started not_sent bad_response output_failed worker_failed unknown_type no_result
        failed_after_result :
      ClientError

-- The ways in which the calls outside can fail: whether the pipes were opened and the worker started,
-- whether the request was sent, whether the caller's streams take what is written to them, and whether the
-- worker ended well.
pub record Session : Type 0 where
  pub starts : Bool
  pub sends : Bool
  pub takes_stdout : Bool
  pub takes_stderr : Bool
  pub ends_well : Bool

module _ (s : Session) where
  -- The loop, with the result that was read last.
  unfoldable pub read_frames :
      List Reading → Option WorkerResult → Result ClientError (Option WorkerResult)
  read_frames [] last = ok last
  read_frames (malformed ∷ rest) last = err bad_response
  read_frames (frame (stdout_data p) ∷ rest) last =
      let more = read_frames rest last in if not s.takes_stdout then err output_failed else more
  read_frames (frame (stderr_data p) ∷ rest) last =
      let more = read_frames rest last in if not s.takes_stderr then err output_failed else more
  read_frames (frame (result_frame r) ∷ rest) last = read_frames rest r
  read_frames (frame error_frame ∷ rest) last = err worker_failed
  read_frames (frame unknown_frame ∷ rest) last = err unknown_type

  -- What `Run` returns after the worker's end.
  unfoldable pub finish_run : Option WorkerResult → Result ClientError WorkerResult
  finish_run none = err no_result
  finish_run (some r) = if not s.ends_well then err failed_after_result else ok r

  -- `(*Client).Run`.
  unfoldable pub run : List Reading → Result ClientError WorkerResult
  run readings = do
    reject (not s.starts) not_started
    reject (not s.sends) not_sent
    last ← read_frames readings none
    finish_run last
