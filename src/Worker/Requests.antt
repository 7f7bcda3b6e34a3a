-- ===== src/Worker/Requests.antt =====
-- `decodeRequest` of internal/worker/protocol.go: which requests the worker reads.
mod Examples
use mathlib.Core.Path.{subst}
use secrets_broker.Base.{
  ℕ, ◌≤◌, ◌≡◌, refl, ap, ◌∙◌, inl, inr, Option-cases, ◌≢◌, ◌↔◌, Option, none, some, true, false,
  not, [], is_empty, is_empty_of_ne, ne_of_is_empty, ltb, Result, ok, reject->>-eq-ok, arith,
}
use secrets_broker.Go.{is_blank}
use secrets_broker.Go.Blank.{is_blank_of_ne, ne_of_is_blank}
use secrets_broker.Worker.{
  WorkerRequest, Input, RequestError, too_large, trailing_data, project_required,
  working_dir_required, argv_required, check_request, check_decoded, decode_request,
}

-- The request is the one object of an input within the limit, and says what to run and where.
pub record IsRequest (input : Option Input) (req : WorkerRequest) : Type 0 where
  pub size : ℕ
  pub read : input ≡ some (record { size = size; decoded = some req; ends = true })
  pub bounded : size ≤ 65536
  pub project : req.project ≢ ""
  pub working_dir : req.working_dir ≢ ""
  pub argv : req.argv ≢ []

request_injective :
    {r s : WorkerRequest} → ◌≡◌ {A = Result RequestError WorkerRequest} (ok r) (ok s) → r ≡ s
request_injective e = ground (arith, e)

in_limit : {n : ℕ} → n ≤ 65536 → ltb 65536 n ≡ false
in_limit h = ground arith

check_request_iff :
    (r req : WorkerRequest)
    → (check_request r ≡ ok req)
      ↔ ((r ≡ req) × (r.project ≢ "") × (r.working_dir ≢ "") × (r.argv ≢ []))
unfolding check_request
check_request_iff r req = (
  λ h.
      let (a, h1) = reject->>-eq-ok (is_blank r.project) project_required _ h in
      let (b, h2) = reject->>-eq-ok (is_blank r.working_dir) working_dir_required _ h1 in
      let (c, last) = reject->>-eq-ok (is_empty r.argv) argv_required (ok r) h2 in
      (request_injective last, ne_of_is_blank a, ne_of_is_blank b, ne_of_is_empty r.argv c),
  λ v. rw (is_blank_of_ne v.1, is_blank_of_ne v.2, is_empty_of_ne r.argv v.3) (ap ok v.0),
)

take_request :
    (size : ℕ) (req : WorkerRequest)
    → size ≤ 65536
    → req.project ≢ ""
    → req.working_dir ≢ ""
    → req.argv ≢ []
    → decode_request (some (record { size = size; decoded = some req; ends = true })) ≡ ok req
unfolding decode_request check_decoded
take_request size req small p d a =
    rw (in_limit small) ((check_request_iff req req).1 (refl, p, d, a))

decode_request-IsRequest :
    (input : Option Input) (req : WorkerRequest)
    → decode_request input ≡ ok req
    → IsRequest input req
unfolding decode_request check_decoded
decode_request-IsRequest none req h = cc
decode_request-IsRequest (some input) req h = elim (Option-cases input.decoded) [
  | inl nothing ↦ ground (arith, h, nothing)
  | inr (r, e) ↦
      let (small, h1) = reject->>-eq-ok (ltb 65536 input.size) too_large _ h in
      let (last, h2) =
        reject->>-eq-ok (not input.ends) trailing_data (check_request r) (ground (arith, h1, e)) in
      let (same, p, d, a) = (check_request_iff r req).0 h2 in
      subst (IsRequest (some input)) same (record {
        size = input.size;
        read = ground (arith, e, last);
        bounded = ground arith;
        project = p;
        working_dir = d;
        argv = a;
      })
]

-- A request is read exactly when the input has at most 65536 bytes, is one JSON object that decodes to it
-- with nothing behind it, and the request names a project, a directory and a command.
pub decode_request-IsRequest_iff :
    (input : Option Input) (req : WorkerRequest)
    → (decode_request input ≡ ok req) ↔ IsRequest input req
decode_request-IsRequest_iff input req = (
  decode_request-IsRequest input req,
  λ v. ap decode_request v.read ∙ take_request v.size req v.bounded v.project v.working_dir v.argv,
)
