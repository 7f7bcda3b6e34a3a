-- ===== src/Lib.antt =====
-- secrets-broker: a verification library of the broker that runs allowlisted commands with secrets from
-- Bitwarden Secrets Manager.
--
-- A caller hands the broker a project, a directory and an argv. The broker writes a start record, looks
-- the project up in its policy, compares the directory, decides by the approval mode and the exact
-- allowlist, asks an approver where the policy says so, resolves the project's access token, runs the
-- command through `bws run`, and writes a finish record. An approval goes over a relay on another device:
-- the approver registers the prompt there and polls for the decision, which a person makes in the relay.
--
-- The parts, by file:
--   Policy         internal/policy/policy.go: `match`, `argv_equal`.
--   Config         internal/config/config.go: the policy's types, `apply_defaults`, `project`.
--                  Config/Validate has `validate`, Config/Worker `validate_worker`, `parse` and
--                  `load_worker`, each check in the source's order with its own error.
--   Broker         internal/broker/broker.go, with its types in Broker/Model: `run` (`Run`), `dry_run`,
--                  `decide`, `same_working_dir`, `format_prompt`. The logger, the approver,
--                  the resolver and the runner are the record `Env`, whose answers may depend on all calls made before; every call is an `Event` of
--                  a `Trace`, newest first, so that a theorem can speak of what was called and in which
--                  order. The steps of `Run` are the functions `after_start`, `run_project`,
--                  `by_verdict`, `ask`, `proceed`, `execute` and `complete`, in that order.
--   Approval       internal/approval: `Decision` and the causes; Approval/Kdialog and
--                  Approval/Tailscale have one `approve` each, with the cause that is told after it.
--   Runner         internal/runner/bws.go: `prepare` with its checks, `launch`, `shell_quote`,
--                  `build_env`. Runner/Shell has a reference of how `sh -c` splits plain and quoted
--                  text into words, after POSIX; it refuses whatever else the shell would interpret.
--   Relay          internal/relay/store.go in Relay/Store: `create`, `get`, `pending_requests`,
--                  `decide`, `sweep`, and `run` for a sequence of calls.
--                  Relay/Server has the handlers of internal/relay/server.go: `post_request`,
--                  `get_status`, `get_page`, `get_dashboard`, `post_decision`, and in Relay/Server/Serve
--                  `serve`, for all that a relay is sent over its lifetime. A request is served at once,
--                  which is an order that the mutex allows; a page is the choice of what it shows.
--                  Relay/Client has what internal/approval/relayclient.go makes of the relay's responses:
--                  `poll`, `register`.
--   Accessdiag     internal/accessdiag/result.go: `aggregate`, `validate`.
--   Projectlist    internal/projectlist/result.go: `from_bws`, `validate_list`.
--   Boundedio      internal/boundedio/buffer.go: `write`.
--   Token          internal/token: `resolve_file`, `resolve_env`, `resolve_secret_service`.
--   Worker         internal/worker/protocol.go: `decode_request`. Worker/Server has internal/worker/server.go:
--                  `serve`, which builds the broker's `Env` from the policy as `Serve` builds the adapters,
--                  over a record `World` of what lies outside the process; a frame's message, and the
--                  frames with the command's own output, are left out. Worker/Access has
--                  internal/worker/access.go and projects.go: `check_access`, `list_projects`.
--                  Worker/RuntimeCheck has `check` of internal/worker/check.go. Worker/Command has the
--                  commands access-check and projects-list of cmd/secrets-broker-worker/main.go: `run`.
--                  Worker/Client has internal/worker/client.go: `run`, which reads the worker's frames.
--   Securefile     internal/securefile/securefile.go: `read`, `open_append`, `validate_private_file`,
--                  `validate_private_dir`, `validate_trusted_dir`, `validate_executable`, over the metadata
--                  of what stands at a path.
--   Audit          internal/audit/jsonl.go: `start`, `finish`, `append_line`, `new_logger`.
--   Admin          internal/admin. Admin/Layout has the text of the policy, from policy.go: the patterns, as
--                  matchers of one line, in Admin/Layout/Lines, and the functions that cut and paste in
--                  Admin/Layout/Edits. Admin/Files has `read_policy` (`readPolicy`) and `write_atomic`
--                  (`writeAtomic`), over a disk that other processes may change at every `Moment` at which
--                  the code looks at it, and a record `System` that tells which calls fail. Admin/Editor
--                  has what each edit makes of the text that was read, its checks included, and in
--                  Admin/Editor/Spec what it is meant to make of the configuration; Admin/Operations has
--                  the operations of `Editor` themselves, the five edits in the one function `perform`.
--                  Admin/ArtifactFiles and Admin/Recovery have recovery.go: `list_artifacts` and
--                  `read_artifact`, and `publish`.
--                  Admin/Removal has `remove_project` and `restore_project` over the record
--                  `RecoveryArtifacts`, as the code has them over the interface; Admin/Removal/Store
--                  is that record for the directory of Admin/Recovery. Admin/Audited has the audited editor
--                  of audit.go, whose calls are a trace, newest first, and Admin/MutationLog its log file.
--                  Admin/Access has the access check and the project list of access.go, with the records
--                  around them in Admin/Access/Diagnostic, and Admin/PathCheck path.go: `check_project_path`.
--   Web            internal/adminweb. Web/Forms has the checks of a posted form, from controls.go; Web/Tokens and
--                  Web/Guard have the form tokens, `admit` (`ServeHTTP`) and `protect_post` (`protectPost`) of
--                  server.go; Web/Controls `review`; Web/Commit `commit_edit` with `commit_answer` (`commit`); and
--                  Web/Serve `serve_web` and `serve_all`, for all that the server is sent over its lifetime.
--                  The calls of the editor are a trace, newest first.
--   Go             what these parts use of Go's library: `filepath.Clean` and `IsAbs`,
--                  `strings.Split` and `Join`, `strconv.QuoteToASCII` and `Quote`.
--   Base           names, tests, lists, results and integers that the others share.
--   Samples        the values at which the theorems are tried.
--
-- How the code is read:
--   Texts are native strings, sequences of code points; what reaches the broker comes out of JSON and
--   TOML decoders, which yield valid UTF-8. Times and durations are natural numbers of nanoseconds, and
--   each store operation takes the one reading of the clock that it makes; its mutex makes it atomic.
--   Seconds and exit codes are signed integers. Go maps are association lists whose order no operation
--   shows.
--   A position in the policy's text is a number of characters, where the code has a number of bytes; the
--   positions come from matches in the same text, so they name the same places. A file's own temporary
--   file is the one that the disk holds beside it, since its name is random.
--   A request to the web pages goes in two steps, its guard up to the token and its handler, between which
--   those of other requests may go in any order; each of the two is one step, and finds the clock, the
--   policy's revision, the projects and the editor's answer as its arguments tell.
--   The polls of an approval are a list of answers that ends when the approval's context is done, which
--   the timeout makes sure of, so the loop is structural recursion; no other loop needs fuel.
--   The TOML and the JSON codecs, SHA-256, `url.Parse`, `filepath.EvalSymlinks`, `unicode.IsPrint`,
--   the random identifiers, `strings.ToLower`, the HTTP calls of the relay client, kdialog and the
--   execution of `bws` and of the commands are parameters. The file system does not change between
--   the two resolutions of one comparison of directories.
--
-- Not modelled: the call of sudo by the worker's client, the sending of HTTP requests, the HTML of the
-- relay's and of the administrator's pages, what the latter show of the checks of a path and of the access,
-- the configuration and the listener of the web server, and the default paths that come from the
-- environment. The command lines, the calls of os/exec and the deployment scripts are input and output
-- around these.
pub mod Web
pub mod Securefile
pub mod Audit
pub mod Admin
pub mod Base
pub mod Go
pub mod Policy
pub mod Config
pub mod Samples
pub mod Approval
pub mod Broker
pub mod Runner
pub mod Relay
pub mod Accessdiag
pub mod Projectlist
pub mod Boundedio
pub mod Token
pub mod Worker
