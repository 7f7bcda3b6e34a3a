-- ===== src/Config/Worker.antt =====
-- internal/config/config.go: `ValidateWorker`, `Parse` and `LoadWorker`. The TOML decoder and the
-- read of the file are parameters.
use secrets_broker.Base.{
  String, Option, none, some, not, List, [], ◌∷◌, ◌==◌, Result, Check, ok, err, reject, map_err,
  ◌>>◌,
}
use secrets_broker.Go.{is_blank, is_abs, split}
use secrets_broker.Config.{
  Config, Project, backend_file, approval_backend_tailscale_relay, apply_defaults,
}
use secrets_broker.Config.Validate.{Url, Invalid, validate}

pub data WorkerInvalid : Type 0 where
  file_backend_required token_path_not_absolute relay_backend_required : WorkerInvalid
  bws_binary_not_absolute home_not_absolute command_path_required : WorkerInvalid
  command_path_entry_not_absolute working_dir_not_absolute : String → WorkerInvalid

unfoldable pub validate_path_entries : List String → Check WorkerInvalid
validate_path_entries [] = ok tt
validate_path_entries (dir ∷ rest) =
    reject (not (is_abs dir)) (command_path_entry_not_absolute dir) >> validate_path_entries rest

unfoldable pub validate_working_dirs : List Project → Check WorkerInvalid
validate_working_dirs [] = ok tt
validate_working_dirs (p ∷ rest) =
    reject (not (is_abs p.working_dir)) (working_dir_not_absolute p.alias)
    >> validate_working_dirs rest

-- `(*Config).ValidateWorker`; `os.PathListSeparator` is a colon.
unfoldable pub validate_worker : Config → Check WorkerInvalid
validate_worker c = do
  reject (not (c.token_source.backend == backend_file)) file_backend_required
  reject (not (is_abs c.token_source.file_path)) token_path_not_absolute
  reject (not (c.approval_source.backend == approval_backend_tailscale_relay))
      relay_backend_required
  reject (not (is_abs c.runtime.bws_binary)) bws_binary_not_absolute
  reject (not (is_abs c.runtime.home)) home_not_absolute
  reject (is_blank c.runtime.command_path) command_path_required
  validate_path_entries (split b':' c.runtime.command_path)
  validate_working_dirs c.projects

pub data LoadError : Type 0 where
  unreadable malformed : LoadError
  invalid : Invalid → LoadError

-- `toml.Unmarshal` into a zero `Config`, by the text of the file.
abbrev pub Decoder : Type 0
Decoder = String → Option Config

module _ (parse_url : String → Option Url) (decode : Decoder) where
  parse_decoded : Option Config → Result LoadError Config
  parse_decoded none = err malformed
  parse_decoded (some c) = do
    let cfg = apply_defaults c
    map_err invalid (validate parse_url cfg)
    ok cfg

  unfoldable pub parse : String → Result LoadError Config
  unfolding parse_decoded
  parse text = parse_decoded (decode text)

  -- `securefile.Read` yields `none` when it refuses the file.
  unfoldable pub load_worker : Option String → Result LoadError Config
  unfolding parse
  load_worker none = err unreadable
  load_worker (some text) = parse text
