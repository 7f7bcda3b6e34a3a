-- ===== src/Audit/Examples.antt =====
-- A run's two lines in a new log.
use Prim.Native.String
use secrets_broker.Base.{String, ◌≡◌, ◌⊎◌, refl, true, false, none, some, List, [], ◌∷◌}
use secrets_broker.Securefile.{regular, perm_600}
use secrets_broker.Audit.{
  AuditRecord, Machine, LogCall, start_call, finish_call, content_of, log_calls,
}
use secrets_broker.Audit.Appends.{HasError, call_lines, log_calls-Appends}

abbrev machine : Machine
machine = record {
  euid = 7;
  new_id = some "ab";
  now = 1;
  created = some (record {
    kind = regular;
    perm = perm_600;
    special_bits = false;
    stat = some (record { uid = 7; gid = 7; dev = 1; ino = 2; modified = 3 });
    content = "";
  });
  write_fails = none;
  syncs = true;
}

abbrev encode : AuditRecord → String
encode r = String.◌++◌ r.event r.run_id

abbrev run_calls : List LogCall
run_calls =
    start_call machine (record { project = "infra"; working_dir = "/srv/infra"; argv = [] })
    ∷ finish_call machine "ab" (record { outcome = "ok"; exit_code = none })
    ∷ []

log_calls-Appends_example :
    (added : String) × (content_of (log_calls encode run_calls none).0 ≡ String.◌++◌ "" added)
    × (HasError (log_calls encode run_calls none).1 ⊎ (added ≡ call_lines encode run_calls))
log_calls-Appends_example = log_calls-Appends encode run_calls none (refl, (refl, tt))

two_lines : content_of (log_calls encode run_calls none).0 ≡ "startab\nfinishab\n"
unfolding log_calls
two_lines = refl
