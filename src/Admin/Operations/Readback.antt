-- ===== src/Admin/Operations/Readback.antt =====
-- The editor reads back what it has written.
use secrets_broker.Base.{String, ◌≡◌, ◌∙◌, inl, inr, true, Option, none, some, List, ok}
use secrets_broker.Go.{is_blank}
use secrets_broker.Config.Validate.{Url}
use secrets_broker.Config.Worker.{Decoder}
use secrets_broker.Config.Trusted.{validate_worker-IsWorker_iff}
use secrets_broker.Securefile.{Node}
use secrets_broker.Admin.Files.{System, Editor, Disk, Snapshot, Moment, read_policy}
use secrets_broker.Admin.Files.Reading.{read-replaced, loaded-ok}
use secrets_broker.Admin.Editor.Spec.{Edit, edit_config}
use secrets_broker.Admin.Operations.{perform}
use secrets_broker.Admin.Operations.Refines.{perform-Performed}

module _ (json_text : String → String) (json_argv : List String → String)
    (parse_url : String → Option Url) (decode : Decoder) (digest : String → String) (sys : System)
    (e : Editor) where
  -- While nobody else changes the policy file, an editor without an expected revision that reports a
  -- change can read the policy that it has written, and reads exactly what the specification of the edit
  -- makes of the policy before. No temporary file of an earlier write is there at first.
  pub read_policy-perform :
      (edit : Edit) (d : Disk)
      → ((m : Moment) (path : Option Node) → sys.others m path ≡ path)
      → is_blank e.expected_revision ≡ true
      → d.temp ≡ none
      → (perform json_text json_argv parse_url decode digest sys e edit d).1 ≡ ok true
      → (before : Snapshot) × ((read_policy sys parse_url decode digest e d).1 ≡ ok before)
        × ((after : Snapshot) × ((read_policy sys parse_url decode digest e
                (perform json_text json_argv parse_url decode digest sys e edit d).0).1
              ≡ ok after)
            × (edit_config edit before.config ≡ some after.config))
  read_policy-perform edit d quiet blank n h =
      let p = perform-Performed json_text json_argv parse_url decode digest sys e edit d true n h in
      elim p.outcome [
        | inl same ↦ let no_change = same.0 in cc
        | inr (_, (node, has, r, small, loads, worker, _)) ↦
            let (m, read, _, _) =
              read-replaced sys parse_url decode digest e quiet d
                (perform json_text json_argv parse_url decode digest sys e edit d).0 p.read node
                p.was_read has r small in
            (
              p.read,
              p.was_read,
              (
                record { text = node.content; config = p.config; metadata = m },
                read
                    ∙ loaded-ok sys parse_url decode digest e node.content p.config m blank loads
                        ((validate_worker-IsWorker_iff p.config).1 worker),
                p.applied,
              ),
            )
      ]
