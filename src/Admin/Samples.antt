-- ===== src/Admin/Samples.antt =====
-- A disk, a quiet machine and a policy text at which the administration's theorems are tried.
use secrets_broker.Base.{String, true, false, none, some, [], ◌∷◌, if◌then◌else◌}
use secrets_broker.Go.{contains}
use secrets_broker.Samples.{policy, deploys}
use secrets_broker.Config.{Config, approval_allowlisted_prompt}
use secrets_broker.Config.Worker.{Decoder}
use secrets_broker.Securefile.{Node, Stat, regular, folder, perm_600, perm_700}
use secrets_broker.Admin.Files.{System, Disk, Editor, granted}

abbrev pub root_stat : Stat
root_stat = record { uid = 0; gid = 7; dev = 1; ino = 2; modified = 3 }

abbrev pub policy_text : String
policy_text = "# policy\n[[projects]]\nalias = \"infra\"\napproval = 'never' # old\n"

abbrev pub policy_node : Node
policy_node = record {
  kind = regular;
  perm = perm_600;
  special_bits = false;
  stat = some root_stat;
  content = policy_text;
}

abbrev pub folder_node : Node
folder_node = record policy_node { kind = folder; perm = perm_700; content = "" }

abbrev pub quiet : System
quiet = record {
  euid = 0;
  others = λ m path. path;
  fails = λ call. false;
  readable = true;
  policy_folder = some folder_node;
  flock = λ nonblocking. granted;
  temp_stat = some (record root_stat { gid = 0; ino = 9; modified = 4 });
}

abbrev pub disk : Disk
disk = record { policy = some policy_node; temp = none }

abbrev pub root_editor : Editor
root_editor = record { expected_owner = 0; expected_revision = "" }

abbrev pub confirmed_policy : Config
confirmed_policy = record policy {
  projects = record deploys { approval = approval_allowlisted_prompt } ∷ [];
}

-- Reads the approval mode of the sample.
unfoldable pub decode_sample : Decoder
unfolding contains
decode_sample text = if contains text "'never'" then some policy else some confirmed_policy
