-- ===== src/Securefile/Examples.antt =====
-- The checks of a file at a small file.
use secrets_broker.Base.{◌≡◌, ◌↔◌, ◌≤◌, refl, true, false, some, ok}
use secrets_broker.Go.{byte_length}
use secrets_broker.Securefile.{Node, Stat, regular, perm_600, perm_022, read}
use secrets_broker.Securefile.Checks.{IsTrusted, read-IsTrusted_iff}

abbrev stat : Stat
stat = record { uid = 0; gid = 0; dev = 1; ino = 7; modified = 20 }

abbrev node : Node
node = record {
  kind = regular;
  perm = perm_600;
  special_bits = false;
  stat = some stat;
  content = "ab";
}

-- A file of root is read by another user where root is allowed.
read-IsTrusted_iff_example : (read 1000 (some node) true 8 perm_022 true ≡ ok "ab") ↔ (
    (n : Node) × (some node ≡ some n)
    × (true ≡ true)
    × IsTrusted 1000 perm_022 true n
    × (byte_length n.content ≤ 8)
    × (n.content ≡ "ab"))
read-IsTrusted_iff_example = read-IsTrusted_iff 1000 (some node) true 8 perm_022 true "ab"

reads : read 1000 (some node) true 8 perm_022 true ≡ ok "ab"
unfolding read byte_length
reads = refl
