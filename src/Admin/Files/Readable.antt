-- ===== src/Admin/Files/Readable.antt =====
-- The files whose metadata `readPolicy` accepts, and what `securefile.Read` makes of them.
use secrets_broker.Base.{
  ℕ, String, ◌≡◌, refl, sym, ap, ◌∙◌, ◌≤◌, Bool, true, false, not, Option, none, some, ok, err,
  >>=-eq-ok, reject->>-eq-ok, reject-eq-ok, >>-eq-ok, ok_inj, if◌then◌else◌, not-eq_false,
  ltb-eq_false, arith, eqb, ltb,
}
use mathlib.Core.Path.{subst}
use secrets_broker.Go.{byte_length}
use secrets_broker.Securefile.{
  Node, Perm, Stat, Kind, is_regular, is_symlink, overlaps, perm_022, read, open_file, not_opened,
  validate_node, validate_owner, is_owner, too_open, not_regular, wrong_owner, not_read, too_large,
  regular, symlink, folder, special,
}
use secrets_broker.Admin.Errors.{policy_not_regular, policy_too_open, policy_owner_wrong}
use secrets_broker.Admin.Files.{
  FileMetadata, max_policy_bytes, metadata, metadata_of, same_file, same_perm, same_bool,
}

-- A regular file that only its owner may write, which is the expected one, and whom the process trusts.
pub record IsReadable (euid owner : ℕ) (n : Node) : Type 0 where
  pub kind : is_regular n.kind ≡ true
  pub perm : overlaps n.perm perm_022 ≡ false
  pub stat : Stat
  pub has_stat : n.stat ≡ some stat
  pub expected : stat.uid ≡ owner
  pub trusted : is_owner euid stat true ≡ true

pub metadata_of-eq-ok :
    (owner : ℕ) (n : Node) (o : Option Stat) (m : FileMetadata)
    → metadata_of owner n o ≡ ok m
    → (s : Stat) × (o ≡ some s) × (s.uid ≡ owner) × (m.perm ≡ n.perm) × (m.stat ≡ s)
unfolding metadata_of
metadata_of-eq-ok owner n none m h = cc
metadata_of-eq-ok owner n (some s) m h =
    let (same, h1) = reject->>-eq-ok (not (eqb s.uid owner)) policy_owner_wrong _ h in
    (s, refl, ground arith, ap (λ x. x.perm) (sym (ok_inj h1)), ap (λ x. x.stat) (sym (ok_inj h1)))

pub metadata-eq-ok :
    (owner : ℕ) (n : Node) (m : FileMetadata)
    → metadata owner (some n) ≡ ok m
    → (is_regular n.kind ≡ true)
      × (overlaps n.perm perm_022 ≡ false)
      × ((s : Stat) × (n.stat ≡ some s) × (s.uid ≡ owner) × (m.perm ≡ n.perm) × (m.stat ≡ s))
unfolding metadata
metadata-eq-ok owner n m h =
    let (a, h1) = reject->>-eq-ok (not (is_regular n.kind)) policy_not_regular _ h in
    let (b, h2) = reject->>-eq-ok (overlaps n.perm perm_022) policy_too_open _ h1 in
    (not-eq_false _ a, b, metadata_of-eq-ok owner n n.stat m h2)

pub metadata-Readable :
    (euid owner : ℕ) (n : Node) (r : IsReadable euid owner n)
    → metadata owner (some n)
      ≡ ok (record { perm = n.perm; stat = r.stat; size = byte_length n.content })
unfolding metadata metadata_of
metadata-Readable euid owner n r = rw (r.kind, r.perm, r.has_stat, r.expected) (ground arith)

pub same_bool_refl : (b : Bool) → same_bool b b ≡ true
same_bool_refl true = refl
same_bool_refl false = refl

pub same_perm_refl : (p : Perm) → same_perm p p ≡ true
unfolding same_perm
same_perm_refl p =
    rw
      (
        same_bool_refl p.owner.reads,
        same_bool_refl p.owner.writes,
        same_bool_refl p.owner.executes,
        same_bool_refl p.group.reads,
        same_bool_refl p.group.writes,
        same_bool_refl p.group.executes,
        same_bool_refl p.other.reads,
        same_bool_refl p.other.writes,
        same_bool_refl p.other.executes,
      )
      refl

pub same_file_refl : (m : FileMetadata) → same_file m m ≡ true
unfolding same_file
same_file_refl m = ground (arith, same_perm_refl m.perm)

pub regular-not_symlink : (k : Kind) → is_regular k ≡ true → is_symlink k ≡ false
regular-not_symlink regular h = refl
regular-not_symlink symlink h = cc
regular-not_symlink folder h = refl
regular-not_symlink special h = refl

pub open_file-regular : (n : Node) → is_regular n.kind ≡ true → open_file (some n) ≡ ok n
unfolding open_file
open_file-regular n h = rw (regular-not_symlink n.kind h) refl

pub read-Readable :
    (euid owner : ℕ) (n : Node) (r : IsReadable euid owner n)
    → byte_length n.content ≤ max_policy_bytes
    → read euid (some n) true max_policy_bytes perm_022 true ≡ ok n.content
unfolding read open_file validate_node validate_owner
read-Readable euid owner n r small =
    rw (regular-not_symlink n.kind r.kind, r.kind, r.perm, r.has_stat, r.trusted) (ground arith)

pub is_owner-uid :
    (euid : ℕ) (a b : Stat) → a.uid ≡ b.uid → is_owner euid a true ≡ is_owner euid b true
unfolding is_owner
is_owner-uid euid a b h = rw h refl

pub owner-trusted :
    (euid : ℕ) (s : Stat) (o : Option Stat)
    → o ≡ some s
    → validate_owner euid o true ≡ ok tt
    → is_owner euid s true ≡ true
unfolding validate_owner
owner-trusted euid s none e h = cc
owner-trusted euid s (some t) e h =
    let found = not-eq_false (is_owner euid t true) (reject-eq-ok _ wrong_owner h) in
    subst (λ o. of_stat o ≡ true) e found
  where
    of_stat : Option Stat → Bool
    of_stat none = false
    of_stat (some u) = is_owner euid u true

pub open_file-eq-ok : (n m : Node) → open_file (some n) ≡ ok m → n ≡ m
unfolding open_file
open_file-eq-ok n m h = by_kind (is_symlink n.kind) h
  where
    by_kind : (b : Bool) → (if b then err not_opened else ok n) ≡ ok m → n ≡ m
    by_kind true k = cc
    by_kind false k = ok_inj k

pub read-eq-ok :
    (euid : ℕ) (n : Node) (readable : Bool) (s : Stat) (text : String)
    → n.stat ≡ some s
    → read euid (some n) readable max_policy_bytes perm_022 true ≡ ok text
    → (readable ≡ true) × (is_owner euid s true ≡ true) × (n.content ≡ text)
unfolding read validate_node
read-eq-ok euid n readable s text e h =
    let (m, opened, h1) = >>=-eq-ok (open_file (some n)) _ h in
    let same = open_file-eq-ok n m opened in
    let (checked, h2) = >>-eq-ok (validate_node euid m perm_022 true) _ h1 in
    let (_, c1) = reject->>-eq-ok (not (is_regular m.kind)) not_regular _ checked in
    let (_, c2) = reject->>-eq-ok (overlaps m.perm perm_022) too_open _ c1 in
    let (a, h3) = reject->>-eq-ok (not readable) not_read _ h2 in
    let (_, h4) = reject->>-eq-ok (ltb max_policy_bytes (byte_length m.content)) too_large _ h3 in
    (
      not-eq_false readable a,
      owner-trusted euid s m.stat (ap (λ x. x.stat) (sym same) ∙ e) c2,
      ap (λ x. x.content) same ∙ ok_inj h4,
    )

pub read-small :
    (euid : ℕ) (path : Option Node) (readable : Bool) (text : String)
    → read euid path readable max_policy_bytes perm_022 true ≡ ok text
    → byte_length text ≤ max_policy_bytes
unfolding read
read-small euid path readable text h =
    let (m, _, h1) = >>=-eq-ok (open_file path) _ h in
    let (_, h2) = >>-eq-ok (validate_node euid m perm_022 true) _ h1 in
    let (_, h3) = reject->>-eq-ok (not readable) not_read _ h2 in
    let (small, h4) =
      reject->>-eq-ok (ltb max_policy_bytes (byte_length m.content)) too_large _ h3 in
    subst (λ t. byte_length t ≤ max_policy_bytes) (ok_inj h4)
      (ltb-eq_false max_policy_bytes (byte_length m.content) small)
