-- ===== src/Securefile/Checks.antt =====
-- What the checks of a file let pass.
use secrets_broker.Base.{
  ℕ, ◌≤◌, String, ◌≡◌, ◌↔◌, ◌⊎◌, refl, sym, ap, ◌∙◌, Bool, true, false, not, Option, none, some,
  ltb, if◌then◌else◌, Result, ok, err, >>=-eq-ok, >>-eq-ok, reject-eq-ok, reject->>-eq-ok, ok_inj,
  not-eq_false, ltb-eq_false, arith,
}
use secrets_broker.Go.{byte_length}
use secrets_broker.Securefile.{
  Node, Perm, Stat, Kind, regular, symlink, folder, special, is_regular, is_symlink, overlaps,
  is_owner, open_file, validate_owner, validate_node, read, not_opened, not_regular, too_open,
  wrong_owner, not_read, too_large, FileError,
}

-- A regular file, no symbolic link, without the forbidden permissions, that belongs to the effective user
-- or, where that is allowed, to root.
pub record IsTrusted (euid : ℕ) (forbidden : Perm) (allow_root : Bool) (n : Node) : Type 0 where
  pub kind : n.kind ≡ regular
  pub perm : overlaps n.perm forbidden ≡ false
  pub stat : Stat
  pub has_stat : n.stat ≡ some stat
  pub owner : (stat.uid ≡ euid) ⊎ ((allow_root ≡ true) × (stat.uid ≡ 0))

regular-eq : (k : Kind) → is_regular k ≡ true → k ≡ regular
regular-eq regular h = refl
regular-eq symlink h = cc
regular-eq folder h = cc
regular-eq special h = cc

is_owner_iff :
    (euid : ℕ) (s : Stat) (allow_root : Bool)
    → (is_owner euid s allow_root ≡ true) ↔ ((s.uid ≡ euid) ⊎ ((allow_root ≡ true) × (s.uid ≡ 0)))
unfolding is_owner
is_owner_iff euid s true = (λ h. ground arith, λ h. ground arith)
is_owner_iff euid s false = (λ h. ground arith, λ h. ground arith)

validate_owner-eq-ok :
    (euid : ℕ) (o : Option Stat) (allow_root : Bool)
    → validate_owner euid o allow_root ≡ ok tt
    → (s : Stat) × (o ≡ some s) × (is_owner euid s allow_root ≡ true)
unfolding validate_owner
validate_owner-eq-ok euid none allow_root h = cc
validate_owner-eq-ok euid (some s) allow_root h =
    (s, refl, not-eq_false _ (reject-eq-ok _ wrong_owner h))

validate_owner-some :
    (euid : ℕ) (s : Stat) (allow_root : Bool)
    → is_owner euid s allow_root ≡ true
    → validate_owner euid (some s) allow_root ≡ ok tt
unfolding validate_owner
validate_owner-some euid s allow_root h = rw h refl

pub validate_node-IsTrusted_iff :
    (euid : ℕ) (n : Node) (forbidden : Perm) (allow_root : Bool)
    → (validate_node euid n forbidden allow_root ≡ ok tt) ↔ IsTrusted euid forbidden allow_root n
unfolding validate_node
validate_node-IsTrusted_iff euid n forbidden allow_root = (
  λ h.
      let (a, h1) = reject->>-eq-ok (not (is_regular n.kind)) not_regular _ h in
      let (b, h2) = reject->>-eq-ok (overlaps n.perm forbidden) too_open _ h1 in
      let (s, has, own) = validate_owner-eq-ok euid n.stat allow_root h2 in
      record {
        kind = regular-eq n.kind (not-eq_false _ a);
        perm = b;
        stat = s;
        has_stat = has;
        owner = (is_owner_iff euid s allow_root).0 own;
      },
  λ v.
      rw (v.kind, v.perm, v.has_stat)
        (validate_owner-some euid v.stat allow_root
          ((is_owner_iff euid v.stat allow_root).1 v.owner)),
)

ok_if-eq-ok :
    (b : Bool) {m n : Node}
    → Path (Result FileError Node) (if b then err not_opened else ok m) (ok n)
    → (b ≡ false) × (m ≡ n)
ok_if-eq-ok true h = cc
ok_if-eq-ok false h = (refl, ok_inj h)

open_file-eq_iff :
    (path : Option Node) (n : Node)
    → (open_file path ≡ ok n) ↔ ((path ≡ some n) × (is_symlink n.kind ≡ false))
unfolding open_file
open_file-eq_iff none n = (λ h. cc, λ h. cc)
open_file-eq_iff (some m) n = (
  λ h.
      let (a, same) = ok_if-eq-ok (is_symlink m.kind) h in
      (ap some same, ap (λ x. is_symlink x.kind) (sym same) ∙ a),
  λ h. ap open_file h.0 ∙ opened h.1,
)
  where
    opened :
        is_symlink n.kind ≡ false
        → Path (Result FileError Node) (if is_symlink n.kind then err not_opened else ok n) (ok n)
    opened a = rw a refl

ltb-false : (a b : ℕ) → b ≤ a → ltb a b ≡ false
ltb-false a b h = ground arith

regular-is_symlink : (k : Kind) → k ≡ regular → is_symlink k ≡ false
regular-is_symlink k h = ap is_symlink h

-- `Read` yields a text exactly when it is the whole content of a readable file within the size limit at
-- the path, that is a regular file and no symbolic link, has none of the forbidden permissions and belongs
-- to the effective user or, where that is allowed, to root.
pub read-IsTrusted_iff :
    (euid : ℕ) (path : Option Node) (readable : Bool) (max : ℕ) (forbidden : Perm)
    (allow_root : Bool) (text : String)
    → (read euid path readable max forbidden allow_root ≡ ok text) ↔ (
        (n : Node) × (path ≡ some n)
        × (readable ≡ true)
        × IsTrusted euid forbidden allow_root n
        × (byte_length n.content ≤ max)
        × (n.content ≡ text))
unfolding read
read-IsTrusted_iff euid path readable max forbidden allow_root text = (
  λ h.
      let (n, opened, h1) = >>=-eq-ok (open_file path) _ h in
      let (valid, h2) = >>-eq-ok (validate_node euid n forbidden allow_root) _ h1 in
      let (a, h3) = reject->>-eq-ok (not readable) not_read _ h2 in
      let (b, h4) = reject->>-eq-ok (ltb max (byte_length n.content)) too_large _ h3 in
      (
        n,
        ((open_file-eq_iff path n).0 opened).0,
        not-eq_false readable a,
        (validate_node-IsTrusted_iff euid n forbidden allow_root).0 valid,
        ltb-eq_false max _ b,
        ok_inj h4,
      ),
  λ (n, at, r, t, fits, same). back n at r t fits same,
)
  where
    back :
        (n : Node)
        → path ≡ some n
        → readable ≡ true
        → IsTrusted euid forbidden allow_root n
        → byte_length n.content ≤ max
        → n.content ≡ text
        → read euid path readable max forbidden allow_root ≡ ok text
    back n at r t fits same =
        let opened = (open_file-eq_iff path n).1 (at, regular-is_symlink n.kind t.kind) in
        let valid = (validate_node-IsTrusted_iff euid n forbidden allow_root).1 t in
        let small = ltb-false max (byte_length n.content) fits in
        rw (opened, valid, r, small) (ap ok same)
