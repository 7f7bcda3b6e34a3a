-- ===== src/Config/Trusted.antt =====
-- What `ValidateWorker` admits, and a policy that was loaded.
use secrets_broker.Base.{
  String, ◌≡◌, refl, ◌≢◌, ◌↔◌, Option, none, some, true, not, List, [], ◌∷◌, All, arith, eq_iff,
  ◌==◌, inl, inr, ok, err, ◌>>◌, map_err, Check, sym, reject->>-eq-ok, >>-eq-ok, Option-cases,
}
use mathlib.Core.Path.{subst}
use secrets_broker.Go.{is_blank, is_abs, split}
use secrets_broker.Config.{
  Config, Project, apply_defaults, backend_file, approval_backend_tailscale_relay,
}
use secrets_broker.Config.Validate.{Url, validate}
use secrets_broker.Config.Validity.{IsValid, validate-IsValid_iff}
use secrets_broker.Go.Blank.{is_blank_of_ne}
use secrets_broker.Config.Worker.{
  Decoder, invalid, validate_path_entries, validate_working_dirs, validate_worker, malformed, parse,
  command_path_entry_not_absolute, working_dir_not_absolute, file_backend_required,
  token_path_not_absolute, relay_backend_required, bws_binary_not_absolute, home_not_absolute,
  command_path_required,
}

abbrev pub IsAbs : String → Type 0
IsAbs path = is_abs path ≡ true

pub record IsWorker (c : Config) : Type 0 where
  pub token_backend : c.token_source.backend ≡ "file"
  pub token_path : IsAbs c.token_source.file_path
  pub approval_backend : c.approval_source.backend ≡ "tailscale-relay"
  pub bws_binary : IsAbs c.runtime.bws_binary
  pub home : IsAbs c.runtime.home
  pub some_command_path : c.runtime.command_path ≢ ""
  pub command_path : All IsAbs (split b':' c.runtime.command_path)
  pub working_dirs : All (λ p. IsAbs p.working_dir) c.projects

path_entries_iff : (dirs : List String) → (validate_path_entries dirs ≡ ok tt) ↔ All IsAbs dirs
unfolding validate_path_entries
path_entries_iff [] = (λ h. tt, λ h. refl)
path_entries_iff (d ∷ ds) = (
  λ h.
      let (a, rest) = reject->>-eq-ok (not (is_abs d)) (command_path_entry_not_absolute d) _ h in
      (ground arith, (path_entries_iff ds).0 rest),
  λ v. rw v.0 ((path_entries_iff ds).1 v.1),
)

working_dirs_iff :
    (ps : List Project) → (validate_working_dirs ps ≡ ok tt) ↔ All (λ p. IsAbs p.working_dir) ps
unfolding validate_working_dirs
working_dirs_iff [] = (λ h. tt, λ h. refl)
working_dirs_iff (p ∷ ps) = (
  λ h.
      let (a, rest) =
        reject->>-eq-ok (not (is_abs p.working_dir)) (working_dir_not_absolute p.alias) _ h in
      (ground arith, (working_dirs_iff ps).0 rest),
  λ v. rw v.0 ((working_dirs_iff ps).1 v.1),
)

-- `ValidateWorker` passes exactly the policies whose token comes from a file, whose approvals come
-- from the relay, and whose paths (token file, bws binary, home, every entry of the command path and
-- every project's working directory) are all absolute, the command path being set.
pub validate_worker-IsWorker_iff : (c : Config) → (validate_worker c ≡ ok tt) ↔ IsWorker c
unfolding validate_worker
validate_worker-IsWorker_iff c = (
  λ h.
      let (a1, h1) =
        reject->>-eq-ok (not (c.token_source.backend == backend_file)) file_backend_required _ h in
      let (a2, h2) =
        reject->>-eq-ok (not (is_abs c.token_source.file_path)) token_path_not_absolute _ h1 in
      let (a3, h3) =
        reject->>-eq-ok (not (c.approval_source.backend == approval_backend_tailscale_relay))
          relay_backend_required _ h2 in
      let (a4, h4) =
        reject->>-eq-ok (not (is_abs c.runtime.bws_binary)) bws_binary_not_absolute _ h3 in
      let (a5, h5) = reject->>-eq-ok (not (is_abs c.runtime.home)) home_not_absolute _ h4 in
      let (a6, h6) = reject->>-eq-ok (is_blank c.runtime.command_path) command_path_required _ h5 in
      let (a7, h7) =
        >>-eq-ok (validate_path_entries (split b':' c.runtime.command_path))
          (validate_working_dirs c.projects) h6 in
      record {
        token_backend = ground (arith, eq_iff c.token_source.backend "file");
        token_path = ground arith;
        approval_backend = ground (arith, eq_iff c.approval_source.backend "tailscale-relay");
        bws_binary = ground arith;
        home = ground arith;
        some_command_path = λ e. ground (arith, eq_iff c.runtime.command_path "");
        command_path = (path_entries_iff _).0 a7;
        working_dirs = (working_dirs_iff c.projects).0 h7;
      },
  λ v.
      rw
        (
          v.token_backend,
          v.token_path,
          v.approval_backend,
          v.bws_binary,
          v.home,
          is_blank_of_ne v.some_command_path,
          (path_entries_iff (split b':' c.runtime.command_path)).1 v.command_path,
        )
        ((working_dirs_iff c.projects).1 v.working_dirs),
)

map_err->>-eq-ok {ℓ κ ι} :
    {E : Type ℓ} {F : Type κ} {A : Type ι} (f : E → F) (m : Check E) {x a : A}
    → (map_err f m >> ok x) ≡ ok a
    → (m ≡ ok tt) × (x ≡ a)
map_err->>-eq-ok f (ok tt) h = (refl, cc h)
map_err->>-eq-ok f (err e) h = cc

module _ (parse_url : String → Option Url) (decode : Decoder) where
  pub parse-IsValid :
      (text : String) (c : Config)
      → parse parse_url decode text ≡ ok c
      → IsValid parse_url c × ((d : Config) × (decode text ≡ some d) × (c ≡ apply_defaults d))
  unfolding parse
  parse-IsValid text c h = elim (Option-cases (decode text)) [
    | inl e ↦ absurd (malformed_lem e)
    | inr (d, e) ↦ decoded d e (rw e at h)
  ]
    where
      malformed_lem : decode text ≡ none → ⊥
      malformed_lem e = let k : err malformed ≡ ok c = rw e at h in cc k

      decoded :
          (d : Config)
          → decode text ≡ some d
          → (map_err invalid (validate parse_url (apply_defaults d)) >> ok (apply_defaults d))
            ≡ ok c
          → IsValid parse_url c × ((d : Config) × (decode text ≡ some d) × (c ≡ apply_defaults d))
      decoded d e k =
          let (checked, same) =
            map_err->>-eq-ok invalid (validate parse_url (apply_defaults d)) k in
          (
            subst (IsValid parse_url) same ((validate-IsValid_iff parse_url _).0 checked),
            (d, e, sym same),
          )
