-- ===== src/Admin/Access/Examples.antt =====
-- The access check of a project that BWS does not show.
use secrets_broker.Base.{
  ◌≤◌, String, ◌≡◌, refl, sym, ap, ◌∙◌, Option, some, Bool, true, List, [], ◌∷◌, ℤ, map_err, ok_inj,
  arith,
}
use secrets_broker.Go.{byte_length}
use secrets_broker.Accessdiag.{AccessResult}
use secrets_broker.Projectlist.{ProjectList, Item}
use secrets_broker.Samples.{policy}
use secrets_broker.Worker.Cases.{world}
use secrets_broker.Worker.Access.{AccessError}
use secrets_broker.Worker.Access as Access
use secrets_broker.Worker.Access.Examples.{
  as_is, missing, found, policy-loaded, policy-IsNamed, access-checked,
}
use secrets_broker.Worker.Command.{Output, run}
use secrets_broker.Admin.Access.{Ran, diagnostic_failed, access_output_limit, check_access}
use secrets_broker.Admin.Access.Worker.{ran, check_access-check_access}

abbrev encode : AccessResult → String
encode r = "{}"

abbrev encode_list : ProjectList → String
encode_list r = "{}"

abbrev decode : String → Option (AccessResult × Bool)
decode text = some (found, true)

abbrev decode_list : String → Option (List Item)
decode_list text = some []

abbrev silent : Output
silent = record { code = ℤ.pos 0; out = ""; err_out = "" }

-- `runuser` drops its own four arguments.
abbrev runner : List String → Ran
runner (a ∷ b ∷ c ∷ d ∷ args) =
    ran (run as_is missing decode_list encode_list encode true silent silent world args)
runner args = ran silent

fits : byte_length "{}" ≤ access_output_limit
unfolding byte_length
fits = ground arith

check_access-check_access_example :
    check_access (λ c. true) runner decode "infra"
    ≡ map_err (λ e. diagnostic_failed) (Access.check_access as_is missing world "infra")
check_access-check_access_example =
    check_access-check_access as_is missing decode_list encode_list encode decode silent silent
      (λ c. true) runner world "infra" policy policy-loaded policy-IsNamed
      (λ r checked. (ap (λ x. some (x, true)) (ok_inj (sym access-checked ∙ checked)), fits))
      (λ args. refl)
