-- ===== src/Relay/Server/Origin.antt =====
-- Where a decision request of internal/relay/server.go comes from: `sameOrigin`.
use secrets_broker.Base.{
  String, ◌≡◌, refl, ◌≢◌, ◌⊎◌, inl, inr, Option, none, some, true, Bool-cases, eq_iff, arith,
}
use secrets_broker.Go.{is_blank}
use secrets_broker.Go.Blank.{is_blank_of_ne, ne_of_is_blank}
use secrets_broker.Config.Validate.{Url}
use secrets_broker.Relay.Server.{
  DecisionRequest, expected_scheme, matches_host, source_of, same_origin,
}

module _ (parse_url : String → Option Url) where
  -- The header that tells where the request comes from is a URL of the server's own scheme and host.
  abbrev pub NamesHost : DecisionRequest → String → Type 0
  NamesHost r header =
      (u : Url) × (parse_url header ≡ some u) × (u.scheme ≡ expected_scheme r) × (u.host ≡ r.host)

  -- `Origin` tells where the request comes from, or `Referer` where there is no `Origin`; a request with
  -- neither does not come from a page.
  abbrev pub IsFromHere : DecisionRequest → Type 0
  IsFromHere r =
      ((r.origin ≢ "") × NamesHost r r.origin)
      ⊎ ((r.origin ≡ "") × (r.referer ≢ "") × NamesHost r r.referer)
      ⊎ ((r.origin ≡ "") × (r.referer ≡ ""))

  matches_host_from :
      (r : DecisionRequest) (found : Option Url)
      → matches_host r found ≡ true
      → (u : Url) × (found ≡ some u) × (u.scheme ≡ expected_scheme r) × (u.host ≡ r.host)
  unfolding matches_host
  matches_host_from r none h = cc
  matches_host_from r (some u) h = (
    u,
    refl,
    ground (arith, h, eq_iff u.scheme (expected_scheme r)),
    ground (arith, h, eq_iff u.host r.host),
  )

  matches_host_to :
      (r : DecisionRequest) (found : Option Url) (u : Url)
      → found ≡ some u
      → u.scheme ≡ expected_scheme r
      → u.host ≡ r.host
      → matches_host r found ≡ true
  unfolding matches_host
  matches_host_to r none u e s h = cc
  matches_host_to r (some v) u e s h =
      ground (arith, e, s, h, eq_iff v.scheme (expected_scheme r), eq_iff v.host r.host)

  pub same_origin-IsFromHere : (r : DecisionRequest) → same_origin parse_url r ≡ true → IsFromHere r
  unfolding same_origin source_of
  same_origin-IsFromHere r h = elim (Bool-cases (is_blank r.origin)) [
    | inl o ↦ elim (Bool-cases (is_blank r.referer)) [
      | inl f ↦ inr (inr ((eq_iff r.origin "").0 o, (eq_iff r.referer "").0 f))
      | inr f ↦ inr (
          inl (
            (eq_iff r.origin "").0 o,
            ne_of_is_blank f,
            matches_host_from r (parse_url r.referer) (ground (arith, h, o, f)),
          ))
    ]
    | inr o ↦
        inl (ne_of_is_blank o, matches_host_from r (parse_url r.origin) (ground (arith, h, o)))
  ]

  pub IsFromHere-same_origin : (r : DecisionRequest) → IsFromHere r → same_origin parse_url r ≡ true
  unfolding same_origin source_of matches_host
  IsFromHere-same_origin r (inl (o, (u, e, s, h))) =
      rw (is_blank_of_ne o, is_blank_of_ne o) (matches_host_to r _ u e s h)
  IsFromHere-same_origin r (inr (inl (o, f, (u, e, s, h)))) =
      rw (o, is_blank_of_ne f) (matches_host_to r _ u e s h)
  IsFromHere-same_origin r (inr (inr (o, f))) = rw (o, f) refl
