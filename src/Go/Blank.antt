-- ===== src/Go/Blank.antt =====
-- The test against the empty text.
use secrets_broker.Base.{String, ◌≡◌, ◌≢◌, false, Bool-cases, inl, inr, arith, eq_iff}
use secrets_broker.Go.{is_blank}

pub is_blank_of_ne : {s : String} → s ≢ "" → is_blank s ≡ false
is_blank_of_ne {s} n = elim (Bool-cases (is_blank s)) [
  | inl e ↦ absurd (n ((eq_iff s "").0 e))
  | inr e ↦ e
]

pub ne_of_is_blank : {s : String} → is_blank s ≡ false → s ≢ ""
ne_of_is_blank {s} b e = ground (arith, eq_iff s "")
