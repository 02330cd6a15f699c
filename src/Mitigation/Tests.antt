-- ===== src/Mitigation/Tests.antt =====
-- src/core/mitigation.js: the properties at concrete requests.
use shield_wall.Prelude.{
  ◌≡◌, refl, ◌≢◌, ◌↔◌, true, none, some, [], ◌∷◌, arith, JsMap, get, Text, codes,
}
use shield_wall.Mitigation.{Crypto, Session, Request, redirect, verify_solution, process}
use shield_wall.Mitigation.Sessions.{process-ne-redirect, process-unsolved_challenge_passes}
use shield_wall.Mitigation.Comparison.{verify_solution_iff}

-- A digest that is the challenge itself, and solutions that are bytes already.
abbrev plain : Crypto
plain = record { digest = λ c. c; from_hex = λ s. s }

abbrev client : Request
client = record { ip = codes "10.0.0.1"; solution = some (codes "abc"); pathname = codes "/" }

abbrev held : JsMap Session
held =
    (codes "10.0.0.1", record { expected = some (codes "abc"); difficulty = 3; expires = 500 }) ∷ []

process-ne-redirect_example :
    (process plain held client 2000 (codes "n") 600).1 ≢ some (redirect (codes "/"))
process-ne-redirect_example = process-ne-redirect plain held client 2000 600 (codes "n") (codes "/")

process-unsolved_challenge_passes_example :
    process plain (process plain [] client 2000 (codes "n") 7).0 client 9000 (codes "m") 100
    ≡ ((process plain [] client 2000 (codes "n") 7).0, none)
unfolding process verify_solution get
process-unsolved_challenge_passes_example =
    process-unsolved_challenge_passes plain [] client client 2000 9000 7 100 (codes "n") (codes "m")
      refl refl (omega arith)

verify_solution_iff_example :
    (verify_solution plain held (codes "10.0.0.1") (codes "abc") ≡ true) ↔ (
      (codes "abc" ≢ [])
      × ((s : Session) × (e : Text) × (get (codes "10.0.0.1") held ≡ some s)
          × (e ≢ [])
          × (s.expected ≡ some e)
          × (codes "abc" ≡ e)))
verify_solution_iff_example = verify_solution_iff plain held (codes "10.0.0.1") (codes "abc")
