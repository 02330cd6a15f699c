-- ===== src/Mitigation/Decisions.antt =====
-- src/core/mitigation.js, `process`: the action for each range of scores.
use shield_wall.Prelude.{
  ℕ, ◌+◌, ◌≤◌, ◌<◌, ◌≡◌, refl, inl, inr, false, none, some, [], ◌∷◌, arith, JsMap, get, put, Text,
  Option-cases,
}
use shield_wall.Mitigation.{
  Crypto, Session, Request, block, challenge, throttle, verify_solution, generate_challenge,
  medium_high, by_score, process,
}

verify_solution_absent :
    (crypto : Crypto) (sessions : JsMap Session) (ip solution : Text)
    → get ip sessions ≡ none
    → verify_solution crypto sessions ip solution ≡ false
unfolding verify_solution
verify_solution_absent crypto sessions ip [] absent = refl
verify_solution_absent crypto sessions ip (c ∷ cs) absent = rw (absent, verify_solution) refl

-- With no session in the table, a solution cannot be accepted: every request in the range of the
-- challenge gets a new one.
pub medium_high_absent :
    (crypto : Crypto) (sessions : JsMap Session) (r : Request) (nonce : Text) (now : ℕ)
    → get r.ip sessions ≡ none
    → medium_high crypto sessions r nonce now ≡ generate_challenge sessions r.ip nonce now
unfolding medium_high
medium_high_absent crypto sessions r nonce now absent = elim (Option-cases r.solution) [
  | inl e ↦ rw (e, medium_high) refl
  | inr (s, e) ↦ rw (e, medium_high, verify_solution_absent crypto sessions r.ip s absent) refl
]

-- What a client meets that has no session in the table: from a score of 40 on it is blocked with
-- code 403, from 15 it gets a new challenge that is remembered for 300 seconds, from 8 it is slowed
-- down by a tenth of a second for each point (so by 800 ms or more, and less than 1500), and below 8
-- it passes. The table changes for the challenge only.
pub process-fresh :
    (crypto : Crypto) (sessions : JsMap Session) (r : Request) (score now : ℕ) (nonce : Text)
    → get r.ip sessions ≡ none
    → let result = process crypto sessions r score nonce now in
      (4000 ≤ score → result ≡ (sessions, some (block 403)))
      × (1500 ≤ score
          → score < 4000
          → result ≡ (
            put r.ip
                (record { expected = some nonce; difficulty = 3; expires = now + 300_000 })
                sessions,
            some (challenge nonce),
          ))
      × (800 ≤ score → score < 1500 → result ≡ (sessions, some (throttle score)))
      × (score < 800 → result ≡ (sessions, none))
unfolding process by_score generate_challenge
process-fresh crypto sessions r score now nonce absent =
    rw (absent, process) (ground (arith, medium_high_absent crypto sessions r nonce now absent))
