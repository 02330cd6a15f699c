-- ===== src/Mitigation/Sessions.antt =====
-- src/core/mitigation.js, `process`: what the table of sessions lets through.
use shield_wall.Prelude.{
  ℕ, ◌+◌, ◌<◌, ◌≡◌, ap, ◌∙◌, ◌≢◌, none, some, arith, JsMap, get, delete, get-put, get-delete,
  get-put_ne, get-delete_ne, Text, text_eq_refl,
}
use shield_wall.Mitigation.{
  Crypto, Session, Request, redirect, challenge, generate_challenge, medium_high, by_score, process,
}
use shield_wall.Mitigation.Decisions.{medium_high_absent}

by_score-ne-redirect :
    (crypto : Crypto) (sessions : JsMap Session) (r : Request) (score now : ℕ) (nonce path : Text)
    → get r.ip sessions ≡ none
    → (by_score crypto sessions r score nonce now).1 ≢ some (redirect path)
unfolding by_score generate_challenge
by_score-ne-redirect crypto sessions r score now nonce path absent =
    ground (arith, medium_high_absent crypto sessions r nonce now absent)

-- No request is ever redirected as the reward for a solved challenge, whatever the table holds and
-- whatever solution it carries: a session that has not expired lets the request pass before the
-- solution is looked at, and one that has expired is deleted together with its challenge.
pub process-ne-redirect :
    (crypto : Crypto) (sessions : JsMap Session) (r : Request) (score now : ℕ) (nonce path : Text)
    → (process crypto sessions r score nonce now).1 ≢ some (redirect path)
unfolding process
process-ne-redirect crypto sessions r score now nonce path = ground (
  arith,
  by_score-ne-redirect crypto sessions r score now nonce path,
  by_score-ne-redirect crypto (delete r.ip sessions) r score now nonce path,
  get-delete r.ip r.ip sessions,
  text_eq_refl r.ip,
)

-- A challenge is handed out by storing it.
by_score-challenge :
    (crypto : Crypto) (sessions : JsMap Session) (r : Request) (score now : ℕ) (nonce : Text)
    → get r.ip sessions ≡ none
    → (by_score crypto sessions r score nonce now).1 ≡ some (challenge nonce)
    → get r.ip (by_score crypto sessions r score nonce now).0
      ≡ some (record { expected = some nonce; difficulty = 3; expires = now + 300_000 })
unfolding by_score generate_challenge
by_score-challenge crypto sessions r score now nonce absent given =
    let s : Session = record { expected = some nonce; difficulty = 3; expires = now + 300_000 } in
    ground (
      arith,
      medium_high_absent crypto sessions r nonce now absent,
      get-put r.ip r.ip s sessions,
      text_eq_refl r.ip,
    )

process-challenge :
    (crypto : Crypto) (sessions : JsMap Session) (r : Request) (score now : ℕ) (nonce : Text)
    → (process crypto sessions r score nonce now).1 ≡ some (challenge nonce)
    → get r.ip (process crypto sessions r score nonce now).0
      ≡ some (record { expected = some nonce; difficulty = 3; expires = now + 300_000 })
unfolding process
process-challenge crypto sessions r score now nonce given = ground (
  arith,
  by_score-challenge crypto sessions r score now nonce,
  by_score-challenge crypto (delete r.ip sessions) r score now nonce,
  get-delete r.ip r.ip sessions,
  text_eq_refl r.ip,
)

process_live :
    (crypto : Crypto) (sessions : JsMap Session) (r : Request) (score now : ℕ) (nonce : Text)
    (s : Session)
    → get r.ip sessions ≡ some s
    → now < s.expires
    → process crypto sessions r score nonce now ≡ (sessions, none)
unfolding process
process_live crypto sessions r score now nonce s found h = ground arith

-- A client that was handed a challenge passes for the next 300 seconds without solving it: every
-- request of that address before the challenge expires passes at every score, also from 40 on, and
-- the table stays as it is.
pub process-unsolved_challenge_passes :
    (crypto : Crypto) (sessions : JsMap Session) (r next : Request) (score risk now later : ℕ)
    (nonce other : Text)
    → (process crypto sessions r score nonce now).1 ≡ some (challenge nonce)
    → next.ip ≡ r.ip
    → later < now + 300_000
    → process crypto (process crypto sessions r score nonce now).0 next risk other later
      ≡ ((process crypto sessions r score nonce now).0, none)
process-unsolved_challenge_passes crypto sessions r next score risk now later nonce other given same
      h =
    let table = (process crypto sessions r score nonce now).0 in
    process_live crypto table next risk later other _
      (ap (λ ip. get ip table) same ∙ process-challenge crypto sessions r score now nonce given) h

get-medium_high_ne :
    (crypto : Crypto) (sessions : JsMap Session) (r : Request) (now : ℕ) (nonce ip : Text)
    → r.ip ≢ ip
    → get ip (medium_high crypto sessions r nonce now).0 ≡ get ip sessions
unfolding medium_high generate_challenge
get-medium_high_ne crypto sessions r now nonce ip other =
    let unsolved : Session = record {
      expected = some nonce;
      difficulty = 3;
      expires = now + 300_000;
    } in
    let solved : Session = record { expected = none; difficulty = 0; expires = now + 3_600_000 } in
    ground
      (arith, get-put_ne r.ip ip unsolved sessions other, get-put_ne r.ip ip solved sessions other)

get-by_score_ne :
    (crypto : Crypto) (sessions : JsMap Session) (r : Request) (score now : ℕ) (nonce ip : Text)
    → r.ip ≢ ip
    → get ip (by_score crypto sessions r score nonce now).0 ≡ get ip sessions
unfolding by_score
get-by_score_ne crypto sessions r score now nonce ip other =
    ground (arith, get-medium_high_ne crypto sessions r now nonce ip other)

-- A call changes the session of its own sender only.
pub get-process_ne :
    (crypto : Crypto) (sessions : JsMap Session) (r : Request) (score now : ℕ) (nonce ip : Text)
    → r.ip ≢ ip
    → get ip (process crypto sessions r score nonce now).0 ≡ get ip sessions
unfolding process
get-process_ne crypto sessions r score now nonce ip other = ground (
  arith,
  get-by_score_ne crypto sessions r score now nonce ip other,
  get-by_score_ne crypto (delete r.ip sessions) r score now nonce ip other,
  get-delete_ne r.ip ip sessions other,
)
