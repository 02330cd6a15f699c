-- ===== src/Mitigation.antt =====
-- src/core/mitigation.js: what happens to a request of a given risk score. The table of sessions is
-- `CHALLENGE_SESSIONS`; an entry of the table is a challenge that was handed out, or the pass of a
-- client that solved one, which has no expected value. Node's `crypto`, `Buffer` and `URL` are not part
-- of the program: they come as `Crypto` and as the fields of `Request`.
pub mod Decisions
pub mod Sessions
pub mod Comparison
mod Tests
use shield_wall.Prelude.{
  ℕ, zero, suc, ◌+◌, min, Bool, true, false, ◌&&◌, Option, none, some, List, [], ◌∷◌, Text, JsMap,
  get, put, delete, length, ltb, leb, ◌==◌, if◌then◌else◌,
}
use Prim.Native.Nat.{bit_or, bit_xor}

-- `digest c` holds the bytes of the HMAC-SHA256 of the challenge `c` under the server's secret, and
-- `from_hex s` is `Buffer.from(s, 'hex')`.
pub record Crypto : Type 0 where
  pub digest : Text → List ℕ
  pub from_hex : Text → List ℕ

pub record Session : Type 0 where
  pub expected : Option Text
  pub difficulty : ℕ
  pub expires : ℕ

pub record Request : Type 0 where
  pub ip : Text
  -- `url.searchParams.get('__shield_solve')` and `url.pathname`
  pub solution : Option Text
  pub pathname : Text

pub data Action : Type 0 where
  block : ℕ → Action
  redirect : Text → Action
  challenge : Text → Action
  throttle : ℕ → Action

-- `result |= a[i] ^ b[i]` over the bytes of two buffers; a byte that is missing counts as 0.
unfoldable pub diff : ℕ → List ℕ → List ℕ → ℕ
diff acc [] bs = acc
diff acc (a ∷ xs) [] = diff (bit_or acc a) xs []
diff acc (a ∷ xs) (b ∷ ys) = diff (bit_or acc (bit_xor a b)) xs ys

unfoldable pub same_bytes : List ℕ → List ℕ → Bool
unfolding diff
same_bytes xs ys = if length xs == length ys then diff 0 xs ys == 0 else false

-- `_generateChallengePage`: the page holds the random challenge, which is remembered.
unfoldable pub generate_challenge : JsMap Session → Text → Text → ℕ → JsMap Session × Option Action
generate_challenge sessions ip nonce now = (
  put ip (record { expected = some nonce; difficulty = 3; expires = now + 300_000 }) sessions,
  some (challenge nonce),
)

module _ (crypto : Crypto) where
  -- The comparison with the expected challenge of a session, if the session has one.
  solves : Option Text → Text → Bool
  unfolding same_bytes
  solves none solution = false
  solves (some []) solution = false
  solves (some (x ∷ e)) solution = same_bytes (crypto.digest (x ∷ e)) (crypto.from_hex solution)

  unfoldable pub verify_solution : JsMap Session → Text → Text → Bool
  unfolding solves
  verify_solution sessions ip [] = false
  verify_solution sessions ip (c ∷ cs) = elim (get ip sessions) [
    | none ↦ false
    | some s ↦ solves s.expected (c ∷ cs)
  ]

  pub medium_high : JsMap Session → Request → Text → ℕ → JsMap Session × Option Action
  unfolding generate_challenge
  medium_high sessions r nonce now = elim r.solution [
    | none ↦ generate_challenge sessions r.ip nonce now
    | some s ↦
        if verify_solution sessions r.ip s
        then (
          put r.ip (record { expected = none; difficulty = 0; expires = now + 3_600_000 }) sessions,
          some (redirect r.pathname),
        )
        else generate_challenge sessions r.ip nonce now
  ]

  by_score : JsMap Session → Request → ℕ → Text → ℕ → JsMap Session × Option Action
  unfolding medium_high
  by_score sessions r score nonce now =
      if leb 4000 score
      then (sessions, some (block 403))
      else if leb 1500 score
      then medium_high sessions r nonce now
      else if leb 800 score
      then (sessions, some (throttle (min score 3000)))
      else (sessions, none)

  -- `score` counts hundredths, so that `score * 100` milliseconds are `score` here.
  -- `process`: the new table, and the action, `none` if the request passes. `nonce` is the challenge
  -- that `crypto.randomBytes` would give.
  unfoldable pub process : JsMap Session → Request → ℕ → Text → ℕ → JsMap Session × Option Action
  unfolding by_score
  process sessions r score nonce now = elim (get r.ip sessions) [
    | none ↦ by_score sessions r score nonce now
    | some s ↦
        if ltb now s.expires
        then (sessions, none)
        else by_score (delete r.ip sessions) r score nonce now
  ]
