-- ===== src/Middleware.antt =====
-- src/index.js: the middleware, which asks the guard of the sign-in endpoints and then the engine. The rate
-- limiter is never there: `require('./modules/rate-limiter')` is an object with two classes and not a class,
-- so that `new RateLimiter(...)` throws and is caught. The headers and the trap that the middleware
-- writes into a response are left out, and so is the text of the answers.
pub mod Answers
mod Tests
use shield_wall.Prelude.{
  ℕ, ◌+◌, ◌/◌, Bool, true, false, ◌&&◌, Option, none, some, List, [], ◌∷◌, Text, if◌then◌else◌,
}
use shield_wall.BruteForce.{Guard}
use shield_wall.BruteForce
use shield_wall.Mitigation.{Crypto, Action}
use shield_wall.Mitigation
use shield_wall.Scoring.{Match}
use shield_wall.Engine.{Engine, analyze}
use shield_wall.Engine

pub record Server : Type 0 where
  pub engine : Engine
  -- Only with the option `bruteForce`.
  pub guard : Option Guard
  pub block_status_code : ℕ

-- A request as the guard and as the engine read it, with what the detectors report.
pub record Request : Type 0 where
  pub to_guard : BruteForce.Request
  pub to_engine : Engine.Request
  pub found : List (Option (List Match))
  pub rule_matches : List Match

pub data Answer : Type 0 where
  -- 429, with the seconds to wait
  too_many : ℕ → Answer
  -- 200, with the page of the challenge
  challenge_page : Text → Answer
  -- 302
  redirected : Text → Answer
  forbidden : ℕ → Answer
  -- `next()`, with the hook of the guard on the end of the response
  passes : Answer

-- `Math.ceil(ms / 1000)`
abbrev pub seconds : ℕ → ℕ
seconds ms = (ms + 999) / 1000

nonempty : List Match → Bool
nonempty [] = false
nonempty (m ∷ ms) = true

forbid : ℕ → Engine.Verdict → Answer
unfolding nonempty
forbid code v = if v.blocked && nonempty v.matches then forbidden code else passes

-- The end of the middleware, by the mitigation of a verdict that does not block.
unblocked : Option Action → Answer
unblocked none = passes
unblocked (some (Action.challenge nonce)) = challenge_page nonce
unblocked (some (Action.redirect path)) = redirected path
unblocked (some (Action.throttle delay)) = passes
unblocked (some (Action.block status)) = passes

pub answer : ℕ → Engine.Verdict → Answer
unfolding forbid unblocked
answer code v = if v.blocked then forbid code v else unblocked v.mitigation

module _ (crypto : Crypto) where
  pub analyzed : Server → Request → Text → ℕ → Server × Answer
  unfolding answer
  analyzed s r nonce now =
      let (e, v) = analyze crypto s.engine r.to_engine r.found r.rule_matches nonce now in
      (record s { engine = e }, answer s.block_status_code v)

  unfoldable pub middleware : Server → Request → Text → ℕ → Server × Answer
  middleware s r nonce now = elim s.guard [
    | none ↦ analyzed s r nonce now
    | some g ↦
        let (g', bf) = BruteForce.check g r.to_guard now in
        if bf.blocked
        then (record s { guard = some g' }, too_many (seconds bf.retry_after))
        else analyzed (record s { guard = some g' }) r nonce now
  ]

-- `res.end`, for a request that was passed on.
unfoldable pub end_response : Server → Request → ℕ → ℕ → Server
end_response s r status now = elim s.guard [
  | none ↦ s
  | some g ↦ record s { guard = some (BruteForce.record_response g r.to_guard status none now) }
]
