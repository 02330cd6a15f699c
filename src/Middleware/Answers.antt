-- ===== src/Middleware/Answers.antt =====
-- src/index.js: what reaches the application.
use shield_wall.Prelude.{
  ℕ, ◌/◌, ◌<◌, ◌≡◌, ap, subst, ◌∙◌, ◌≢◌, inl, inr, true, false, Option, none, some, List, [], ◌∷◌,
  arith, dec_lt, JsMap, get, Text, Bool-cases, Option-cases,
}
use shield_wall.BruteForce
use shield_wall.Mitigation.{Crypto, Action, block, challenge, Session, process}
use shield_wall.Mitigation
use shield_wall.Mitigation.Decisions.{process-fresh}
use shield_wall.Engine.{Engine, analyze, peer, is_excluded, all_matches, is_block}
use shield_wall.Engine
use shield_wall.Scoring.{Match}
use shield_wall.Middleware.{
  Server, Request, passes, nonempty, answer, forbid, unblocked, analyzed, middleware,
}
use shield_wall.Engine.Mitigated.{analyze-IsMitigated}

-- A verdict that is let through is not answered by a block, a challenge or a redirect.
abbrev LetsThrough : Option Action → Type 0
LetsThrough a = (is_block a ≡ false) × (unblocked a ≡ passes)

forbid-nonempty :
    (code : ℕ) (v : Engine.Verdict) → v.blocked ≡ true → v.matches ≢ [] → forbid code v ≢ passes
unfolding forbid nonempty
forbid-nonempty code v blocked some_match = ground (arith, blocked, some_match)

passes-mitigation :
    (code : ℕ) (v : Engine.Verdict)
    → v.matches ≢ []
    → (is_block v.mitigation ≡ true → v.blocked ≡ true)
    → answer code v ≡ passes
    → LetsThrough v.mitigation
unfolding answer
passes-mitigation code v some_match blocks h = elim (Bool-cases v.blocked) [
  | inl locked ↦ absurd (forbid-nonempty code v locked some_match (ground (arith, locked, h)))
  | inr free ↦ (ground (arith, free, blocks), ground (arith, free, h))
]

LetsThrough-block : (status : ℕ) → ¬ LetsThrough (some (block status))
unfolding is_block unblocked
LetsThrough-block status (h, k) = ground (arith, h)

LetsThrough-challenge : (nonce : Text) → ¬ LetsThrough (some (challenge nonce))
unfolding is_block unblocked
LetsThrough-challenge nonce (h, k) = ground (arith, k)

unchallenged :
    (v : Engine.Verdict) (crypto : Crypto) (sessions : JsMap Session) (r : Mitigation.Request)
    (nonce : Text) (now : ℕ)
    → LetsThrough v.mitigation
    → get r.ip sessions ≡ none
    → v.mitigation ≡ (process crypto sessions r (v.risk / 1000) nonce now).1
    → v.risk < 1_500_000
unchallenged v crypto sessions r nonce now through absent e =
    let fresh = process-fresh crypto sessions r (v.risk / 1000) now nonce absent in
    elim (dec_lt v.risk 4_000_000) [
      | yes medium ↦ elim (dec_lt v.risk 1_500_000) [
        | yes low ↦ low
        | no high ↦ absurd (
            LetsThrough-challenge nonce
              (subst LetsThrough (e ∙ ap (λ x. x.1) (fresh.1 (omega arith) (omega arith))) through))
      ]
      | no high ↦ absurd (
          LetsThrough-block 403
            (subst LetsThrough (e ∙ ap (λ x. x.1) (fresh.0 (omega arith))) through))
    ]

module _ (crypto : Crypto) (s : Server) (r : Request) (nonce : Text) (now : ℕ) where
  -- What the engine says of the request.
  abbrev pub judged : Engine.Verdict
  judged = (analyze crypto s.engine r.to_engine r.found r.rule_matches nonce now).1

  passes-answer :
      (middleware crypto s r nonce now).1 ≡ passes → answer s.block_status_code judged ≡ passes
  unfolding middleware analyzed
  passes-answer h = elim (Option-cases s.guard) [
    | inl e ↦ ground (arith, e, h)
    | inr (g, e) ↦ elim (Bool-cases (BruteForce.check g r.to_guard now).1.blocked) [
      | inl locked ↦ ground (arith, e, locked, h)
      | inr free ↦ ground (arith, e, free, h)
    ]
  ]

  -- A request that the engine does not exclude and for which it has matches, from an address with no
  -- challenge session: it reaches the application only with a risk below 15 points.
  pub passes-risk :
      (m : Match) (ms : List Match)
      → is_excluded s.engine.options r.to_engine ≡ false
      → all_matches r.to_engine r.found r.rule_matches ≡ m ∷ ms
      → get (peer r.to_engine.sender) s.engine.sessions ≡ none
      → (middleware crypto s r nonce now).1 ≡ passes
      → judged.risk < 1_500_000
  passes-risk m ms included matched absent h =
      let judged_ok =
        analyze-IsMitigated crypto s.engine r.to_engine r.found r.rule_matches nonce now m ms
          included matched in
      let asked : Mitigation.Request = record {
        ip = peer r.to_engine.sender;
        solution = r.to_engine.solution;
        pathname = r.to_engine.pathname;
      } in
      unchallenged judged crypto s.engine.sessions asked nonce now
        (passes-mitigation s.block_status_code judged judged_ok.2 judged_ok.1 (passes-answer h))
        absent judged_ok.0
