-- ===== src/Engine/Mitigated.antt =====
-- src/core/engine.js, `analyze`: what the mitigation makes of the risk.
use shield_wall.Prelude.{
  ℕ, ◌/◌, ◌≡◌, refl, sym, subst, ◌≢◌, true, false, Option, List, [], ◌∷◌, arith, JsMap, Text,
}
use shield_wall.Mitigation.{Crypto, Session, process}
use shield_wall.Scoring.{Match}
use shield_wall.Engine.{
  Engine, Request, Verdict, is_excluded, all_matches, is_block, peer, enter, probe, judge, analyze,
}
use shield_wall.Engine.Verdicts.{analyze-judge, probe-same}

-- The verdict's action is that of the mitigation at the verdict's risk, it blocks if that does, and
-- there is a match.
abbrev pub IsMitigated : Crypto → JsMap Session → Request → Text → ℕ → Verdict → Type 0
IsMitigated crypto sessions r nonce now v =
    (v.mitigation
      ≡ (process crypto sessions
          (record { ip = peer r.sender; solution = r.solution; pathname = r.pathname })
          (v.risk / 1000) nonce now).1)
    × (is_block v.mitigation ≡ true → v.blocked ≡ true)
    × (v.matches ≢ [])

judge-IsMitigated :
    (crypto : Crypto) (e : Engine) (r : Request) (m : Match) (ms : List Match) (nonce : Text)
    (now : ℕ)
    → IsMitigated crypto e.sessions r nonce now (judge crypto e r (m ∷ ms) nonce now).1
unfolding judge
judge-IsMitigated crypto e r m ms nonce now = (refl, λ h. ground (arith, h), λ h. ground (arith, h))

pub analyze-IsMitigated :
    (crypto : Crypto) (e : Engine) (r : Request) (found : List (Option (List Match)))
    (rules : List Match) (nonce : Text) (now : ℕ) (m : Match) (ms : List Match)
    → is_excluded e.options r ≡ false
    → all_matches r found rules ≡ m ∷ ms
    → IsMitigated crypto e.sessions r nonce now (analyze crypto e r found rules nonce now).1
unfolding enter
analyze-IsMitigated crypto e r found rules nonce now m ms included matched =
    let start = probe (enter e) r now in
    subst (λ x. IsMitigated crypto e.sessions r nonce now x.1)
      (sym (analyze-judge crypto e r found rules nonce now m ms included matched))
      (subst (λ t. IsMitigated crypto t r nonce now (judge crypto start r (m ∷ ms) nonce now).1)
        (probe-same (enter e) r now).0 (judge-IsMitigated crypto start r m ms nonce now))
