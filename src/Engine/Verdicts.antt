-- ===== src/Engine/Verdicts.antt =====
-- src/core/engine.js, `analyze`: which requests are blocked.
use shield_wall.Prelude.{
  ℕ, suc, ◌+◌, ◌*◌, ◌/◌, ◌≤◌, ◌<◌, ◌≡◌, refl, sym, ap, subst, ◌↔◌, ◌⊎◌, inl, inr, true, false, ◌&&◌,
  ◌||◌, Option, none, some, List, [], ◌∷◌, arith, length, JsMap, get, Text, leb, if◌then◌else◌,
  Bool-cases,
}
use shield_wall.Mitigation.{Crypto, Session, block, challenge, throttle, process}
use shield_wall.Mitigation
use shield_wall.Mitigation.Decisions.{process-fresh}
use shield_wall.Scoring.{Match}
use shield_wall.Engine.{
  Engine, Options, Stats, Request, Verdict, clean, is_excluded, all_matches, is_block, peer, enter,
  probe, judge, judge_found, analyze,
}

-- A request that is excluded passes without a match, whatever the detectors say of it, and changes
-- nothing but the number of requests; one without any match passes, too, and changes at most the
-- table of probes besides.
pub analyze-clean :
    (crypto : Crypto) (e : Engine) (r : Request) (found : List (Option (List Match)))
    (rules : List Match) (nonce : Text) (now : ℕ)
    → (is_excluded e.options r ≡ true → analyze crypto e r found rules nonce now ≡ (enter e, clean))
      × (all_matches r found rules ≡ []
          → (analyze crypto e r found rules nonce now).1 ≡ clean
            × ((analyze crypto e r found rules nonce now).0.sessions ≡ e.sessions)
            × ((analyze crypto e r found rules nonce now).0.stats ≡ (enter e).stats))
unfolding analyze judge_found enter probe
analyze-clean crypto e r found rules nonce now =
    (λ h. rw (h, analyze) refl, λ h. rw (h, analyze) (ground arith))

pub analyze-judge :
    (crypto : Crypto) (e : Engine) (r : Request) (found : List (Option (List Match)))
    (rules : List Match) (nonce : Text) (now : ℕ) (m : Match) (ms : List Match)
    → is_excluded e.options r ≡ false
    → all_matches r found rules ≡ m ∷ ms
    → analyze crypto e r found rules nonce now
      ≡ judge crypto (probe (enter e) r now) r (m ∷ ms) nonce now
unfolding analyze judge_found
analyze-judge crypto e r found rules nonce now m ms h k = rw (h, k, analyze) refl

-- The engine's own threshold, or the action of the mitigation.
abbrev IsDecided : Crypto → Options → JsMap Session → Request → Text → ℕ → Verdict → Type 0
IsDecided crypto o sessions r nonce now v =
    v.blocked
    ≡ (o.block_mode && leb (o.block_threshold * 100_000) v.risk)
      || is_block
          (process crypto sessions
            (record { ip = peer r.sender; solution = r.solution; pathname = r.pathname })
            (v.risk / 1000) nonce now).1

judge-IsDecided :
    (crypto : Crypto) (e : Engine) (r : Request) (ms : List Match) (nonce : Text) (now : ℕ)
    → IsDecided crypto e.options e.sessions r nonce now (judge crypto e r ms nonce now).1
unfolding judge
judge-IsDecided crypto e r ms nonce now = refl

is_block-process :
    (crypto : Crypto) (sessions : JsMap Session) (r : Mitigation.Request) (score now : ℕ)
    (nonce : Text)
    → get r.ip sessions ≡ none
    → (is_block (process crypto sessions r score nonce now).1 ≡ true) ↔ (4000 ≤ score)
unfolding is_block
is_block-process crypto sessions r score now nonce absent =
    ground (arith, process-fresh crypto sessions r score now nonce absent)

is_block-process_live :
    (crypto : Crypto) (sessions : JsMap Session) (r : Mitigation.Request) (score now : ℕ)
    (nonce : Text) (s : Session)
    → get r.ip sessions ≡ some s
    → now < s.expires
    → is_block (process crypto sessions r score nonce now).1 ≡ false
unfolding is_block process
is_block-process_live crypto sessions r score now nonce s held live =
    rw (held, process) (ground arith)

pub probe-same :
    (e : Engine) (r : Request) (now : ℕ)
    → ((probe e r now).sessions ≡ e.sessions)
      × ((probe e r now).options ≡ e.options)
      × ((probe e r now).stats ≡ e.stats)
unfolding probe
probe-same e r now = ground arith

abbrev pub IsCounted : Stats → Engine × Verdict → Type 0
IsCounted st (e, v) =
    (e.stats.total_requests ≡ suc st.total_requests)
    × (e.stats.blocked_requests ≡ st.blocked_requests + (if v.blocked then 1 else 0))
    × (e.stats.detected_threats ≡ st.detected_threats + length v.matches)

judge-IsCounted :
    (crypto : Crypto) (st : Stats) (e : Engine) (r : Request) (ms : List Match) (nonce : Text)
    (now : ℕ)
    → e.stats ≡ record st { total_requests = suc st.total_requests }
    → IsCounted st (judge crypto e r ms nonce now)
unfolding judge
judge-IsCounted crypto st e r ms nonce now h =
    let v = (judge crypto e r ms nonce now).1 in
    (
      ap (λ (t : Stats). t.total_requests) h,
      ap (λ (t : Stats). t.blocked_requests + (if v.blocked then 1 else 0)) h,
      ap (λ (t : Stats). t.detected_threats + length v.matches) h,
    )

judge_found-IsCounted :
    (crypto : Crypto) (st : Stats) (e : Engine) (r : Request) (ms : List Match) (nonce : Text)
    (now : ℕ)
    → e.stats ≡ record st { total_requests = suc st.total_requests }
    → IsCounted st (judge_found crypto e r ms nonce now)
unfolding judge_found
judge_found-IsCounted crypto st e r [] nonce now h = ground (arith, h)
judge_found-IsCounted crypto st e r (m ∷ ms) nonce now h =
    judge-IsCounted crypto st e r (m ∷ ms) nonce now h

analyze_included :
    (crypto : Crypto) (e : Engine) (r : Request) (found : List (Option (List Match)))
    (rules : List Match) (nonce : Text) (now : ℕ)
    → is_excluded e.options r ≡ false
    → analyze crypto e r found rules nonce now
      ≡ judge_found crypto (probe (enter e) r now) r (all_matches r found rules) nonce now
unfolding analyze
analyze_included crypto e r found rules nonce now x = rw (x, analyze) refl

-- The counters of the engine over one call: the requests grow by one, the blocked ones by one exactly
-- if the verdict blocks, and the threats by the number of matches of the verdict.
pub analyze-stats :
    (crypto : Crypto) (e : Engine) (r : Request) (found : List (Option (List Match)))
    (rules : List Match) (nonce : Text) (now : ℕ)
    → IsCounted e.stats (analyze crypto e r found rules nonce now)
unfolding analyze judge_found enter
analyze-stats crypto e r found rules nonce now = elim (Bool-cases (is_excluded e.options r)) [
  | inl x ↦ rw (x, analyze) (ground arith)
  | inr x ↦ subst (IsCounted e.stats) (sym (analyze_included crypto e r found rules nonce now x)) (
      judge_found-IsCounted crypto e.stats (probe (enter e) r now) r (all_matches r found rules)
        nonce now (probe-same (enter e) r now).2)
]

-- The score reaches the engine's own threshold, and the engine blocks.
abbrev pub IsOverThreshold : Options → ℕ → Type 0
IsOverThreshold o risk = (o.block_mode ≡ true) × (o.block_threshold * 100_000 ≤ risk)

module _ (crypto : Crypto) (e : Engine) (r : Request) (found : List (Option (List Match)))
    (rules : List Match) (nonce : Text) (now : ℕ) (m : Match) (ms : List Match)
    (included : is_excluded e.options r ≡ false)
    (matched : all_matches r found rules ≡ m ∷ ms) where
  abbrev pub verdict : Verdict
  verdict = (analyze crypto e r found rules nonce now).1

  abbrev asked : Mitigation.Request
  asked = record { ip = peer r.sender; solution = r.solution; pathname = r.pathname }

  verdict-IsDecided : IsDecided crypto e.options e.sessions r nonce now verdict
  unfolding enter
  verdict-IsDecided =
      let start = probe (enter e) r now in
      let same = probe-same (enter e) r now in
      subst (λ x. IsDecided crypto e.options e.sessions r nonce now x.1)
        (sym (analyze-judge crypto e r found rules nonce now m ms included matched))
        (subst
          (λ o.
            IsDecided crypto o e.sessions r nonce now (judge crypto start r (m ∷ ms) nonce now).1)
          same.1
          (subst
            (λ t.
              IsDecided crypto start.options t r nonce now
                (judge crypto start r (m ∷ ms) nonce now).1)
            same.0 (judge-IsDecided crypto start r (m ∷ ms) nonce now)))

  -- A request with matches that is not excluded, from an address with no challenge session: it is
  -- blocked exactly if the engine blocks and its risk reaches the threshold, or if its risk is 40
  -- points or more, where the mode does not matter.
  pub analyze-blocked_iff :
      get (peer r.sender) e.sessions ≡ none
      → (verdict.blocked ≡ true)
        ↔ (IsOverThreshold e.options verdict.risk ⊎ 4_000_000 ≤ verdict.risk)
  analyze-blocked_iff absent = ground (
    arith,
    verdict-IsDecided,
    is_block-process crypto e.sessions asked (verdict.risk / 1000) now nonce absent,
  )

  -- A request with matches that is not excluded, from an address whose challenge session has not
  -- expired: it is blocked exactly if the engine blocks and its risk reaches the threshold.
  pub analyze-blocked_live :
      (s : Session)
      → get (peer r.sender) e.sessions ≡ some s
      → now < s.expires
      → (verdict.blocked ≡ true) ↔ IsOverThreshold e.options verdict.risk
  analyze-blocked_live s held live = ground (
    arith,
    verdict-IsDecided,
    is_block-process_live crypto e.sessions asked (verdict.risk / 1000) now nonce s held live,
  )
