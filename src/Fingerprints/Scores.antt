-- ===== src/Fingerprints/Scores.antt =====
-- src/modules/fingerprinter.js: the bounds of the score.
use shield_wall.Prelude.{
  ℕ, ◌+◌, ◌*◌, ◌/◌, ◌≤◌, ◌≡◌, refl, Bool, true, false, ◌&&◌, Option, none, some, arith, JsMap, Text,
  codes, text_eq, to_lower,
}
use shield_wall.Reputation.{Tracker}
use shield_wall.Fingerprints.{World, Ja3, classify}
use shield_wall.Fingerprints.Analysis.{
  Config, Request, Outcome, invalid_headers, invalid_ja3, analysis, Scored, add_if, cap, structure,
  consistency, multiplied, judge, with_ja3, analyze_headers, analyze_request, Signal, drop_spoofed,
  header, extract_h2_fingerprint, is_chrome, is_hosting, e_gateway_grease_missing,
}

cap-le : (most : ℕ) (s : Scored) → (cap most s).0 ≤ most
unfolding cap
cap-le most s = omega arith

add_if-le :
    (b : Bool) (points : ℕ) (x : Signal) (s : Scored) → (add_if b points x s).0 ≤ s.0 + points
unfolding add_if
add_if-le true points x s = omega arith
add_if-le false points x s = omega arith

multiplied-le : (b : Bool) (n k : ℕ) → n ≤ k → multiplied b n ≤ (k * 28 + 10) / 20
unfolding multiplied
multiplied-le true n k h = ground arith
multiplied-le false n k h = ground arith

-- The score of an analysis is at most this, and its class that of its score.
abbrev pub IsScored : Config → Outcome → Type 0
IsScored c invalid_headers = Unit
IsScored c invalid_ja3 = Unit
IsScored c (analysis ja4l gateway ip total class signals) =
    (total ≤ ((c.structure_cap + 25 + c.consistency_cap + c.behavioral_cap) * 28 + 10) / 20)
    × (class ≡ classify total c.block_threshold)

structure-le : (c : Config) (ua : Text) (p : Ja3) → (structure c ua p).0 ≤ c.structure_cap
unfolding structure
structure-le c ua p = cap-le c.structure_cap _

consistency-le :
    (c : Config) (w : World) (ua h2 : Text) (p : Ja3)
    → (consistency c w ua h2 p).0 ≤ c.consistency_cap
unfolding consistency
consistency-le c w ua h2 p = cap-le c.consistency_cap _

judge-IsScored :
    (w : World) (c : Config) (r : Request) (h : JsMap Text) (p : Ja3) (now : ℕ) (t : Tracker)
    → IsScored c (judge w c r h p now t).1
unfolding judge
judge-IsScored w c r h p now t =
    let ua = to_lower (header h (codes "user-agent")) in
    let s = structure c ua p in
    let k = consistency c w ua (extract_h2_fingerprint r h) p in
    let spoofs = text_eq (header h (codes "x-tls-has-grease")) (codes "false") && is_chrome ua in
    (
      multiplied-le (is_hosting r.asn) _
          (c.structure_cap + 25 + c.consistency_cap + c.behavioral_cap)
          (omega (
            arith,
            structure-le c ua p,
            consistency-le c w ua (extract_h2_fingerprint r h) p,
            add_if-le spoofs 25 e_gateway_grease_missing (s.0, _),
          )),
      refl,
    )

with_ja3-IsScored :
    (w : World) (c : Config) (r : Request) (h : JsMap Text) (o : Option Ja3) (now : ℕ) (t : Tracker)
    → IsScored c (with_ja3 w c r h now t o).1
unfolding with_ja3
with_ja3-IsScored w c r h none now t = tt
with_ja3-IsScored w c r h (some p) now t = judge-IsScored w c r h p now t

-- Of every request: the score of an analysis is at most 1.4 times the limits of the structure, of the
-- consistency and of the behaviour and 25 more, rounded, and its class is that of its score.
pub analyze_request-IsScored :
    (w : World) (c : Config) (r : Request) (h : Option (JsMap Text)) (now : ℕ) (t : Tracker)
    → IsScored c (analyze_request w c r h now t).1.1
unfolding analyze_request analyze_headers
analyze_request-IsScored w c r none now t = tt
analyze_request-IsScored w c r (some h) now t = with_ja3-IsScored w c r (drop_spoofed c h) _ now t
