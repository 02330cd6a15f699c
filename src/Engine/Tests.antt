-- ===== src/Engine/Tests.antt =====
-- src/core/engine.js: the properties at concrete requests.
use shield_wall.Prelude.{
  ◌≤◌, ◌≡◌, refl, ◌↔◌, ◌⊎◌, true, false, none, some, [], ◌∷◌, arith, get, codes, text_eq,
}
use shield_wall.Mitigation.{Crypto}
use shield_wall.Scoring.{Match, medium, critical, risk_score}
use shield_wall.Engine.{Engine, Request, clean, is_excluded, all_matches, analyze, peer, prefix}
use shield_wall.Engine.Verdicts.{IsOverThreshold, analyze-blocked_iff, analyze-blocked_live}

abbrev injection : Match
injection = record {
  rule = codes "sql_injection";
  severity = critical;
  category = codes "sqli";
  score = 0;
}

abbrev bot : Match
bot = record {
  rule = codes "bot_detection:headless";
  severity = medium;
  category = [];
  score = 1250;
}

abbrev plain : Crypto
plain = record { digest = λ c. c; from_hex = λ s. s }

-- An engine that only logs.
abbrev logging : Engine
logging = record {
  options = record {
    block_mode = false;
    block_threshold = 100;
    exclude_paths = prefix (codes "/health") ∷ [];
    exclude_ips = [];
    trust_proxy = false;
  };
  stats = record { total_requests = 3; blocked_requests = 1; detected_threats = 2 };
  sessions = [];
  recon = [];
}

abbrev request : Request
request = record {
  sender = record { forwarded_for = none; ip = some (codes "10.0.0.1") };
  raw_path = codes "/login";
  path = codes "/login";
  method = codes "POST";
  json_smuggling = false;
  header_size = 100;
  solution = none;
  pathname = codes "/login";
}

abbrev held : Engine
held = record logging {
  sessions = (codes "10.0.0.1", record { expected = none; difficulty = 0; expires = 500 }) ∷ [];
}

-- 100 points at a sensitivity of 1, and 12.5 points, times 1.8 for a bot with a payload.
scores : risk_score 10 (injection ∷ bot ∷ []) ≡ 20_250_000
unfolding risk_score
scores = refl

passes : (analyze plain logging request [] [] (codes "n") 7).1 ≡ clean
unfolding analyze
passes = refl

analyze-blocked_iff_example :
    let v = (analyze plain logging request [] (injection ∷ []) (codes "n") 7).1 in
    (v.blocked ≡ true) ↔ (IsOverThreshold logging.options v.risk ⊎ 4_000_000 ≤ v.risk)
unfolding is_excluded all_matches get
analyze-blocked_iff_example =
    analyze-blocked_iff plain logging request [] (injection ∷ []) (codes "n") 7 injection [] refl
      refl refl

blocks : (analyze plain logging request [] (injection ∷ []) (codes "n") 7).1.blocked ≡ true
unfolding analyze get
blocks = refl

analyze-blocked_live_example :
    let v = (analyze plain held request [] (injection ∷ []) (codes "n") 7).1 in
    (v.blocked ≡ true) ↔ IsOverThreshold held.options v.risk
unfolding is_excluded all_matches get peer text_eq
analyze-blocked_live_example =
    analyze-blocked_live plain held request [] (injection ∷ []) (codes "n") 7 injection [] refl refl
      (record { expected = none; difficulty = 0; expires = 500 }) refl (omega arith)
