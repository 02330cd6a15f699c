-- ===== src/Middleware/Tests.antt =====
-- src/index.js: the properties at concrete requests.
use shield_wall.Prelude.{◌<◌, ◌≡◌, refl, true, false, none, some, [], ◌∷◌, codes}
use shield_wall.Address.{Sender}
use shield_wall.Mitigation.{Crypto}
use shield_wall.Engine.{Engine, prefix}
use shield_wall.Engine
use shield_wall.Scoring.{Match, low}
use shield_wall.Middleware.{Server, Request, passes, middleware}
use shield_wall.Middleware.Answers.{judged, passes-risk}

abbrev plain : Crypto
plain = record { digest = λ c. c; from_hex = λ s. s }

abbrev engine : Engine
engine = record {
  options = record {
    block_mode = true;
    block_threshold = 100;
    exclude_paths = prefix (codes "/health") ∷ [];
    exclude_ips = [];
    trust_proxy = false;
  };
  stats = record { total_requests = 3; blocked_requests = 1; detected_threats = 2 };
  sessions = [];
  recon = [];
}

abbrev server : Server
server = record { engine = engine; guard = none; block_status_code = 403 }

abbrev client : Sender
client = record { forwarded_for = none; ip = some (codes "10.0.0.1") }

abbrev asked : Engine.Request
asked = record {
  sender = client;
  raw_path = codes "/shop";
  path = codes "/shop";
  method = codes "GET";
  json_smuggling = false;
  header_size = 100;
  solution = none;
  pathname = codes "/shop";
}

abbrev signal : Match
signal = record { rule = codes "odd_header"; severity = low; category = []; score = 0 }

abbrev request : Request
request = record {
  to_guard = record { path = codes "/shop"; sender = client };
  to_engine = asked;
  found = [];
  rule_matches = signal ∷ [];
}

passes-risk_example : (judged plain server request (codes "n") 1000).risk < 1_500_000
unfolding shield_wall.Engine.is_excluded shield_wall.Engine.all_matches
    shield_wall.Middleware.analyzed shield_wall.Engine.analyze shield_wall.Engine.judge
    shield_wall.Middleware.middleware shield_wall.Prelude.get
passes-risk_example =
    passes-risk plain server request (codes "n") 1000 signal [] refl refl refl refl
