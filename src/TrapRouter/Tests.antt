-- ===== src/TrapRouter/Tests.antt =====
-- src/modules/trap-router.js: the properties at concrete requests.
use shield_wall.Prelude.{
  ℕ, ◌≤◌, ◌≡◌, refl, ◌↔◌, true, List, [], ◌∷◌, arith, length, Text, codes, recent,
}
use shield_wall.TrapRouter.{Router, Request, default_options, refused, spring}
use shield_wall.TrapRouter.Routes.{springs, times_of, spring-refused}
use shield_wall.TrapRouter.Robots.{bait}

abbrev router : Router
router = record {
  options = default_options;
  token = codes "shw_trp_0a";
  has_tracker = true;
  trap_hits = [];
}

abbrev request : Request
request = record {
  path = bait (codes "shw_trp_0a");
  url = codes "/shw_trp_0a/";
  method = codes "GET";
  user_agent = codes "curl";
  forwarded_for = [];
  remote = codes "10.0.0.1";
}

abbrev probes : List (Text × Text × ℕ)
probes =
    (codes "a", codes "/.env", 100)
    ∷ (codes "b", codes "/debug", 150)
    ∷ (codes "a", codes "/test", 200)
    ∷ (codes "a", codes "/admin", 300)
    ∷ []

spring-refused_example :
    ((spring (springs router probes) (codes "a") (codes "/backup") 400).2 ≡ refused 429)
    ↔ (3 ≤ length (recent 10_000 400 (times_of (codes "a") probes)))
spring-refused_example =
    spring-refused router probes (codes "a") (codes "/backup") 400 refl
      (omega arith, (omega arith, (omega arith, (omega arith, tt))))
