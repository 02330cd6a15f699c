-- ===== src/Ddos/Tests.antt =====
-- src/modules/ddos-protection.js: the properties at concrete requests.
use shield_wall.Prelude.{All, ◌<◌, ◌≡◌, ◌↔◌, refl, some, [], ◌∷◌, arith, codes, length}
use shield_wall.Ddos.{Ddos, Request, scalar, check, max_connections}
use shield_wall.Ddos.Bounds.{IsCapped, checks, cleans, trusts, run, run-IsCapped}
use shield_wall.Ddos.Reports.{IsInOrder, IsModest, held, check-nil}

abbrev quiet : Ddos
quiet = record {
  connections = (codes "10.0.0.1", 100 ∷ 200 ∷ []) ∷ [];
  slowloris = [];
  whitelist = codes "127.0.0.1" ∷ [];
  blocked_counts = 0;
}

abbrev request : Request
request = record {
  ip = codes "10.0.0.1";
  headers = (codes "host", scalar) ∷ [];
  header_size = some 12;
  query_keys = 2;
  content_length = 0;
}

quiet-IsCapped : IsCapped quiet
quiet-IsCapped = record { connections = omega arith; slowloris = omega arith }

run-IsCapped_example :
    IsCapped (run quiet (checks request 300 ∷ trusts (codes "10.0.0.1") ∷ cleans 70_000 ∷ []))
run-IsCapped_example =
    run-IsCapped quiet (checks request 300 ∷ trusts (codes "10.0.0.1") ∷ cleans 70_000 ∷ [])
      quiet-IsCapped

check-nil_example : ((check request 300 quiet).1 ≡ []) ↔ (
    All IsInOrder request.headers
    × IsModest request
    × (length (held request.ip 300 quiet) < max_connections))
unfolding shield_wall.Address.is_valid_ip shield_wall.Ddos.has_ip
check-nil_example = check-nil request 300 quiet refl refl
