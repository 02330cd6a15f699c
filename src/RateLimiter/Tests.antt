-- ===== src/RateLimiter/Tests.antt =====
-- src/modules/rate-limiter.js: the properties at concrete stores and requests.
use shield_wall.Prelude.{
  ◌+◌, ◌≤◌, ◌<◌, ◌≡◌, refl, ◌↔◌, true, false, none, some, [], ◌∷◌, arith, length, get, put, codes,
  text_eq, recent,
}
use shield_wall.Address.{client_ip}
use shield_wall.RateLimiter.{
  Store, Options, Request, new_limiter, stamps, check, begin, finish, is_blocked,
}
use shield_wall.RateLimiter.Interleaving.{Running, begins, finishes, done, more, length-requests-le}
use shield_wall.RateLimiter.Limits.{check_limited}

abbrev one_key : Store
one_key = record { window_ms = 100; max_keys = 1; requests = []; blocked = []; locks = [] }

-- Two increments of different keys in a store for one key: it holds two in the end.
abbrev both : Running
both = record {
  store =
      (finish (codes "b") 8
        (finish (codes "a") 7 (begin (codes "b") (begin (codes "a") one_key))).0).0;
  in_flight = [];
}

length-requests-le_example : length both.store.requests + length both.in_flight < 1 + 2
length-requests-le_example = length-requests-le 2 one_key both (omega arith) (omega arith) (
    more
      (more
        (more (more (done _) (begins one_key [] (codes "a") 7) (omega arith))
          (begins (begin (codes "a") one_key) ((codes "a", 7) ∷ []) (codes "b") 8) (omega arith))
        (finishes (begin (codes "b") (begin (codes "a") one_key)) [] ((codes "b", 8) ∷ [])
          (codes "a") 7)
        (omega arith))
      (finishes (finish (codes "a") 7 (begin (codes "b") (begin (codes "a") one_key))).0 [] []
        (codes "b") 8)
      (omega arith))

abbrev options : Options
options = record {
  window_ms = some 100;
  max = some 2;
  block_duration = some 50;
  key_generator = none;
  skip_paths = none;
  trust_proxy = false;
}

abbrev request : Request
request = record {
  sender = record { forwarded_for = none; ip = some (codes "10.0.0.1") };
  path = codes "/";
}

abbrev busy : Store
busy = record {
  window_ms = 100;
  max_keys = 4;
  requests = (codes "10.0.0.1", 1 ∷ 60 ∷ 70 ∷ []) ∷ [];
  blocked = [];
  locks = [];
}

check_limited_example :
    ((check (new_limiter options) request 105 busy).1.limited ≡ true ↔ 2 ≤ 2)
    × ((check (new_limiter options) request 105 busy).0.requests
        ≡ put (codes "10.0.0.1") (60 ∷ 70 ∷ 105 ∷ []) busy.requests)
unfolding new_limiter client_ip stamps recent get text_eq
check_limited_example =
    check_limited (new_limiter options) request 105 busy refl (λ until h. ground arith)
      (omega arith)

runs : (check (new_limiter options) request 165 busy).1.limited ≡ false
unfolding new_limiter client_ip stamps recent get text_eq check is_blocked
runs = refl
