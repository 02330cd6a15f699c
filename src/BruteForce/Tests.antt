-- ===== src/BruteForce/Tests.antt =====
-- src/modules/brute-force.js: the properties at concrete calls.
use shield_wall.Prelude.{
  ◌≡◌, refl, true, false, none, some, [], ◌∷◌, arith, get, put, Text, codes, text_eq, starts_with,
  to_lower, recent,
}
use shield_wall.Address.{client_ip}
use shield_wall.BruteForce.{
  Config, Options, Entry, Guard, Request, new_guard, check, check_account, record_response,
  block_span, is_sensitive, is_failure, gc, get_blocked_ips, fail_entry,
}
use shield_wall.BruteForce.Invariant.{IsValid, checks, responds, run, run-new_guard-IsValid}
use shield_wall.BruteForce.Failures.{failures, failures-lock}

program : Unit {0}
unfolding check check_account record_response block_span is_sensitive is_failure gc get_blocked_ips
    client_ip to_lower get put text_eq starts_with recent fail_entry new_guard
program = tt

abbrev options : Options
options = record {
  max_attempts = some 3;
  window_ms = some 100;
  block_duration_ms = some 50;
  max_block_duration_ms = none;
  progressive_backoff = true;
  trust_proxy = false;
  sensitive_paths = none;
  failed_codes = none;
  account_max_attempts = some 2;
  max_state_size = some 4;
  max_account_state_size = none;
}

abbrev config : Config
config = record {
  max_attempts = 3;
  window_ms = 100;
  block_duration_ms = 50;
  max_block_duration_ms = 86_400_000;
  progressive_backoff = true;
  trust_proxy = false;
  sensitive_paths = codes "/login" ∷ [];
  failed_codes = 401 ∷ 403 ∷ 422 ∷ [];
  account_max_attempts = 2;
  max_state_size = 4;
  max_account_state_size = 100_000;
}

abbrev address : Text
address = codes "10.0.0.1"

abbrev login : Request
login = record {
  sender = record { forwarded_for = none; ip = some address };
  path = codes "/Login/step";
}

abbrev empty : Guard
empty = record { config = config; state = []; account_state = [] }

-- Two failures at 900 and 950, and one that is too old to count at 1000.
abbrev failing : Entry
failing = record { attempts = 100 ∷ 900 ∷ 950 ∷ []; block_until = 0; block_count = 1 }

abbrev watched : Guard
watched = record empty {
  state = (address, failing) ∷ [];
  account_state = (codes "ann", 10 ∷ 900 ∷ []) ∷ [];
}

run-new_guard-IsValid_example :
    IsValid (run (new_guard options) ((10, responds login 401 none) ∷ (20, checks login) ∷ []))
run-new_guard-IsValid_example =
    run-new_guard-IsValid options ((10, responds login 401 none) ∷ (20, checks login) ∷ [])

failures-lock_example :
    (check (failures empty login 401 (900 ∷ 930 ∷ 950 ∷ [])) login 960).1.blocked ≡ true
unfolding program
failures-lock_example =
    failures-lock empty login 401 950 (900 ∷ 930 ∷ []) 950 960 refl refl (omega arith) refl
      (omega arith) (omega arith)

abbrev full : Guard
full = record watched { config = record config { max_state_size = 1 } }

abbrev locked : Guard
locked = record empty { state = (address, record failing { block_until = 1040 }) ∷ [] }
