-- ===== src/Sessions/Tests.antt =====
-- src/modules/session-anomaly.js: the properties at concrete requests.
use shield_wall.Prelude.{
  ℕ, ◌+◌, ◌≤◌, ◌<◌, ◌≡◌, refl, false, none, some, List, [], ◌∷◌, ◌++◌, arith, length, get, codes,
  text_eq, recent,
}
use shield_wall.Sessions.{Config, ErrorWindow}
use shield_wall.Sessions.Buckets.{total, slide}
use shield_wall.Sessions.Spikes.{
  IsOrdered, latest, slide-ends, record_errors, total-record_errors-le,
}
use shield_wall.Sessions.Patterns.{get_regexps, normalize_ip, is_valid_session_id}
use shield_wall.Sessions.Reload.{asks, reloads, happen, fresh, get_regexps-happen}
use shield_wall.Sessions.Check.{World, Request}
use shield_wall.Sessions.Bounds.{IsTame, checks, cleans, after, empty_store, after-IsTame}
use shield_wall.Sessions.Anonymous.{
  serve, sessions_at, random_ids, AreNew, sessions_of, sessions_at-serve,
}

abbrev window : ErrorWindow
window = record { counts = 0 ∷ 0 ∷ 0 ∷ []; offset = 0; start = 1000 }

slide-ends_example :
    (1250 < (slide 250 100 1250 window).start + 100)
    × (slide 250 100 1250 window ≡ slide 300 100 1250 window)
slide-ends_example = slide-ends 250 300 100 1250 window (omega arith) (omega arith) (omega arith)

total-record_errors-le_example :
    total (record_errors 100 window (1250 ∷ 1120 ∷ 1110 ∷ [])).counts
    ≤ length (recent 100 1250 (1250 ∷ 1120 ∷ 1110 ∷ []))
unfolding total IsOrdered latest
total-record_errors-le_example =
    total-record_errors-le 100 window 1250 (1120 ∷ 1110 ∷ []) (omega arith) refl
      (omega arith, (omega arith, (omega arith, tt)))

get_regexps-happen_example :
    (get_regexps
      (codes "/login" ∷ [])
      (happen (codes "/login" ∷ []) fresh (asks ∷ reloads ∷ asks ∷ []))).1
    ≡ []
get_regexps-happen_example = get_regexps-happen (codes "/login" ∷ []) (asks ∷ [])

abbrev world : World
world = record { is_faster = λ a b t v. false; url_host = λ s. some s; regexps = [] }

abbrev config : Config
config = record {
  max_session_age_ms = 86_400_000;
  max_ip_sessions = 10_000;
  ip_session_ttl_ms = 3_600_000;
  ip_session_window_ms = 3_600_000;
  hosting_asns = [];
  suspicious_xff_hops = 3;
  sensitive_paths = codes "/login" ∷ [];
  impossible_travel_short_window = 1500;
  impossible_travel_mid_window = 900;
  impossible_travel_long_window = 800;
  short_window_ms = 1_800_000;
  long_window_ms = 7_200_000;
  rapid_country_switch_mobile_ms = 300_000;
  rapid_country_switch_desktop_ms = 3_600_000;
  rapid_country_switch_no_city_ms = 3_600_000;
  credential_stuffing_farm_per_ip = 50;
  error_spike_count = 20;
  error_window_ms = 600_000;
  error_bucket_count = 10;
  session_ip_flood = 10;
  session_ip_flood_cap = 20;
  lateral_movement_ids = 10;
  lateral_movement_cap = 50;
  rate_velocity_distinct_paths = 3;
  rate_velocity_window_ms = 500;
  orphan_api_window = 5;
  history_size = 20;
}

abbrev request : Request
request = record {
  session_id = [];
  random_id = codes "a1";
  ip = codes "10.0.0.1";
  user_agent = codes "curl";
  status = some 404;
  path = codes "/api/orders";
  referer = [];
  host = codes "shop";
  forwarded_for = [];
  vpn_header = false;
  asn = none;
  params = (codes "id", codes "17") ∷ [];
  geo = none;
  fingerprint = none;
}

after-IsTame_example :
    IsTame config
      (after world config empty_store (checks request 5 ∷ cleans 90 ∷ checks request 100 ∷ []))
after-IsTame_example =
    after-IsTame world config (checks request 5 ∷ cleans 90 ∷ checks request 100 ∷ [])

abbrev two : List (Request × ℕ)
two = (request, 5) ∷ (record request { random_id = codes "a2" }, 9) ∷ []

sessions_at-serve_example :
    sessions_at (codes "10.0.0.1") (serve world config empty_store two)
    ≡ sessions_at (codes "10.0.0.1") empty_store ++ random_ids two
unfolding normalize_ip is_valid_session_id AreNew sessions_of sessions_at get text_eq
sessions_at-serve_example =
    sessions_at-serve world config (codes "10.0.0.1") empty_store two
      ((refl, refl), ((refl, refl), tt)) (refl, (refl, tt))
