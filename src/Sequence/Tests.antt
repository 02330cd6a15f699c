-- ===== src/Sequence/Tests.antt =====
-- src/modules/sequence-anomaly.js: the ring buffer at concrete entries.
use shield_wall.Sequence.Params.{
  Classes, page, identifier, classify_param, get_class_matchers, is_resource_id, iter_params, Value,
  single, many,
}
use shield_wall.Sequence.Reload.{classifies, reloads, happen, unused}
use Prim.Native.String.{String}
use shield_wall.Prelude.{
  ◌++◌, All, any, take, length, get, put, Text, text_eq, true, false, if◌then◌else◌, codes, none,
  some, ℕ, ◌≡◌, refl, List, [], ◌∷◌, arith,
}
use shield_wall.Sessions.Patterns.{is_numeric_id}
use shield_wall.Sequence.Detectors.{
  Config, up, down, is_page, is_allowed, Signal, distributed_scraping,
}
use shield_wall.Sequence.Fanout.{distinct_ips, detect_global_fanout}
use shield_wall.Sequence.Check.{map_key, track_val, enter, track, cleanup, check}
use shield_wall.Sequence.Scans.{Detects, scan, IsPaced}
use shield_wall.Sequence.Histories.{Access, Event, accesses, cleans, IsRoomy, place, seen, seen_at}
use shield_wall.Sequence.Scraping.{
  fresh, entry_after, signals_after, reported, track-scan, ring_iterate-entry_after,
}
use shield_wall.Sequence.Distributed.{IsDistinct}
use shield_wall.Sequence.Crowds.{Hit, IsWithin, after_hits, enter_hits, detect_global_fanout-crowd}
use shield_wall.Sequence.Throws.{broken, check-happen}
use shield_wall.Sequence.{empty_ring, ring_iterate, ring_push}
use shield_wall.Sequence.History.{last, push_each}

abbrev ids : List ℕ
ids = 11 ∷ 12 ∷ 13 ∷ 14 ∷ 15 ∷ []

reads : ring_iterate (push_each 3 empty_ring ids) ≡ 13 ∷ 14 ∷ 15 ∷ []
unfolding ring_iterate ring_push
reads = refl

abbrev classes : Classes
classes = (codes "id", codes "user_id" ∷ []) ∷ (codes "page", codes "offset" ∷ []) ∷ []

classify_param-first : (classify_param classes (codes "Offset") unused).1 ≡ some (some page)
unfolding classify_param get_class_matchers
classify_param-first = refl

abbrev config : Config
config = record {
  max_param_keys = 2;
  param_history_ttl_ms = 1_800_000;
  history_max_len = 16;
  tracking_enabled = true;
  max_resources = 200_000;
  resource_ttl_ms = 3_600_000;
  min_distinct_ips = 3;
  min_hits_for_fanout = 4;
  time_window_ms = 600_000;
  allowed_diffs = up 1 ∷ down 1 ∷ [];
  min_sequence_length = 5;
  min_sequence_velocity = 2;
  max_sequence_velocity = 100;
  min_requests = 10;
  min_velocity = 5;
  max_velocity = 100;
  param_classes = classes;
  sequential_scraping_on = true;
  velocity_spike_on = true;
  global_fanout_on = true;
}

abbrev by : String → String → ℕ → Access
by ip val now = record {
  ip = codes ip;
  key = codes "id";
  class = identifier;
  val = codes val;
  time = now;
}

-- An earlier access is forgotten; another client asks in between, and the timer cleans up.
abbrev events : List Event
events =
    accesses (by "1.1.1.1" "5" 1_000)
    ∷ cleans 2_000_000
    ∷ accesses (by "1.1.1.1" "41" 2_001_000)
    ∷ accesses (by "1.1.1.1" "42" 2_001_400)
    ∷ accesses (by "2.2.2.2" "7" 2_001_500)
    ∷ cleans 2_001_600
    ∷ accesses (by "1.1.1.1" "43" 2_001_900)
    ∷ accesses (by "1.1.1.1" "44" 2_002_000)
    ∷ []

abbrev times : List ℕ
times = 2_001_000 ∷ 2_001_400 ∷ 2_001_900 ∷ 2_002_000 ∷ 2_002_500 ∷ []

abbrev final_access : Access
final_access = by "1.1.1.1" "45" 2_002_500

detects : Detects config 500
unfolding is_allowed
detects = record {
  on = refl;
  one = refl;
  fast = omega arith;
  ordered = omega arith;
  room = omega arith;
  fits = omega arith;
}

is_scan : seen_at config (place final_access) events ++ seen final_access ∷ [] ≡ scan 41 times
unfolding map_key track_val text_eq is_numeric_id
is_scan = refl

roomy : IsRoomy config events (fresh unused)
unfolding track enter cleanup put get map_key detect_global_fanout text_eq
roomy = (omega arith, (omega arith, tt))

not_page : is_page identifier ≡ false
unfolding is_page
not_page = refl

is_paced : IsPaced 500 times
is_paced = ground arith

final_is_numeric : is_numeric_id (codes "45") ≡ true
unfolding is_numeric_id
final_is_numeric = refl

ring_iterate-entry_after_example :
    ring_iterate (entry_after config unused events final_access).ring
    ≡ last 16 (seen_at config (place final_access) events ++ seen final_access ∷ [])
ring_iterate-entry_after_example =
    ring_iterate-entry_after config unused events final_access (omega arith) roomy

track-scan_example :
    (rest : List Signal) × (signals_after config unused events final_access
      ≡ reported config 500 detects final_access not_page (scan 41 times) ∷ rest)
track-scan_example =
    track-scan config 500 detects final_access not_page unused events 41 times final_is_numeric
      roomy is_scan is_paced (omega arith)

abbrev crowd : List Hit
crowd =
    record { val = codes "5"; ip = codes "1.1.1.1"; time = 1_000 }
    ∷ record { val = codes "900"; ip = codes "2.2.2.2"; time = 1_000 }
    ∷ record { val = codes "5"; ip = codes "1.1.1.1"; time = 300_000 }
    ∷ []

abbrev last_hit : Hit
last_hit = record { val = codes "77"; ip = codes "3.3.3.3"; time = 500_000 }

abbrev addresses : List Text
addresses = codes "1.1.1.1" ∷ codes "2.2.2.2" ∷ codes "3.3.3.3" ∷ []

different : IsDistinct addresses
unfolding text_eq
different = ((refl, (refl, tt)), ((refl, tt), (tt, tt)))

everyone_asked : All (λ j. any (λ h. text_eq j h.ip) (crowd ++ last_hit ∷ []) ≡ true) addresses
unfolding text_eq
everyone_asked = (refl, (refl, (refl, tt)))

in_window : IsWithin 1_000 600_000 (crowd ++ last_hit ∷ [])
in_window = ground arith

detect_global_fanout-crowd_example :
    (detect_global_fanout config
      (codes "id")
      identifier
      (codes "77")
      (codes "3.3.3.3")
      500_000
      (enter_hits config (codes "id") crowd [])).1
    ≡ distributed_scraping
        (codes "id")
        (length (distinct_ips [] (after_hits config (codes "id") (crowd ++ last_hit ∷ []) [])))
        4
        (take 5 (distinct_ips [] (after_hits config (codes "id") (crowd ++ last_hit ∷ []) [])))
      ∷ []
detect_global_fanout-crowd_example =
    detect_global_fanout-crowd config refl (codes "id") 1_000 crowd last_hit addresses in_window
      (omega arith) different everyone_asked (omega arith)

abbrev query : List (Text × Value)
query = (codes "q", single (codes "x")) ∷ (codes "id", many (codes "7" ∷ [])) ∷ []

check-happen_example :
    check config (codes "1.1.1.1") query 2_000 (record {
      histories = [];
      resources = [];
      classes = happen classes unused (classifies (codes "id") ∷ reloads ∷ []);
    })
    ≡ (
      broken config [] [],
      if any (λ p. is_resource_id p.1) (iter_params query) then none else some ([], false),
    )
check-happen_example = check-happen config [] [] (codes "id") [] (codes "1.1.1.1") query 2_000
