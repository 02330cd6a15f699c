-- ===== src/ApiAbuse/Tracking.antt =====
-- src/modules/api-abuse.js: `trackEndpointAccess`, the timer, and `check`.
use shield_wall.Prelude.{
  ℕ, suc, ◌+◌, ◌*◌, Bool, ◌&&◌, ◌||◌, Option, none, some, List, [], ◌∷◌, ◌++◌, map, length, take,
  drop, any, all, keep, JsMap, get, put, evict_oldest, sweep, Text, codes, text_eq, starts_with,
  split, ltb, leb, if◌then◌else◌,
}
use shield_wall.Decoder.{join}
use shield_wall.Scoring.{Match}
use shield_wall.ApiAbuse.{
  Indicator, id_enumeration, endpoint_enumeration, Request, query_of, graphql_abuse,
  detect_rest_abuse, conclude,
}
use shield_wall.ApiAbuse.Queries.{calculate_query_complexity}

pub record Endpoint : Type 0 where
  pub count : ℕ
  pub first_access : ℕ
  pub last_access : ℕ

pub record Tracker : Type 0 where
  pub endpoints : JsMap Endpoint
  pub first_seen : ℕ
  pub last_seen : ℕ

abbrev pub tracking_window : ℕ
tracking_window = 300_000

abbrev pub max_tracker_size : ℕ
max_tracker_size = 10_000

unfoldable pub unless_stale : ℕ → Endpoint → Option Endpoint
unless_stale now d = if ltb (d.last_access + tracking_window) now then none else some d

unfoldable pub one_more : ℕ → Option Endpoint → Endpoint
one_more now none = record { count = 1; first_access = now; last_access = now }
one_more now (some d) = record d { count = suc d.count; last_access = now }

-- The endpoints of a client after an access.
unfoldable pub access : Text → ℕ → JsMap Endpoint → JsMap Endpoint
unfolding unless_stale one_more sweep get put
access path now m =
    let fresh = sweep (unless_stale now) m in put path (one_more now (get path fresh)) fresh

last_part : List Text → Text
last_part [] = []
last_part (p ∷ []) = p
last_part (p ∷ q ∷ ps) = last_part (q ∷ ps)

all_but_last : List Text → List Text
all_but_last [] = []
all_but_last (p ∷ []) = []
all_but_last (p ∷ q ∷ ps) = p ∷ all_but_last (q ∷ ps)

distinct : List Text → List Text
unfolding text_eq
distinct [] = []
distinct (x ∷ xs) = let rest = distinct xs in if any (text_eq x) rest then rest else x ∷ rest

is_digit : ℕ → Bool
is_digit c = leb b'0' c && leb c b'9'

is_hex : ℕ → Bool
unfolding is_digit
is_hex c = is_digit c || (leb b'a' c && leb c b'f') || (leb b'A' c && leb c b'F')

-- A number, or the start of a UUID.
is_id : Text → Bool
unfolding is_digit is_hex starts_with
is_id s =
    (ltb 0 (length s) && all is_digit s)
    || (leb 13 (length s)
        && all is_hex (take 8 s)
        && starts_with (drop 8 s) (codes "-")
        && all is_hex (take 4 (drop 9 s)))

-- What the endpoints of a client show.
pub enumeration : List Text → List Indicator
unfolding split join last_part all_but_last distinct is_id
enumeration paths =
    let n = length paths in
    let bases = length (distinct (map (λ p. join b'/' (all_but_last (split b'/' p))) paths)) in
    let ids = length (keep (λ p. is_id (last_part (split b'/' p))) paths) in
    if ltb 20 n
    then if ltb (5 * bases) n && ltb 10 ids
      then id_enumeration ids ∷ []
      else if ltb 30 n
      then endpoint_enumeration n ∷ []
      else []
    else []

pub tracker_of : ℕ → Option Tracker → Tracker
tracker_of now none = record { endpoints = []; first_seen = now; last_seen = now }
tracker_of now (some t) = record t { last_seen = now }

-- The oldest client makes room, also for one that is there already.
unfoldable pub make_room : JsMap Tracker → JsMap Tracker
unfolding evict_oldest
make_room m = if leb max_tracker_size (length m) then evict_oldest m else m

unfoldable pub track_endpoint_access :
    Text → Text → ℕ → JsMap Tracker → JsMap Tracker × List Indicator
unfolding tracker_of access make_room enumeration get put
track_endpoint_access id path now m =
    let t = tracker_of now (get id m) in
    let endpoints = access path now t.endpoints in
    (
      put id (record t { endpoints = endpoints }) (make_room m),
      enumeration (map (λ e. e.0) endpoints),
    )

pub client_of : Request → Text
client_of r = elim r.session_id [ [] ↦ r.ip | c ∷ s ↦ c ∷ s ]

-- `check`
unfoldable pub check : Request → ℕ → JsMap Tracker → JsMap Tracker × List Match
unfolding query_of calculate_query_complexity graphql_abuse detect_rest_abuse client_of conclude
check r now m =
    let query = query_of r in
    let (doubled, found) = calculate_query_complexity query in
    let (tracked, enumerated) = track_endpoint_access (client_of r) r.path now m in
    (
      tracked,
      conclude
          (graphql_abuse (ltb 0 (length query)) doubled found ++ detect_rest_abuse r ++ enumerated),
    )

pub unless_idle : ℕ → Tracker → Option Tracker
unless_idle now t = if ltb (t.last_seen + 600_000) now then none else some t

-- The timer.
unfoldable pub clean : ℕ → JsMap Tracker → JsMap Tracker
unfolding unless_idle sweep
clean now m = sweep (unless_idle now) m
