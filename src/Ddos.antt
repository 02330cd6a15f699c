-- ===== src/Ddos.antt =====
-- src/modules/ddos-protection.js: floods of requests, oversized requests and the trusted addresses. `check` runs
-- with no wait but that for the lock of the address, which puts the calls for one address in a row; so
-- it is one step here, and the locks are left out. What a match says in words is left out, too.
pub mod Bounds
mod Tests
pub mod Reports
use shield_wall.Prelude.{
  ℕ, suc, ◌+◌, ◌*◌, Bool, true, false, ◌&&◌, ◌||◌, not, Option, none, some, List, [], ◌∷◌, ◌++◌,
  length, any, keep, JsMap, get, put, evict_oldest, sweep, Text, codes, text_eq, ltb, leb,
  if◌then◌else◌, recent,
}
use shield_wall.Address.{is_valid_ip}
use shield_wall.Scoring.{Match, critical, high}

pub record Slow : Type 0 where
  pub last_activity : ℕ
  pub partial_requests : ℕ

pub record Ddos : Type 0 where
  pub connections : JsMap (List ℕ)
  pub slowloris : JsMap Slow
  pub whitelist : List Text
  pub blocked_counts : ℕ

abbrev pub max_connections : ℕ
max_connections = 300

abbrev pub max_tracker_size : ℕ
max_tracker_size = 10_000

-- A value of the object of headers: an object that is no array, an array (for each item, whether it is an
-- object), a function, or anything else.
pub data HeaderValue : Type 0 where
  nested : HeaderValue
  items : List Bool → HeaderValue
  function : HeaderValue
  scalar : HeaderValue

pub record Request : Type 0 where
  pub ip : Text
  pub headers : List (Text × HeaderValue)
  -- `JSON.stringify(headers).length`, if that does not throw
  pub header_size : Option ℕ
  pub query_keys : ℕ
  -- `parseInt(headers['content-length'] || '0', 10)`, 0 for `NaN`
  pub content_length : ℕ

pub data Indicator : Type 0 where
  prototype_pollution : Text → Indicator
  circular_reference : Indicator
  function_header : Indicator
  oversized_headers : Option ℕ → Indicator
  parameter_flood : ℕ → Indicator
  oversized_body : ℕ → Indicator
  connection_flood : ℕ → Indicator

pub has_ip : Text → List Text → Bool
unfolding text_eq
has_ip ip ips = any (text_eq ip) ips

unfoldable pub add_to_whitelist : Text → Ddos → Ddos
unfolding has_ip is_valid_ip
add_to_whitelist ip s =
    if is_valid_ip ip && not (has_ip ip s.whitelist)
    then record s { whitelist = s.whitelist ++ ip ∷ [] }
    else s

unfoldable pub remove_from_whitelist : Text → Ddos → Ddos
unfolding text_eq
remove_from_whitelist ip s = record s { whitelist = keep (λ j. not (text_eq ip j)) s.whitelist }

-- The oldest key makes room for a new one.
pub make_room {ℓ} : {V : Type ℓ} → Text → JsMap V → JsMap V
unfolding evict_oldest get
make_room ip m = elim (get ip m) [
  | none ↦ if leb max_tracker_size (length m) then evict_oldest m else m
  | some v ↦ m
]

pub bad_key : Text → Bool
unfolding text_eq
bad_key k =
    text_eq k (codes "__proto__")
    || text_eq k (codes "constructor")
    || text_eq k (codes "prototype")

pub bad_value : HeaderValue → Option Indicator
bad_value nested = some circular_reference
bad_value (items objects) = if any (λ o. o) objects then some circular_reference else none
bad_value function = some function_header
bad_value scalar = none

-- The loop over the headers, which returns at the first that is wrong.
pub bad_header : List (Text × HeaderValue) → Option Indicator
unfolding bad_key bad_value
bad_header [] = none
bad_header ((k, v) ∷ hs) =
    if bad_key k
    then some (prototype_pollution k)
    else elim (bad_value v) [ none ↦ bad_header hs | some i ↦ some i ]

header_indicators : Option ℕ → List Indicator
header_indicators none = oversized_headers none ∷ []
header_indicators (some n) = if ltb 8192 n then oversized_headers (some n) ∷ [] else []

pub size_indicators : Request → List Indicator
unfolding header_indicators
size_indicators r =
    header_indicators r.header_size
    ++ ((if ltb 50 r.query_keys then parameter_flood r.query_keys ∷ [] else [])
        ++ (if ltb (100 * 1024 * 1024) r.content_length
            then oversized_body r.content_length ∷ []
            else []))

-- `tracker.lastActivity = now` writes into the object that the map holds, if it holds one.
touch : Text → ℕ → JsMap Slow → JsMap Slow
unfolding get put
touch ip now m = elim (get ip m) [ none ↦ m | some t ↦ put ip (record t { last_activity = now }) m ]

tracked : Text → ℕ → JsMap Slow → Slow
unfolding get
tracked ip now m = elim (get ip m) [
  | none ↦ record { last_activity = now; partial_requests = 0 }
  | some t ↦ record t { last_activity = now }
]

unfoldable pub check_slowloris : Request → ℕ → Ddos → Ddos × List Indicator
unfolding make_room bad_header size_indicators touch tracked put is_valid_ip
check_slowloris r now s =
    let touched = touch r.ip now (make_room r.ip s.slowloris) in
    if is_valid_ip r.ip
    then elim (bad_header r.headers) [
      | some i ↦ (record s { slowloris = touched }, i ∷ [])
      | none ↦ (
        record s { slowloris = put r.ip (tracked r.ip now s.slowloris) touched },
        size_indicators r,
      )
    ]
    else (s, [])

-- `tracker.requests`
requests_of : Option (List ℕ) → List ℕ
requests_of none = []
requests_of (some ts) = ts

unfoldable pub check_connection_flood : Text → ℕ → Ddos → Ddos × List Indicator
unfolding make_room requests_of recent put get
check_connection_flood ip now s =
    let requests = recent 60_000 now (requests_of (get ip s.connections)) ++ now ∷ [] in
    (
      record s { connections = put ip requests (make_room ip s.connections) },
      if ltb max_connections (length requests) then connection_flood (length requests) ∷ [] else [],
    )

is_oversized : Indicator → Bool
is_oversized (oversized_body n) = true
is_oversized (oversized_headers n) = true
is_oversized (prototype_pollution k) = false
is_oversized circular_reference = false
is_oversized function_header = false
is_oversized (parameter_flood n) = false
is_oversized (connection_flood n) = false

-- The match for the indicators, and the count of them.
pub conclude : List Indicator → Ddos → Ddos × List Match
unfolding is_oversized
conclude [] s = (s, [])
conclude (i ∷ is) s = (
  record s { blocked_counts = suc s.blocked_counts },
  record {
    rule = codes "ddos_protection";
    severity = if any is_oversized (i ∷ is) then critical else high;
    category = codes "dos";
    score = 0;
  }
      ∷ [],
)

-- `check` of an address that is valid and not trusted.
unfoldable pub inspect : Request → ℕ → Ddos → Ddos × List Match
unfolding conclude
inspect r now s =
    let (s1, slow) = check_slowloris r now s in
    let (s2, flood) = check_connection_flood r.ip now s1 in conclude (slow ++ flood) s2

unfoldable pub check : Request → ℕ → Ddos → Ddos × List Match
unfolding has_ip
check r now s =
    if is_valid_ip r.ip then if has_ip r.ip s.whitelist then (s, []) else inspect r now s else (
      s,
      record {
        rule = codes "ddos_protection:invalid_ip";
        severity = critical;
        category = codes "dos";
        score = 0;
      }
          ∷ [],
    )

recent_or_gone : List ℕ → Option (List ℕ)
recent_or_gone [] = none
recent_or_gone (t ∷ ts) = some (t ∷ ts)

active_or_gone : ℕ → Slow → Option Slow
active_or_gone now t = if ltb (t.last_activity + 15_000) now then none else some t

-- The timer.
unfoldable pub clean : ℕ → Ddos → Ddos
unfolding recent_or_gone active_or_gone recent sweep
clean now s = record s {
  connections = sweep (λ ts. recent_or_gone (recent 60_000 now ts)) s.connections;
  slowloris = sweep (active_or_gone now) s.slowloris;
}
