-- ===== src/Sessions/Detectors.antt =====
-- src/modules/session-anomaly.js: the detectors, each on its own part of the state.
use shield_wall.Prelude.{
  ℕ, ◌+◌, ◌-◌, ◌*◌, min, max, Bool, true, false, ◌&&◌, ◌||◌, not, Option, none, some, List, [], ◌∷◌,
  ◌++◌, map, length, take, drop, any, keep, JsMap, get, put, sweep, Text, codes, text_eq,
  starts_with, includes, split, trim, ltb, leb, ◌==◌, if◌then◌else◌,
}
use shield_wall.Sessions.{
  Config, Location, Place, Screen, Fingerprint, Visit, IpEntry, Indicator, vpn_node_switch,
  impossible_travel, rapid_country_switch_no_city, vpn_country_switch, rapid_country_switch,
  ua_changed, canvas_changed, screen_changed, fingerprint_takeover, credential_stuffing_farm,
  sensitive_no_referer, cross_origin_sensitive, orphan_api_call, rate_velocity, lateral_movement,
  session_ip_flood,
}
use shield_wall.Sessions.Patterns.{
  is_tracked_param, is_batch_param, is_numeric_id, is_uuid, is_under,
}

-- `set.add(x)`
unfoldable pub add_once : Text → List Text → List Text
unfolding text_eq
add_once x xs = if any (text_eq x) xs then xs else xs ++ x ∷ []

-- An address and its sessions.
unfoldable pub enter_ip : Text → ℕ → Option IpEntry → IpEntry
unfolding add_once
enter_ip id now none = record { sessions = id ∷ []; last_used = now }
enter_ip id now (some e) = record { sessions = add_once id e.sessions; last_used = now }

unfoldable pub farm : Config → IpEntry → List Indicator
farm c e =
    if ltb c.credential_stuffing_farm_per_ip (length e.sessions)
    then credential_stuffing_farm (length e.sessions) ∷ []
    else []

-- `referer` is that of the headers `referer` and `origin` that is there, `url_host` that of `URL`.
unfoldable pub check_referer :
    (Text → Option Text) → List Text → Text → Text → Text → List Indicator
unfolding is_under text_eq
check_referer url_host regexps path referer host = elim (any (is_under path) regexps) [
  | false ↦ []
  | true ↦ elim referer [
    | [] ↦ sensitive_no_referer ∷ []
    | c ∷ s ↦ elim (url_host (c ∷ s)) [
      | none ↦ cross_origin_sensitive ∷ []
      | some [] ↦ cross_origin_sensitive ∷ []
      | some (d ∷ t) ↦ if text_eq (d ∷ t) host then [] else cross_origin_sensitive ∷ []
    ]
  ]
]

is_api : Text → Bool
unfolding starts_with
is_api path = starts_with path (codes "/api/")

-- The history comes with the last visit first.
unfoldable pub orphan : Config → Text → List Visit → List Indicator
unfolding is_api includes
orphan c path back =
    if is_api path
      && not (includes path (codes "/public/"))
      && not (any (λ v. not (is_api v.path)) (take (min (length back) c.orphan_api_window) back))
    then orphan_api_call ∷ []
    else []

-- The distinct paths back to the first visit before the cutoff.
recent_paths : ℕ → List Visit → List Text
unfolding text_eq
recent_paths cutoff [] = []
recent_paths cutoff (v ∷ vs) =
    let rest = recent_paths cutoff vs in
    if ltb v.ts cutoff then [] else if any (text_eq v.path) rest then rest else v.path ∷ rest

unfoldable pub velocity : Config → ℕ → List Visit → List Indicator
unfolding recent_paths
velocity c now back =
    let paths = recent_paths (now - c.rate_velocity_window_ms) back in
    if leb 2 (length back) && leb c.rate_velocity_distinct_paths (length paths)
    then rate_velocity (length paths) ∷ []
    else []

-- The history after a visit, in the order of time.
unfoldable pub append_visit : Config → Visit → List Visit → List Visit
append_visit c v history =
    let all_of = history ++ v ∷ [] in drop (length all_of - c.history_size) all_of

unfoldable pub add_capped : ℕ → Text → List Text → List Text
unfolding add_once
add_capped cap x xs = if ltb (length xs) cap then add_once x xs else xs

unfoldable pub values_of : Option (List Text) → List Text
values_of none = []
values_of (some xs) = xs

unfoldable pub is_identifier : Text → Text → Bool
unfolding is_tracked_param is_batch_param is_numeric_id is_uuid text_eq
is_identifier key val =
    not (
      text_eq key (codes "__proto__")
      || text_eq key (codes "constructor")
      || text_eq key (codes "prototype"))
    && is_tracked_param key
    && not (is_batch_param key)
    && (is_numeric_id val || is_uuid val)

-- The loop over the parameters of the query and the body, with their values as text.
unfoldable pub lateral :
    Config → JsMap (List Text) → List (Text × Text) → JsMap (List Text) × List Indicator
unfolding is_identifier values_of add_capped get put
lateral c m [] = (m, [])
lateral c m ((key, val) ∷ ps) =
    let seen = add_capped c.lateral_movement_cap val (values_of (get key m)) in
    let (kept, later) = lateral c (put key seen m) ps in
    let (plain, others) = lateral c m ps in
    if is_identifier key val
    then (
      kept,
      (if ltb c.lateral_movement_ids (length seen)
            then lateral_movement (length seen) key ∷ []
            else [])
          ++ later,
    )
    else (plain, others)

-- `isSuspectedVPN`; `vpn_header` says whether one of the three headers is there.
unfoldable pub is_suspected_vpn : Config → Text → Bool → Option ℕ → Bool
unfolding split trim
is_suspected_vpn c xff vpn_header asn =
    let hops = keep (λ s. ltb 0 (length s)) (map trim (split b',' xff)) in
    ltb c.suspicious_xff_hops (length hops)
    || vpn_header
    || elim asn [ none ↦ false | some n ↦ any (λ m. m == n) c.hosting_asns ]

-- `_impossibleTravelThreshold`
impossible_travel_threshold : Config → ℕ → ℕ
impossible_travel_threshold c elapsed =
    if ltb elapsed c.short_window_ms
    then c.impossible_travel_short_window
    else if ltb c.long_window_ms elapsed
    then c.impossible_travel_long_window
    else c.impossible_travel_mid_window

-- `is_faster` says of two places, a time and a limit whether `calculateGeoVelocity` is above the limit.
moved :
    (Place → Place → ℕ → ℕ → Bool)
    → Config
    → Bool
    → Bool
    → ℕ
    → Option Place
    → Option Place
    → List Indicator
unfolding impossible_travel_threshold
moved is_faster c vpn abroad elapsed (some from) (some at) =
    if is_faster from at elapsed (impossible_travel_threshold c elapsed)
    then (if vpn then vpn_node_switch else impossible_travel) ∷ []
    else []
moved is_faster c vpn abroad elapsed (some from) none =
    if abroad && ltb elapsed c.rapid_country_switch_no_city_ms && not vpn
    then rapid_country_switch_no_city ∷ []
    else []
moved is_faster c vpn abroad elapsed none there =
    if abroad && ltb elapsed c.rapid_country_switch_no_city_ms && not vpn
    then rapid_country_switch_no_city ∷ []
    else []

-- `checkGeoVelocity`: from the last location to the new one. Countries come in capitals.
unfoldable pub check_geo_velocity :
    (Place → Place → ℕ → ℕ → Bool) → Config → Bool → Bool → Location → Location → List Indicator
unfolding moved text_eq
check_geo_velocity is_faster c vpn is_mobile last here =
    let elapsed = here.timestamp - last.timestamp in
    let abroad = not (text_eq here.country last.country) in
    let limit =
      if is_mobile then c.rapid_country_switch_mobile_ms else c.rapid_country_switch_desktop_ms in
    if text_eq here.country [] || text_eq last.country [] || elapsed == 0
    then []
    else moved is_faster c vpn abroad elapsed last.place here.place
      ++ (if abroad && ltb elapsed limit
          then (if vpn then vpn_country_switch else rapid_country_switch) ∷ []
          else [])

distance : ℕ → ℕ → ℕ
distance a b = (a - b) + (b - a)

-- The quotients are exact: an area that changes by more than a fifth, with sides whose ratio changes by
-- less than a tenth.
screen_moved : Option Screen → Option Screen → Bool
unfolding distance
screen_moved none curr = false
screen_moved (some prev) none = false
screen_moved (some prev) (some curr) =
    let before = prev.width * prev.height in
    let after = curr.width * curr.height in
    let tall = max prev.height 1 in
    let high = max curr.height 1 in
    ltb (max before 1) (5 * distance after before)
    && ltb (10 * distance (curr.width * tall) (prev.width * high)) (tall * high)

differ : Text → Text → Bool
unfolding text_eq
differ [] b = false
differ (c ∷ a) [] = false
differ (c ∷ a) (d ∷ b) = not (text_eq (c ∷ a) (d ∷ b))

-- `checkFingerprintChange`
unfoldable pub check_fingerprint_change : Fingerprint → Fingerprint → List Indicator
unfolding differ screen_moved
check_fingerprint_change prev curr =
    let ua = differ prev.user_agent curr.user_agent in
    let canvas = differ prev.canvas curr.canvas in
    let screen = screen_moved prev.screen curr.screen in
    let weight = (if ua then 2 else 0) + (if canvas then 3 else 0) + (if screen then 2 else 0) in
    (if ua then ua_changed ∷ [] else [])
    ++ (if canvas then canvas_changed ∷ [] else [])
    ++ (if screen then screen_changed ∷ [] else [])
    ++ (if leb 5 weight then fingerprint_takeover weight ∷ [] else [])

-- The addresses of a session: the old ones go, and the new one comes if there is room.
unfoldable pub enter_session_ip : Config → Text → ℕ → JsMap ℕ → JsMap ℕ
unfolding sweep put
enter_session_ip c ip now ips =
    let fresh = sweep (λ ts. if ltb ts (now - c.ip_session_window_ms) then none else some ts) ips in
    if ltb (length fresh) c.session_ip_flood_cap then put ip now fresh else fresh

unfoldable pub ip_flood : Config → JsMap ℕ → List Indicator
ip_flood c ips =
    if ltb c.session_ip_flood (length ips) then session_ip_flood (length ips) ∷ [] else []
