-- ===== src/Sessions/Check.antt =====
-- src/modules/session-anomaly.js: `check` with all its detectors switched on, and `_cleanup`. The width of a
-- bucket of errors is exact where the one setting divides the other. The counters of `getMetrics` are left out, and so is the cleaning that a full table orders for later.
use shield_wall.Prelude.{
  ℕ, zero, suc, ◌-◌, ◌/◌, Bool, true, false, ◌&&◌, Option, none, some, List, [], ◌∷◌, ◌++◌, reverse,
  keep, JsMap, get, put, sweep, delete_all, cap_oldest, Text, codes, ltb, leb, if◌then◌else◌,
}
use shield_wall.Sessions.{
  Config, ErrorWindow, Location, Place, Fingerprint, Session, Visit, IpEntry, Store, Indicator,
  fuzzing_error_spike, impossible_travel, session_ip_flood, fingerprint_takeover,
  credential_stuffing_farm,
}
use shield_wall.Sessions.Patterns.{is_valid_session_id, normalize_ip, is_mobile_ua}
use shield_wall.Sessions.Buckets.{total, record_error}
use shield_wall.Sessions.Detectors.{
  enter_ip, farm, check_referer, orphan, velocity, append_visit, lateral, is_suspected_vpn,
  check_geo_velocity, check_fingerprint_change, enter_session_ip, ip_flood,
}

pub record Request : Type 0 where
  -- The empty text where there is none; `random_id` is what `randomBytes` would give.
  pub session_id : Text
  pub random_id : Text
  pub ip : Text
  pub user_agent : Text
  pub status : Option ℕ
  pub path : Text
  pub referer : Text
  pub host : Text
  pub forwarded_for : Text
  pub vpn_header : Bool
  pub asn : Option ℕ
  pub params : List (Text × Text)
  -- The country in capitals and the place of the city.
  pub geo : Option (Text × Option Place)
  pub fingerprint : Option Fingerprint

-- `calculateGeoVelocity`, which is made of the floating-point functions of `Math`, `URL` and the expressions of the sensitive paths.
pub record World : Type 0 where
  pub is_faster : Place → Place → ℕ → ℕ → Bool
  pub url_host : Text → Option Text
  pub regexps : List Text

unfoldable pub id_of : Request → Text
unfolding is_valid_session_id
id_of r = if is_valid_session_id r.session_id then r.session_id else r.random_id

repeated : ℕ → ℕ → List ℕ
repeated zero v = []
repeated (suc n) v = v ∷ repeated n v

unfoldable pub new_session : Config → Request → ℕ → Session
unfolding repeated
new_session c r now = record {
  first_seen = now;
  last_seen = now;
  ips = [];
  user_agent = r.user_agent;
  last_location = none;
  fingerprint = none;
  errors = record { counts = repeated c.error_bucket_count 0; offset = 0; start = now };
}

is_client_error : Option ℕ → Bool
is_client_error none = false
is_client_error (some status) = leb 400 status && ltb status 500

-- The errors of a session after a request, and what they show.
pub spike : Config → Request → ℕ → ErrorWindow → ErrorWindow × List Indicator
unfolding is_client_error record_error total
spike c r now b =
    let counted = record_error (c.error_window_ms / c.error_bucket_count) now b in
    let n = total counted.counts in
    if is_client_error r.status
    then (counted, if ltb c.error_spike_count n then fuzzing_error_spike n ∷ [] else [])
    else (b, [])

unfoldable pub or_nothing {ℓ} : {A : Type ℓ} → Option (List A) → List A
or_nothing none = []
or_nothing (some xs) = xs

pub slash_path : Text → Text
slash_path [] = codes "/"
slash_path (c ∷ s) = c ∷ s

unfoldable pub lineage : Config → Text → ℕ → List Visit → List Visit × List Indicator
unfolding orphan velocity append_visit slash_path
lineage c path now history =
    let back = reverse history in
    let visit : Visit = record { path = slash_path path; ts = now } in
    (append_visit c visit history, orphan c (slash_path path) back ++ velocity c now back)

travel : World → Config → Request → ℕ → Session → Option Location × List Indicator
unfolding check_geo_velocity is_suspected_vpn is_mobile_ua
travel w c r now s = elim r.geo [
  | none ↦ (s.last_location, [])
  | some (country, place) ↦
      let here : Location = record { country = country; place = place; timestamp = now } in
      let vpn = is_suspected_vpn c r.forwarded_for r.vpn_header r.asn in
      (
        some here,
        elim s.last_location [
          | none ↦ []
          | some last ↦ check_geo_velocity w.is_faster c vpn (is_mobile_ua s.user_agent) last here
        ],
      )
]

print_of : Option Fingerprint → Option Fingerprint → Option Fingerprint × List Indicator
unfolding check_fingerprint_change
print_of known none = (known, [])
print_of none (some f) = (some f, [])
print_of (some g) (some f) = (some f, check_fingerprint_change g f)

-- The session after a request, with what the detectors on it show, in two parts: before and after the
-- detectors on the other tables.
unfoldable pub enter_session :
    World → Config → Request → ℕ → Session → Session × (List Indicator × List Indicator)
unfolding spike travel print_of enter_session_ip ip_flood normalize_ip
enter_session w c r now s =
    let (errors, errors_show) = spike c r now s.errors in
    let (location, travel_shows) = travel w c r now s in
    let (print, print_shows) = print_of s.fingerprint r.fingerprint in
    let ips = enter_session_ip c (normalize_ip r.ip) now s.ips in
    (
      record s {
        last_seen = now;
        errors = errors;
        last_location = location;
        fingerprint = print;
        ips = ips;
      },
      (errors_show, travel_shows ++ print_shows ++ ip_flood c ips),
    )

unfoldable pub session_or_new : Config → Request → ℕ → Option Session → Session
unfolding new_session
session_or_new c r now none = new_session c r now
session_or_new c r now (some s) = s

-- `check`
unfoldable pub check : World → Config → Request → ℕ → Store → Store × List Indicator
unfolding id_of session_or_new enter_ip farm normalize_ip check_referer lineage lateral or_nothing
    enter_session get put
check w c r now t =
    let id = id_of r in
    let ip = normalize_ip r.ip in
    let entry = enter_ip id now (get ip t.ip_sessions) in
    let (session, (errors_show, rest_shows)) =
      enter_session w c r now (session_or_new c r now (get id t.sessions)) in
    let (history, lineage_shows) = lineage c r.path now (or_nothing (get id t.graphs)) in
    let (accessed, lateral_shows) = lateral c (or_nothing (get id t.resources)) r.params in
    (
      record {
        sessions = put id session t.sessions;
        graphs = put id history t.graphs;
        resources = put id accessed t.resources;
        ip_sessions = put ip entry t.ip_sessions;
      },
      farm c entry
          ++ errors_show
          ++ check_referer w.url_host w.regexps r.path r.referer r.host
          ++ lineage_shows
          ++ lateral_shows
          ++ rest_shows,
    )

-- The severity of a match is high for these, and medium for the others.
pub is_high : Indicator → Bool
is_high impossible_travel = true
is_high (session_ip_flood n) = true
is_high (fingerprint_takeover n) = true
is_high (credential_stuffing_farm n) = true
is_high _ = false

is_expired : Config → ℕ → Session → Bool
is_expired c now s = ltb s.last_seen (now - c.max_session_age_ms)

-- The keys of the sessions that are too old.
pub expired : Config → ℕ → JsMap Session → List Text
unfolding is_expired
expired c now [] = []
expired c now ((id, s) ∷ m) = if is_expired c now s then id ∷ expired c now m else expired c now m

has_key {ℓ} : {V : Type ℓ} → JsMap V → Text → Bool
unfolding get
has_key m k = elim (get k m) [ none ↦ false | some v ↦ true ]

unless_empty : ℕ → List Text → Option IpEntry
unless_empty used [] = none
unless_empty used (id ∷ ids) = some (record { sessions = id ∷ ids; last_used = used })

-- What is left of an address.
keep_ip : Config → ℕ → JsMap Session → IpEntry → Option IpEntry
unfolding has_key unless_empty
keep_ip c now sessions e =
    if ltb e.last_used (now - c.ip_session_ttl_ms)
    then none
    else unless_empty e.last_used (keep (has_key sessions) e.sessions)

-- `_cleanup`
unfoldable pub cleanup : Config → ℕ → Store → Store
unfolding expired delete_all keep_ip sweep cap_oldest
cleanup c now t =
    let gone = expired c now t.sessions in
    let left = delete_all gone t.sessions in
    record {
      sessions = left;
      graphs = delete_all gone t.graphs;
      resources = delete_all gone t.resources;
      ip_sessions =
          cap_oldest (λ e. e.last_used) c.max_ip_sessions
            (sweep (keep_ip c now left) t.ip_sessions);
    }
