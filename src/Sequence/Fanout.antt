-- ===== src/Sequence/Fanout.antt =====
-- src/modules/sequence-anomaly.js: the resources that many addresses ask for.
use shield_wall.Prelude.{
  ℕ, ◌+◌, max, Bool, true, false, ◌&&◌, not, Option, none, some, List, [], ◌∷◌, ◌++◌, length, take,
  any, JsMap, get, put, sweep, Text, codes, text_eq, to_lower, ltb, leb, if◌then◌else◌,
}
use shield_wall.Sequence.Params.{ParamClass, identifier, page, batch}
use shield_wall.Sequence.Detectors.{Config, Signal, distributed_scraping}

pub record Resource : Type 0 where
  pub ips : List Text
  pub hits : ℕ
  pub first_seen : ℕ
  pub last_activity : ℕ

-- `GLOBAL_RESOURCE_ACCESS`
abbrev pub Resources : Type 0
Resources = JsMap (JsMap Resource)

-- `set.add(ip)`
unfoldable pub add_ip : Text → List Text → List Text
add_ip ip ips = if any (text_eq ip) ips then ips else ips ++ ip ∷ []

unfoldable pub touch : Text → ℕ → Option Resource → Resource
touch ip now none = record { ips = ip ∷ []; hits = 1; first_seen = now; last_activity = now }
touch ip now (some r) = record r { ips = add_ip ip r.ips; hits = r.hits + 1; last_activity = now }

-- The entry is deleted on the way where it is too old.
unfoldable pub unless_stale : ℕ → ℕ → Resource → Option Resource
unless_stale age now r = if ltb (r.last_activity + age) now then none else some r

unfoldable pub total_hits : JsMap Resource → ℕ
total_hits [] = 0
total_hits (e ∷ m) = e.1.hits + total_hits m

unfoldable pub add_ips : List Text → List Text → List Text
add_ips [] seen = seen
add_ips (ip ∷ ips) seen = add_ips ips (add_ip ip seen)

unfoldable pub distinct_ips : List Text → JsMap Resource → List Text
distinct_ips seen [] = seen
distinct_ips seen (e ∷ m) = distinct_ips (add_ips e.1.ips seen) m

unfoldable pub map_or_new : Option (JsMap Resource) → JsMap Resource
map_or_new none = []
map_or_new (some m) = m

-- The values of one parameter after a request, and what they show.
unfoldable pub access : Config → Text → Text → Text → ℕ → JsMap Resource → JsMap Resource
access c key val ip now m =
    sweep (unless_stale c.time_window_ms now) (put val (touch ip now (get val m)) m)

unfoldable pub shown_by : Config → Text → JsMap Resource → List Signal
shown_by c key m =
    let ips = distinct_ips [] m in
    if leb c.min_distinct_ips (length ips) && leb c.min_hits_for_fanout (total_hits m)
    then distributed_scraping key (length ips) (total_hits m) (take 5 ips) ∷ []
    else []

unfoldable pub is_identifier : ParamClass → Bool
is_identifier identifier = true
is_identifier page = false
is_identifier batch = false

unfoldable pub resource_key : Text → Text
unfolding to_lower
resource_key key = codes "id:" ++ to_lower key

-- `_detectGlobalFanout`
unfoldable pub detect_global_fanout :
    Config → Text → ParamClass → Text → Text → ℕ → Resources → Resources × List Signal
unfolding is_identifier
detect_global_fanout c key class val ip now g =
    let m = access c key val ip now (map_or_new (get (resource_key key) g)) in
    if not (c.global_fanout_on && c.tracking_enabled && is_identifier class)
    then (g, [])
    else (put (resource_key key) m g, shown_by c key m)

-- `_maxLastActivity`
unfoldable pub max_last_activity : JsMap Resource → ℕ
max_last_activity [] = 0
max_last_activity (e ∷ m) = max e.1.last_activity (max_last_activity m)
