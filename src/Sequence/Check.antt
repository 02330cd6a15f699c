-- ===== src/Sequence/Check.antt =====
-- src/modules/sequence-anomaly.js: `check` and `_cleanup`. The counters of `getMetrics` are left out.
use shield_wall.Prelude.{
  ℕ, ◌+◌, ◌-◌, ◌*◌, Bool, true, false, not, Option, none, some, List, [], ◌∷◌, ◌++◌, cap_oldest,
  double, length, JsMap, get, put, sweep, Text, codes, ltb, if◌then◌else◌,
}
use shield_wall.Sessions.Patterns.{is_numeric_id, normalize_ip}
use shield_wall.Sequence.{empty_ring, ring_push}
use shield_wall.Sequence.Params.{
  ParamClass, identifier, page, batch, ClassCache, classify_param, is_resource_id, Value,
  iter_params,
}
use shield_wall.Sequence.Detectors.{
  Val, number, infinity, uuid, Entry, Config, Signal, sequential_scraping, param_velocity_spike,
  distributed_scraping, detect_sequential, detect_velocity_spike,
}
use shield_wall.Sequence.Fanout.{
  Resource, Resources, unless_stale, detect_global_fanout, max_last_activity,
}

-- `PARAM_HISTORY`, `GLOBAL_RESOURCE_ACCESS` and the cache of the classes.
pub record Store : Type 0 where
  pub histories : JsMap Entry
  pub resources : Resources
  pub classes : ClassCache

class_name : ParamClass → Text
class_name identifier = codes "id"
class_name page = codes "page"
class_name batch = codes "batch"

-- `${ip}:${key}:${effectiveClass}`
unfoldable pub map_key : Text → Text → ParamClass → Text
unfolding class_name
map_key ip key class = ip ++ codes ":" ++ key ++ codes ":" ++ class_name class

decimal : ℕ → Text → ℕ
decimal n [] = n
decimal n (c ∷ s) = decimal (n * 10 + (c - b'0')) s

val_of : Option ℕ → Val
val_of none = infinity
val_of (some n) = number n

-- `parseInt` rounds to a double.
unfoldable pub track_val : Text → Val
unfolding decimal is_numeric_id double val_of
track_val s = if is_numeric_id s then val_of (double (decimal 0 s)) else uuid s

unfoldable pub entry_or_new : ParamClass → ℕ → Option Entry → Entry
entry_or_new class now none = record { param_class = class; ring = empty_ring; last_activity = now }
entry_or_new class now (some e) = e

unfoldable pub enter : Config → ParamClass → Val → ℕ → Option Entry → Entry
unfolding entry_or_new ring_push
enter c class v now old =
    let e = entry_or_new class now old in
    record e {
      ring = ring_push c.history_max_len (record { val = v; ts = now }) e.ring;
      last_activity = now;
    }

-- Only numbers can form a sequence.
unfoldable pub shown_by_entry : Config → Text → ParamClass → Text → Entry → List Signal
shown_by_entry c key class val e =
    if is_numeric_id val
    then detect_sequential c key class e ++ detect_velocity_spike c key e
    else []

unfoldable pub track : Config → Text → ℕ → Text → Text → ParamClass → Store → Store × List Signal
track c ip now key val class s =
    let k = map_key ip key class in
    let e = enter c class (track_val val) now (get k s.histories) in
    let (resources, fanout) = detect_global_fanout c key class val ip now s.resources in
    (
      record s { histories = put k e s.histories; resources = resources },
      shown_by_entry c key class val e ++ fanout,
    )

-- A parameter of no class counts as an identifier, and the values of a batch are left out.
unfoldable pub track_class :
    Config → Text → ℕ → Text → Text → Option ParamClass → Store → Store × List Signal
unfolding track
track_class c ip now key val none s = track c ip now key val identifier s
track_class c ip now key val (some identifier) s = track c ip now key val identifier s
track_class c ip now key val (some page) s = track c ip now key val page s
track_class c ip now key val (some batch) s = (s, [])

-- The signals are `none` where a lookup of a class throws.
returned : Store × List Signal → Store × Option (List Signal)
returned (s, xs) = (s, some xs)

unfoldable pub with_class :
    Config
    → Text
    → ℕ
    → Text
    → Text
    → Store
    → ClassCache × Option (Option ParamClass)
    → Store × Option (List Signal)
unfolding returned
with_class c ip now key val s (cache, none) = (record s { classes = cache }, none)
with_class c ip now key val s (cache, some class) =
    returned (track_class c ip now key val class (record s { classes = cache }))

unfoldable pub check_param : Config → Text → ℕ → Text → Text → Store → Store × Option (List Signal)
unfolding with_class
check_param c ip now key val s =
    if not (is_resource_id val)
    then (s, some [])
    else with_class c ip now key val s (classify_param c.param_classes key s.classes)

-- What the first parameter and the rest show; the rest is not reached where the first throws.
unfoldable pub continue :
    Store × Option (List Signal) → Store × Option (List Signal) → Store × Option (List Signal)
continue (t, none) (u, ys) = (t, none)
continue (t, some xs) (u, none) = (u, none)
continue (t, some xs) (u, some ys) = (u, some (xs ++ ys))

-- `signals.push(...)` of what the parameters show.
unfoldable pub check_params :
    Config → Text → ℕ → List (Text × Text) → Store → Store × Option (List Signal)
check_params c ip now [] s = (s, some [])
check_params c ip now ((key, val) ∷ ps) s =
    let first = check_param c ip now key val s in continue first (check_params c ip now ps first.0)

unfoldable pub or_unknown : Text → Text
or_unknown [] = codes "unknown"
or_unknown (x ∷ s) = x ∷ s

unfoldable pub with_order :
    Config → Store × Option (List Signal) → Store × Option (List Signal × Bool)
with_order c (t, none) = (t, none)
with_order c (t, some xs) = (t, some (xs, ltb c.max_param_keys (length t.histories)))

-- `check`, with whether it orders a cleanup where it returns.
unfoldable pub check :
    Config → Text → List (Text × Value) → ℕ → Store → Store × Option (List Signal × Bool)
check c ip params now s =
    with_order c (check_params c (normalize_ip (or_unknown ip)) now (iter_params params) s)

-- The severity of a match is high for these.
pub is_high : Signal → Bool
is_high (sequential_scraping key class vals n v) = true
is_high (param_velocity_spike key n v) = false
is_high (distributed_scraping key ips hits sample) = true

unfoldable pub unless_old : ℕ → ℕ → Entry → Option Entry
unless_old age now e = if ltb (e.last_activity + age) now then none else some e

unless_empty : JsMap Resource → Option (JsMap Resource)
unless_empty [] = none
unless_empty (e ∷ m) = some (e ∷ m)

prune : ℕ → ℕ → JsMap Resource → Option (JsMap Resource)
unfolding unless_empty unless_stale sweep
prune age now m = unless_empty (sweep (unless_stale age now) m)

-- `_cleanup`
unfoldable pub cleanup : Config → ℕ → Store → Store
unfolding unless_old prune sweep cap_oldest max_last_activity
cleanup c now s = record s {
  histories =
      cap_oldest (λ e. e.last_activity) c.max_param_keys
        (sweep (unless_old c.param_history_ttl_ms now) s.histories);
  resources =
      cap_oldest max_last_activity c.max_resources
        (sweep (prune c.resource_ttl_ms now) s.resources);
}

-- `dispose`
unfoldable pub dispose : Store → Store
dispose s = record s { histories = []; resources = [] }
