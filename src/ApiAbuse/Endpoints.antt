-- ===== src/ApiAbuse/Endpoints.antt =====
-- src/modules/api-abuse.js: what the tracker of endpoints holds, and how many clients.
use shield_wall.Prelude.{
  ℕ, ◌+◌, ◌≤◌, ◌≡◌, refl, ap, ◌∙◌, inl, inr, Option, none, some, List, [], ◌∷◌, arith, length,
  JsMap, get, put, evict_oldest, sweep, get-put, length-evict_oldest, length-put-le,
  length-sweep-le, IsMap, put-IsMap, get-sweep, sweep-IsMap, Text, text_eq, ltb, if◌then◌else◌,
  Bool-cases,
}
use shield_wall.ApiAbuse.{Request}
use shield_wall.ApiAbuse.Tracking.{
  Endpoint, Tracker, tracking_window, max_tracker_size, unless_stale, one_more, access, make_room,
  track_endpoint_access, check, clean, client_of, unless_idle, tracker_of,
}

-- Accesses of a client with their times, the last one first.
pub accesses : List (Text × ℕ) → JsMap Endpoint
accesses [] = []
accesses ((path, now) ∷ h) = access path now (accesses h)

-- The time of the last access to a path.
pub last_seen : Text → List (Text × ℕ) → Option ℕ
unfolding text_eq
last_seen p [] = none
last_seen p ((path, t) ∷ h) = if text_eq path p then some t else last_seen p h

unfoldable pub latest : List (Text × ℕ) → ℕ
latest [] = 0
latest ((path, t) ∷ h) = t

unfoldable pub IsOrdered : List (Text × ℕ) → Type 0
unfolding latest
IsOrdered [] = Unit
IsOrdered ((path, t) ∷ h) = (latest h ≤ t) × IsOrdered h

abbrev pub last_access_of : Option Endpoint → Option ℕ
last_access_of none = none
last_access_of (some d) = some d.last_access

-- A time that is not further back than the window.
abbrev pub within : ℕ → Option ℕ → Option ℕ
within now none = none
within now (some t) = if ltb (t + tracking_window) now then none else some t

accesses-IsMap : (h : List (Text × ℕ)) → IsMap (accesses h)
unfolding accesses access
accesses-IsMap [] = tt
accesses-IsMap ((path, t) ∷ h) =
    let fresh = sweep (unless_stale t) (accesses h) in
    put-IsMap path (one_more t (get path fresh)) fresh
      (sweep-IsMap (unless_stale t) (accesses h) (accesses-IsMap h))

last_access-one_more : (now : ℕ) (o : Option Endpoint) → (one_more now o).last_access ≡ now
unfolding one_more
last_access-one_more now none = refl
last_access-one_more now (some d) = refl

within-unless_stale :
    (now : ℕ) (o : Option Endpoint)
    → last_access_of (elim o [ none ↦ none | some d ↦ unless_stale now d ])
      ≡ within now (last_access_of o)
unfolding unless_stale
within-unless_stale now none = refl
within-unless_stale now (some d) = ground arith

within-within :
    (now later : ℕ) (o : Option ℕ) → now ≤ later → within later (within now o) ≡ within later o
within-within now later none h = refl
within-within now later (some t) h = ground (arith, h)

within_self : (t : ℕ) → some t ≡ within t (some t)
within_self t = ground arith

-- After accesses of a client in the order of time: an endpoint is tracked, with the time of its last
-- access, exactly if that is at most five minutes before the last access of the client.
pub get-accesses :
    (p : Text) (h : List (Text × ℕ))
    → IsOrdered h
    → last_access_of (get p (accesses h)) ≡ within (latest h) (last_seen p h)
unfolding accesses access last_seen IsOrdered latest get
get-accesses p [] h = refl
get-accesses p ((path, t) ∷ hs) h =
    let old = accesses hs in
    let fresh = sweep (unless_stale t) old in
    elim (Bool-cases (text_eq path p)) [
      | inl same ↦
          rw (get-put path p (one_more t (get path fresh)) fresh, same)
            (ap some (last_access-one_more t (get path fresh)) ∙ within_self t)
      | inr other ↦
          rw
            (
              get-put path p (one_more t (get path fresh)) fresh,
              other,
              get-sweep (unless_stale t) p old (accesses-IsMap hs),
            )
            (within-unless_stale t (get p old)
              ∙ (ap (within t) (get-accesses p hs h.1)
                  ∙ within-within (latest hs) t (last_seen p hs) h.0))
    ]

pub data Call : Type 0 where
  checks : Request → ℕ → Call
  cleans : ℕ → Call

pub run_calls : JsMap Tracker → List Call → JsMap Tracker
run_calls m [] = m
run_calls m (checks r now ∷ cs) = run_calls (check r now m).0 cs
run_calls m (cleans now ∷ cs) = run_calls (clean now m) cs

length-put-make_room-le :
    (id : Text) (t : Tracker) (m : JsMap Tracker)
    → length m ≤ max_tracker_size
    → length (put id t (make_room m)) ≤ max_tracker_size
unfolding make_room
length-put-make_room-le id t m h =
    ground (arith, length-put-le id t m, length-put-le id t (evict_oldest m), length-evict_oldest m)

length-track-le :
    (id path : Text) (now : ℕ) (m : JsMap Tracker)
    → length m ≤ max_tracker_size
    → length (track_endpoint_access id path now m).0 ≤ max_tracker_size
unfolding track_endpoint_access
length-track-le id path now m h =
    let t = tracker_of now (get id m) in
    length-put-make_room-le id (record t { endpoints = access path now t.endpoints }) m h

-- After any requests and runs of the timer, if there are at most 10000 clients to begin with, there are
-- at most 10000.
pub length-run_calls-le :
    (m : JsMap Tracker) (cs : List Call)
    → length m ≤ max_tracker_size
    → length (run_calls m cs) ≤ max_tracker_size
unfolding run_calls check clean
length-run_calls-le m [] h = h
length-run_calls-le m (checks r now ∷ cs) h =
    length-run_calls-le (check r now m).0 cs (length-track-le (client_of r) r.path now m h)
length-run_calls-le m (cleans now ∷ cs) h =
    length-run_calls-le (clean now m) cs (omega (arith, h, length-sweep-le (unless_idle now) m))
