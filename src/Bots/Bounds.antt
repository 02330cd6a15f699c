-- ===== src/Bots/Bounds.antt =====
-- src/modules/bot-detection.js: the bounds of the sessions, whatever happens during a wait.
use shield_wall.Prelude.{
  ℕ, ◌≤◌, ◌<◌, ◌≡◌, refl, sym, subst, true, Option, none, some, List, [], ◌∷◌, arith, length, drop,
  length-append, length-drop, JsMap, get, evict_oldest, length-evict_oldest, length-put-le,
  length-put_present, length-sweep-le, Text, both_branches, AllValues, AllValues-get, AllValues-put,
  AllValues-evict_oldest, AllValues-sweep, AllValues-sweep,
}
use shield_wall.Bots.{
  Visit, Data, Store, enter_visit, max_sessions, max_requests, make_room, new_data, session,
  push_visit, visit, take_lock, after_lock, unless_idle, clean,
}
use shield_wall.Bots.Check.{flagged, Request, flag, id_of}

-- What can happen, in any order: a request reaches the wait, a request goes on after it, the timer.
pub data Event : Type 0 where
  arrives : Request → Event
  goes_on : Request → ℕ → Event
  ticks : ℕ → Event

unfoldable pub step : Store → Event → Store
step s (arrives r) = take_lock (id_of r) (flag r s)
step s (goes_on r now) = (after_lock (id_of r) r.path r.method now s).0
step s (ticks now) = clean now s

abbrev pub run : Store → List Event → Store
run s [] = s
run s (e ∷ es) = run (step s e) es

pub record IsBounded (s : Store) : Type 0 where
  pub sessions : length s.sessions ≤ max_sessions
  pub requests : AllValues (λ d. length d.requests ≤ max_requests) s.sessions

length-push_visit-le :
    (v : Visit) (vs : List Visit)
    → length vs ≤ max_requests
    → length (push_visit v vs) ≤ max_requests
unfolding push_visit max_requests
length-push_visit-le v vs h =
    ground (arith, length-append vs (v ∷ []), length-append (drop 1 vs) (v ∷ []), length-drop 1 vs)

visit-le :
    (path method : Text) (now : ℕ) (d : Data)
    → length d.requests ≤ max_requests
    → length (visit path method now d).0.requests ≤ max_requests
unfolding visit
visit-le path method now d h = ground (
  arith,
  length-push_visit-le (record { timestamp = now; path = path; method = method }) d.requests h,
)

abbrev WithRequests : Data → Type 0
WithRequests d = length d.requests ≤ max_requests

new-requests : (now : ℕ) → WithRequests (new_data now)
unfolding new_data max_requests
new-requests now = omega arith

flagged-IsBounded :
    (r : Request) (s : Store) (o : Option Data)
    → get (id_of r) s.sessions ≡ o
    → IsBounded s
    → IsBounded (flagged r s o)
unfolding flagged
flagged-IsBounded r s none e h = h
flagged-IsBounded r s (some d) e h =
    both_branches IsBounded r.honeypot_triggered
      (record {
        sessions =
            subst (λ n. n ≤ max_sessions)
              (sym (length-put_present (id_of r) (record d { is_bot = true }) d s.sessions e))
              h.sessions;
        requests =
            AllValues-put WithRequests (id_of r) (record d { is_bot = true }) s.sessions
              (AllValues-get WithRequests (id_of r) d s.sessions h.requests e) h.requests;
      })
      h

room :
    (m : JsMap Data)
    → length m ≤ max_sessions
    → max_sessions ≤ length m
    → length (evict_oldest m) < max_sessions
unfolding max_sessions
room m h k = omega (arith, length-evict_oldest m (omega arith))

make_room-le :
    (s : Store) → length s.sessions ≤ max_sessions → length (make_room s).sessions < max_sessions
unfolding make_room
make_room-le s h = ground (arith, room s.sessions h)

make_room-requests :
    (s : Store) → AllValues WithRequests s.sessions → AllValues WithRequests (make_room s).sessions
unfolding make_room
make_room-requests s h = ground (arith, AllValues-evict_oldest WithRequests s.sessions h)

enter_visit-IsBounded :
    (id path method : Text) (now : ℕ) (s : Store) (o : Option Data)
    → get id s.sessions ≡ o
    → IsBounded s
    → IsBounded (enter_visit id path method now (session now s o)).0
unfolding enter_visit session
enter_visit-IsBounded id path method now s none e h =
    let v = (visit path method now (new_data now)).0 in
    record {
      sessions =
          omega (arith, length-put-le id v (make_room s).sessions, make_room-le s h.sessions);
      requests =
          AllValues-put WithRequests id v (make_room s).sessions
            (visit-le path method now (new_data now) (new-requests now))
            (make_room-requests s h.requests);
    }
enter_visit-IsBounded id path method now s (some d) e h =
    let v = (visit path method now d).0 in
    record {
      sessions =
          subst (λ n. n ≤ max_sessions) (sym (length-put_present id v d s.sessions e)) h.sessions;
      requests =
          AllValues-put WithRequests id v s.sessions
            (visit-le path method now d (AllValues-get WithRequests id d s.sessions h.requests e))
            h.requests;
    }

kept : (now : ℕ) (d e : Data) → WithRequests d → unless_idle now d ≡ some e → WithRequests e
unfolding unless_idle
kept now d e h k = ground arith

step-IsBounded : (s : Store) (e : Event) → IsBounded s → IsBounded (step s e)
unfolding step take_lock clean flag after_lock
step-IsBounded s (arrives r) h =
    let k = flagged-IsBounded r s (get (id_of r) s.sessions) refl h in
    record { sessions = k.sessions; requests = k.requests }
step-IsBounded s (goes_on r now) h =
    enter_visit-IsBounded (id_of r) r.path r.method now s (get (id_of r) s.sessions) refl h
step-IsBounded s (ticks now) h = record {
  sessions = omega (arith, length-sweep-le (unless_idle now) s.sessions, h.sessions);
  requests = AllValues-sweep WithRequests (unless_idle now) (kept now) s.sessions h.requests;
}

-- From a state within the bounds, and whatever happens in whatever order, with any requests between the
-- wait of another and its end: there are at most 5000 sessions, each with at most 100 requests.
pub run-IsBounded_sessions : (s : Store) (es : List Event) → IsBounded s → IsBounded (run s es)
run-IsBounded_sessions s [] h = h
run-IsBounded_sessions s (e ∷ es) h = run-IsBounded_sessions (step s e) es (step-IsBounded s e h)
