-- ===== src/Bots/Tests.antt =====
-- src/modules/bot-detection.js: concrete requests.
use Prim.Native.String.{String}
use shield_wall.Prelude.{ℕ, ◌≡◌, refl, true, false, none, List, [], ◌∷◌, arith, get, codes, text_eq}
use shield_wall.Bots.{
  sequential_path_access, Visit, Store, shown_by_visits, is_scan, are_different, last_five,
  is_recent, max_sessions,
}
use shield_wall.Bots.Check.{Request, id_of, check}
use shield_wall.Bots.Bounds.{Event, arrives, goes_on, ticks, run, IsBounded, run-IsBounded_sessions}
use shield_wall.Bots.Flags.{IsFree, check-unknown}

abbrev empty : Store
empty = record { sessions = []; locks = [] }

abbrev trapped : Request
trapped = record {
  user_agent = codes "curl/8";
  headers = [];
  ip = codes "10.0.0.1";
  session_id = codes "s1";
  path = codes "/a";
  method = codes "GET";
  honeypot_triggered = true;
}

-- Two requests wait at the same time.
abbrev events : List Event
events =
    arrives trapped ∷ arrives trapped ∷ goes_on trapped 1 ∷ goes_on trapped 2 ∷ ticks 5_000_000 ∷ []

empty-IsBounded : IsBounded empty
unfolding max_sessions
empty-IsBounded = record { sessions = omega arith; requests = tt }

run-IsBounded_sessions_example : IsBounded (run empty events)
run-IsBounded_sessions_example = run-IsBounded_sessions empty events empty-IsBounded

not_there : get (id_of trapped) empty.sessions ≡ none
unfolding get id_of
not_there = refl

check-unknown_example : IsFree (id_of trapped) (check (λ s. false) trapped 7 empty).0
check-unknown_example = check-unknown (λ s. false) trapped 7 empty not_there

abbrev at_path : String → ℕ → Visit
at_path p t = record { timestamp = t; path = codes p; method = codes "GET" }

-- Five different paths in five seconds are shown, and one path five times is not.
different_paths :
    shown_by_visits 5
      (at_path "/a" 1 ∷ at_path "/b" 2 ∷ at_path "/c" 3 ∷ at_path "/d" 4 ∷ at_path "/e" 5 ∷ [])
    ≡ sequential_path_access ∷ []
unfolding shown_by_visits is_scan are_different last_five is_recent text_eq
different_paths = refl

one_path :
    shown_by_visits 5
      (at_path "/a" 1 ∷ at_path "/a" 2 ∷ at_path "/a" 3 ∷ at_path "/a" 4 ∷ at_path "/a" 5 ∷ [])
    ≡ []
unfolding shown_by_visits is_scan are_different last_five is_recent text_eq
one_path = refl
