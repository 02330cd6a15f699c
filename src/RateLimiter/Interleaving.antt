-- ===== src/RateLimiter/Interleaving.antt =====
-- src/modules/rate-limiter.js, `MemoryStore`: its calls in any order. An increment that waits at its `await`
-- is in flight: its key, and the time it read.
use shield_wall.Prelude.{
  ℕ, ◌+◌, ◌≤◌, ◌<◌, ◌≡◌, refl, ◌⊎◌, inl, inr, none, some, List, [], ◌∷◌, ◌++◌, arith, length,
  length-append, JsMap, get, delete, length-delete-le, length-put-le, length-sweep-le, Text,
  text_eq_refl, text_eq_iff, Option-cases, recent,
}
use shield_wall.RateLimiter.{
  Store, begin, finish, make_room, oldest, block, is_blocked, cleanup, unblock, clear, keep_recent,
  stamps,
}

pub record Running : Type 0 where
  pub store : Store
  pub in_flight : List (Text × ℕ)

-- One stretch of the store's code.
pub data Step : Running → Running → Type 0 where
  begins :
      (s : Store) (fs : List (Text × ℕ)) (key : Text) (now : ℕ)
      → Step
          (record { store = s; in_flight = fs })
          (record { store = begin key s; in_flight = fs ++ (key, now) ∷ [] })
  finishes :
      (s : Store) (before after : List (Text × ℕ)) (key : Text) (now : ℕ)
      → Step
          (record { store = s; in_flight = before ++ (key, now) ∷ after })
          (record { store = (finish key now s).0; in_flight = before ++ after })
  blocks :
      (s : Store) (fs : List (Text × ℕ)) (key : Text) (duration now : ℕ)
      → Step
          (record { store = s; in_flight = fs })
          (record { store = block key duration now s; in_flight = fs })
  asks :
      (s : Store) (fs : List (Text × ℕ)) (key : Text) (now : ℕ)
      → Step
          (record { store = s; in_flight = fs })
          (record { store = (is_blocked key now s).0; in_flight = fs })
  cleans :
      (s : Store) (fs : List (Text × ℕ)) (now : ℕ)
      → Step
          (record { store = s; in_flight = fs })
          (record { store = cleanup now s; in_flight = fs })
  unblocks :
      (s : Store) (fs : List (Text × ℕ)) (key : Text)
      → Step
          (record { store = s; in_flight = fs })
          (record { store = unblock key s; in_flight = fs })
  clears :
      (s : Store) (fs : List (Text × ℕ))
      → Step (record { store = s; in_flight = fs }) (record { store = clear s; in_flight = fs })

-- Steps one after another, none of which leaves more than `limit` increments in flight.
pub data Steps (limit : ℕ) : Running → Running → Type 0 where
  done : (r : Running) → Steps limit r r
  more :
      {r s t : Running} → Steps limit r s → Step s t → length t.in_flight ≤ limit → Steps limit r t

-- The keys that are stored and those that are on the way to it.
abbrev pub IsBounded : ℕ → ℕ → Running → Type 0
IsBounded limit max_keys r =
    (length r.store.requests + length r.in_flight < max_keys + limit)
    × (0 < max_keys)
    × (length r.in_flight ≤ limit)
    × (r.store.max_keys ≡ max_keys)

-- A limit that is reached makes a key go.
length-delete-oldest :
    (m : JsMap (List ℕ)) (k : Text) → oldest m ≡ some k → length (delete k m) < length m
unfolding oldest delete
length-delete-oldest [] k h = ground arith
length-delete-oldest ((j, ts) ∷ m) k h =
    ground (arith, text_eq_refl k, text_eq_iff j k, length-delete-le k m)

oldest-none : (m : JsMap (List ℕ)) → oldest m ≡ none → length m ≡ 0
unfolding oldest
oldest-none [] h = refl
oldest-none ((j, ts) ∷ m) h = ground arith

length-make_room :
    (s : Store)
    → 0 < s.max_keys
    → (length (make_room s).requests < length s.requests)
      ⊎ ((length (make_room s).requests ≡ length s.requests) × (length s.requests < s.max_keys))
unfolding make_room
length-make_room s h = elim (Option-cases (oldest s.requests)) [
  | inl e ↦ rw (e, make_room) (ground (arith, oldest-none s.requests e))
  | inr (k, e) ↦ rw (e, make_room) (ground (arith, length-delete-oldest s.requests k e))
]

max_keys-make_room : (s : Store) → (make_room s).max_keys ≡ s.max_keys
unfolding make_room
max_keys-make_room s = elim (Option-cases (oldest s.requests)) [
  | inl e ↦ rw (e, make_room) (ground arith)
  | inr (k, e) ↦ rw (e, make_room) (ground arith)
]

length-is_blocked :
    (key : Text) (now : ℕ) (s : Store)
    → (length (is_blocked key now s).0.requests ≡ length s.requests)
      × ((is_blocked key now s).0.max_keys ≡ s.max_keys)
unfolding is_blocked
length-is_blocked key now s = elim (Option-cases (get key s.blocked)) [
  | inl e ↦ rw (e, is_blocked) (refl, refl)
  | inr (u, e) ↦ rw (e, is_blocked) (ground arith)
]

Step-IsBounded :
    {r s : Running} {limit max_keys : ℕ}
    → Step r s
    → length s.in_flight ≤ limit
    → IsBounded limit max_keys r
    → IsBounded limit max_keys s
unfolding begin finish block cleanup unblock clear
Step-IsBounded (begins s fs key now) h b = ground (
  arith,
  length-append fs ((key, now) ∷ []),
  length-make_room s (omega arith),
  max_keys-make_room s,
)
Step-IsBounded (finishes s before after key now) h b = ground (
  arith,
  length-append before after,
  length-append before ((key, now) ∷ after),
  length-put-le key (recent s.window_ms now (stamps s key) ++ now ∷ []) s.requests,
)
Step-IsBounded (blocks s fs key duration now) h b = b
Step-IsBounded (asks s fs key now) h b = ground (arith, length-is_blocked key now s)
Step-IsBounded (cleans s fs now) h b =
    ground (arith, length-sweep-le (keep_recent s.window_ms now) s.requests)
Step-IsBounded (unblocks s fs key) h b = ground (arith, length-delete-le key s.requests)
Step-IsBounded (clears s fs) h b = ground arith

Steps-IsBounded :
    {limit max_keys : ℕ} {r s : Running}
    → Steps limit r s
    → IsBounded limit max_keys r
    → IsBounded limit max_keys s
Steps-IsBounded (done r) b = b
Steps-IsBounded (more steps last h) b = Step-IsBounded last h (Steps-IsBounded steps b)

-- However the store's calls interleave: if a store starts with fewer keys than `max_keys` and no
-- increment in flight, and never more than `limit` (at least one) increments are in flight at once,
-- then it never holds more than `max_keys - 1 + limit` keys, and while increments are in flight it has
-- room for each of them. So one call at a time stays within `max_keys`.
pub length-requests-le :
    (limit : ℕ) (s : Store) (t : Running)
    → 0 < limit
    → length s.requests < s.max_keys
    → Steps limit (record { store = s; in_flight = [] }) t
    → length t.store.requests + length t.in_flight < s.max_keys + limit
length-requests-le limit s t h k steps =
    (Steps-IsBounded steps (omega arith, omega arith, omega arith, refl)).0
