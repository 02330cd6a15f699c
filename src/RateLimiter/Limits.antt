-- ===== src/RateLimiter/Limits.antt =====
-- src/modules/rate-limiter.js, `check`: when a request is limited.
use shield_wall.Prelude.{
  ℕ, suc, ◌+◌, ◌-◌, ◌≤◌, ◌<◌, ◌≡◌, refl, ap, ◌∙◌, ◌↔◌, inl, inr, true, false, Option, none, some,
  List, [], ◌∷◌, ◌++◌, arith, length, any, length-append, get, put, get-put_self, IsMap, get-sweep,
  Text, starts_with, Option-cases, recent, recent-recent,
}
use shield_wall.RateLimiter.{
  Store, Config, Request, stamps, make_room, begin, finish, increment, block, is_blocked,
  count_request, check, cleanup, keep_recent, keep_until, or_empty, unless_empty,
}

-- The limiter reads the path first; these are the requests that it counts.
abbrev pub IsCounted : Config → Request → Type 0
IsCounted config r = any (starts_with r.path) config.skip_paths ≡ false

is_blocked_live :
    (key : Text) (now : ℕ) (s : Store) (until : ℕ)
    → get key s.blocked ≡ some until
    → now < until
    → is_blocked key now s ≡ (s, until)
unfolding is_blocked
is_blocked_live key now s until e h = rw (e, is_blocked) (ground arith)

check_blocked :
    (config : Config) (r : Request) (now until : ℕ) (s : Store)
    → IsCounted config r
    → get (config.key_generator r.sender) s.blocked ≡ some until
    → now < until
    → (check config r now s).1.limited ≡ true
      × ((check config r now s).1.retry_after ≡ until - now)
      × ((check config r now s).0 ≡ s)
unfolding check
check_blocked config r now until s counted e h =
    rw (counted, is_blocked_live (config.key_generator r.sender) now s until e h, check)
      (ground arith)

-- No block of the key lasts at that time.
abbrev pub IsOpen : Text → ℕ → Store → Type 0
IsOpen key now s = (until : ℕ) → get key s.blocked ≡ some until → until ≤ now

module _ (key : Text) (now : ℕ) (s : Store) (free : IsOpen key now s) where
  is_blocked_open :
      ((is_blocked key now s).1 ≡ 0)
      × ((is_blocked key now s).0.requests ≡ s.requests)
      × ((is_blocked key now s).0.window_ms ≡ s.window_ms)
      × ((is_blocked key now s).0.max_keys ≡ s.max_keys)
  unfolding is_blocked
  is_blocked_open = elim (Option-cases (get key s.blocked)) [
    | inl e ↦ rw (e, is_blocked) (refl, refl, refl, refl)
    | inr (u, e) ↦ rw (e, is_blocked) (ground (arith, free u e))
  ]

make_room_id : (s : Store) → length s.requests < s.max_keys → make_room s ≡ s
unfolding make_room
make_room_id s h = ground arith

-- An increment of a store that is not full counts the requests of the window, itself included.
increment-requests :
    (key : Text) (now : ℕ) (s : Store)
    → length s.requests < s.max_keys
    → ((increment key now s).1 ≡ suc (length (recent s.window_ms now (stamps s key))))
      × ((increment key now s).0.requests
          ≡ put key (recent s.window_ms now (stamps s key) ++ now ∷ []) s.requests)
unfolding increment begin finish stamps
increment-requests key now s h =
    rw (make_room_id s h, begin)
      (ground (arith, length-append (recent s.window_ms now (stamps s key)) (now ∷ [])))

stamps-requests : (s t : Store) (key : Text) → s.requests ≡ t.requests → stamps s key ≡ stamps t key
unfolding stamps
stamps-requests s t key e = rw e refl

module _ (config : Config) (r : Request) (now : ℕ) (s : Store) (counted : IsCounted config r)
    (free : IsOpen (config.key_generator r.sender) now s)
    (room : length s.requests < s.max_keys) where
  abbrev key : Text
  key = config.key_generator r.sender

  -- The requests of the client that the window still holds.
  abbrev pub held : List ℕ
  held = recent s.window_ms now (stamps s key)

  check_open : check config r now s ≡ count_request config key now (is_blocked key now s).0
  unfolding check
  check_open = rw (counted, (is_blocked_open key now s free).0, check) refl

  abbrev after : Store
  after = (is_blocked key now s).0

  counted_held :
      ((increment key now after).1 ≡ suc (length held))
      × ((increment key now after).0.requests ≡ put key (held ++ now ∷ []) s.requests)
  counted_held =
      let b = is_blocked_open key now s free in
      let i = increment-requests key now after (rw (b.1, b.3) room) in
      let same = stamps-requests after s key b.1 in ground (arith, i, same, b)

  -- For a client that is not blocked, on a path that is counted, in a store with room for one more
  -- key: the request is limited exactly if the window holds `max` or more requests of the client
  -- besides it. Limited or not, it is stored behind those, and no other client's requests change.
  pub check_limited :
      ((check config r now s).1.limited ≡ true ↔ config.max ≤ length held)
      × ((check config r now s).0.requests ≡ put key (held ++ now ∷ []) s.requests)
  unfolding count_request block
  check_limited = rw check_open (ground (arith, counted_held))

  check-block :
      (check config r now s).1.limited ≡ true
      → get key (check config r now s).0.blocked ≡ some (now + config.block_duration)
  unfolding count_request block
  check-block = rw check_open (
      ground
        (arith, get-put_self key (now + config.block_duration) (increment key now after).0.blocked))

  -- Under the same conditions, a request that is limited blocks the client: at each time before
  -- `block_duration` has passed, the same request as the next one is limited, too, is told how long
  -- the block still lasts, and changes nothing in the store.
  pub check-check :
      (later : ℕ)
      → (check config r now s).1.limited ≡ true
      → later < now + config.block_duration
      → ((check config r later (check config r now s).0).1.limited ≡ true)
        × ((check config r later (check config r now s).0).1.retry_after
            ≡ now + config.block_duration - later)
        × ((check config r later (check config r now s).0).0 ≡ (check config r now s).0)
  check-check later h before =
      check_blocked config r later (now + config.block_duration) (check config r now s).0 counted
        (check-block h) before

or_empty-unless_empty : (ts : List ℕ) → or_empty (unless_empty ts) ≡ ts
unfolding or_empty unless_empty
or_empty-unless_empty [] = refl
or_empty-unless_empty (t ∷ ts) = refl

-- What the timer leaves of a client's requests, if anything.
recent-keep_recent :
    (window now later : ℕ) (found : Option (List ℕ))
    → now ≤ later
    → recent window later
        (or_empty (elim found [ none ↦ none | some ts ↦ keep_recent window now ts ]))
      ≡ recent window later (or_empty found)
unfolding or_empty keep_recent
recent-keep_recent window now later none h = refl
recent-keep_recent window now later (some ts) h =
    rw (or_empty-unless_empty (recent window now ts)) (recent-recent window ts h)

recent-cleanup :
    (s : Store) (key : Text) (now later : ℕ)
    → IsMap s.requests
    → now ≤ later
    → recent s.window_ms later (stamps (cleanup now s) key)
      ≡ recent s.window_ms later (stamps s key)
unfolding cleanup stamps
recent-cleanup s key now later m h =
    ap (λ found. recent s.window_ms later (or_empty found))
      (get-sweep (keep_recent s.window_ms now) key s.requests m)
    ∙ recent-keep_recent s.window_ms now later (get key s.requests) h

is_blocked-cleanup :
    (s : Store) (key : Text) (now later : ℕ)
    → IsMap s.blocked
    → now ≤ later
    → (is_blocked key later (cleanup now s)).1 ≡ (is_blocked key later s).1
unfolding cleanup is_blocked keep_until
is_blocked-cleanup s key now later m h = elim (Option-cases (get key s.blocked)) [
  | inl e ↦ rw (get-sweep (keep_until now) key s.blocked m, e, is_blocked) refl
  | inr (until, e) ↦ rw (get-sweep (keep_until now) key s.blocked m, e, is_blocked) (ground arith)
]

-- The cleaning timer at `now`, if the keys of both maps are distinct: at no later time does it change
-- how many requests of a client the window holds, nor whether a block of the client lasts and until
-- when.
pub stamps-cleanup :
    (s : Store) (key : Text) (now later : ℕ)
    → IsMap s.requests
    → IsMap s.blocked
    → now ≤ later
    → (recent s.window_ms later (stamps (cleanup now s) key)
        ≡ recent s.window_ms later (stamps s key))
      × ((is_blocked key later (cleanup now s)).1 ≡ (is_blocked key later s).1)
stamps-cleanup s key now later m n h =
    (recent-cleanup s key now later m h, is_blocked-cleanup s key now later n h)
