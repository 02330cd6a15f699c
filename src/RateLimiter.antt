-- ===== src/RateLimiter.antt =====
-- src/modules/rate-limiter.js: the in-memory store (`MemoryStore`) and the limiter over it. An increment is
-- two stretches of code with an `await` between them, `begin` and `finish`; everything else runs in one
-- stretch. `check` is a call that no other call interrupts, within one tick of the clock; the steps of
-- RateLimiter/Interleaving are the calls in any order.
pub mod Interleaving
pub mod Limits
mod Tests
use shield_wall.Prelude.{
  ℕ, ◌+◌, ◌-◌, Bool, true, false, Option, none, some, List, [], ◌∷◌, ◌++◌, length, any, JsMap, get,
  put, delete, sweep, Text, starts_with, ltb, leb, ◌==◌, if◌then◌else◌, recent,
}
use shield_wall.Address.{Sender, client_ip}

pub record Store : Type 0 where
  pub window_ms : ℕ
  pub max_keys : ℕ
  pub requests : JsMap (List ℕ)
  pub blocked : JsMap ℕ
  -- A lock is a promise that was resolved when it was made, so that it holds nothing up.
  pub locks : JsMap (Unit {0})

unfoldable pub new_store : ℕ → Store
new_store window = record {
  window_ms = window;
  max_keys = 100_000;
  requests = [];
  blocked = [];
  locks = [];
}

pub or_empty : Option (List ℕ) → List ℕ
or_empty none = []
or_empty (some ts) = ts

-- `this._requests.get(key) || []`
unfoldable pub stamps : Store → Text → List ℕ
unfolding or_empty
stamps s key = or_empty (get key s.requests)

-- `requests.keys().next().value`
oldest : JsMap (List ℕ) → Option Text
oldest [] = none
oldest ((k, ts) ∷ m) = some k

-- The limit on the keys.
unfoldable pub make_room : Store → Store
unfolding oldest
make_room s =
    if leb s.max_keys (length s.requests)
    then elim (oldest s.requests) [
      | none ↦ s
      | some k ↦ record s {
        requests = delete k s.requests;
        blocked = delete k s.blocked;
        locks = delete k s.locks;
      }
    ]
    else s

take_lock : Text → JsMap (Unit {0}) → JsMap (Unit {0})
take_lock key locks = elim (get key locks) [ none ↦ put key tt locks | some l ↦ locks ]

-- `increment` up to its `await`.
unfoldable pub begin : Text → Store → Store
unfolding make_room take_lock
begin key s = let roomy = make_room s in record roomy { locks = take_lock key roomy.locks }

-- The rest of `increment`, with the time that it read at its start; the number is its result.
unfoldable pub finish : Text → ℕ → Store → Store × ℕ
unfolding stamps recent
finish key now s =
    let ts = recent s.window_ms now (stamps s key) ++ (now ∷ []) in
    (record s { requests = put key ts s.requests; locks = delete key s.locks }, length ts)

unfoldable pub increment : Text → ℕ → Store → Store × ℕ
unfolding begin finish
increment key now s = finish key now (begin key s)

unfoldable pub block : Text → ℕ → ℕ → Store → Store
block key duration now s = record s { blocked = put key (now + duration) s.blocked }

-- The end of the block, or 0; a block that is over is forgotten.
unfoldable pub is_blocked : Text → ℕ → Store → Store × ℕ
is_blocked key now s = elim (get key s.blocked) [
  | none ↦ (s, 0)
  | some until ↦
      if until == 0
      then (s, 0)
      else if ltb now until
      then (s, until)
      else (record s { blocked = delete key s.blocked }, 0)
]

unless_empty : List ℕ → Option (List ℕ)
unless_empty [] = none
unless_empty (t ∷ ts) = some (t ∷ ts)

pub keep_recent : ℕ → ℕ → List ℕ → Option (List ℕ)
unfolding recent unless_empty
keep_recent window now ts = unless_empty (recent window now ts)

keep_until : ℕ → ℕ → Option ℕ
keep_until now until = if leb until now then none else some until

unfoldable pub cleanup : ℕ → Store → Store
unfolding keep_recent keep_until sweep
cleanup now s = record s {
  requests = sweep (keep_recent s.window_ms now) s.requests;
  blocked = sweep (keep_until now) s.blocked;
  locks = [];
}

blocked_at : ℕ → JsMap ℕ → List (Text × ℕ)
blocked_at now [] = []
blocked_at now ((ip, until) ∷ m) =
    let rest = blocked_at now m in if ltb now until then (ip, until) ∷ rest else rest

unfoldable pub get_blocked_ips : ℕ → Store → List (Text × ℕ)
unfolding blocked_at
get_blocked_ips now s = blocked_at now s.blocked

unfoldable pub unblock : Text → Store → Store
unblock key s = record s { blocked = delete key s.blocked; requests = delete key s.requests }

unfoldable pub clear : Store → Store
clear s = record s { requests = []; blocked = [] }

pub record Options : Type 0 where
  pub window_ms : Option ℕ
  pub max : Option ℕ
  pub block_duration : Option ℕ
  pub key_generator : Option (Sender → Text)
  pub skip_paths : Option (List Text)
  pub trust_proxy : Bool

pub record Config : Type 0 where
  pub window_ms : ℕ
  pub max : ℕ
  pub block_duration : ℕ
  pub key_generator : Sender → Text
  pub skip_paths : List Text

-- `option || default` for a number: 0 is replaced too.
or_default : Option ℕ → ℕ → ℕ
or_default none d = d
or_default (some n) d = if n == 0 then d else n

unfoldable pub new_limiter : Options → Config
unfolding or_default client_ip
new_limiter o = record {
  window_ms = or_default o.window_ms 60_000;
  max = or_default o.max 100;
  block_duration = or_default o.block_duration 300_000;
  key_generator = elim o.key_generator [ none ↦ client_ip o.trust_proxy | some g ↦ g ];
  skip_paths = elim o.skip_paths [ none ↦ [] | some ps ↦ ps ];
}

pub record Request : Type 0 where
  pub sender : Sender
  pub path : Text

pub record Verdict : Type 0 where
  pub limited : Bool
  pub ip : Text
  pub count : ℕ
  pub retry_after : ℕ

-- The end of `check`, for a client that is not blocked.
pub count_request : Config → Text → ℕ → Store → Store × Verdict
unfolding increment block
count_request config key now s =
    let (s1, count) = increment key now s in
    if ltb config.max count
    then (
      block key config.block_duration now s1,
      record { limited = true; ip = key; count = count; retry_after = config.block_duration },
    )
    else (s1, record { limited = false; ip = key; count = count; retry_after = 0 })

unfoldable pub check : Config → Request → ℕ → Store → Store × Verdict
unfolding is_blocked count_request starts_with
check config r now s =
    let key = config.key_generator r.sender in
    let (s1, until) = is_blocked key now s in
    if any (starts_with r.path) config.skip_paths
    then (s, record { limited = false; ip = key; count = 0; retry_after = 0 })
    else if ltb 0 until
    then (s1, record { limited = true; ip = key; count = config.max; retry_after = until - now })
    else count_request config key now s1
