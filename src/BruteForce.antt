-- ===== src/BruteForce.antt =====
-- src/modules/brute-force.js: the guard of the sign-in endpoints. Each call reads the clock once, and
-- the reading is its argument `now`. `null` and 0 in `blockUntil` are both 0 here, since the code only
-- tests whether the value is truthy. Powers of two and their products are exact in the source's numbers
-- until they pass the cap, so they are natural numbers here. An account that is the empty string is
-- `none`, as the code takes it.
pub mod Invariant
pub mod Blocking
pub mod Failures
pub mod Collection
mod Tests
use shield_wall.Prelude.{
  ℕ, zero, suc, ◌+◌, ◌-◌, ◌*◌, ◌^◌, min, Bool, true, false, ◌&&◌, ◌||◌, not, Option, none, some,
  List, [], ◌∷◌, ◌++◌, Text, codes, text_eq, starts_with, to_lower, JsMap, get, put, delete,
  evict_oldest, sweep, recent, length, any, map, ltb, leb, ◌==◌, if◌then◌else◌,
}
use shield_wall.Address.{Sender, client_ip}

-- `options.x || default`: an option that is missing or 0 takes the default.
unfoldable pub or_default : Option ℕ → ℕ → ℕ
or_default none d = d
or_default (some zero) d = d
or_default (some (suc n)) d = suc n

pub record Options : Type 0 where
  pub max_attempts : Option ℕ
  pub window_ms : Option ℕ
  pub block_duration_ms : Option ℕ
  pub max_block_duration_ms : Option ℕ
  pub progressive_backoff : Bool
  pub trust_proxy : Bool
  pub sensitive_paths : Option (List Text)
  pub failed_codes : Option (List ℕ)
  pub account_max_attempts : Option ℕ
  pub max_state_size : Option ℕ
  pub max_account_state_size : Option ℕ

pub record Config : Type 0 where
  pub max_attempts : ℕ
  pub window_ms : ℕ
  pub block_duration_ms : ℕ
  pub max_block_duration_ms : ℕ
  pub progressive_backoff : Bool
  pub trust_proxy : Bool
  pub sensitive_paths : List Text
  pub failed_codes : List ℕ
  pub account_max_attempts : ℕ
  pub max_state_size : ℕ
  pub max_account_state_size : ℕ

pub record Entry : Type 0 where
  pub attempts : List ℕ
  pub block_until : ℕ
  pub block_count : ℕ

pub record Guard : Type 0 where
  pub config : Config
  pub open config use *
  pub state : JsMap Entry
  pub account_state : JsMap (List ℕ)

abbrev default_paths : List Text
default_paths =
    codes "/login"
    ∷ codes "/api/auth"
    ∷ codes "/api/login"
    ∷ codes "/signin"
    ∷ codes "/api/signin"
    ∷ []

abbrev or_list {ℓ} : {A : Type ℓ} → Option A → A → A
or_list none d = d
or_list (some xs) d = xs

unfoldable pub configure : Options → Config
unfolding or_default to_lower
configure o = record {
  max_attempts = or_default o.max_attempts 5;
  window_ms = or_default o.window_ms 900_000;
  block_duration_ms = or_default o.block_duration_ms 900_000;
  max_block_duration_ms = or_default o.max_block_duration_ms 86_400_000;
  progressive_backoff = o.progressive_backoff;
  trust_proxy = o.trust_proxy;
  sensitive_paths = map to_lower (or_list o.sensitive_paths default_paths);
  failed_codes = or_list o.failed_codes (401 ∷ 403 ∷ 422 ∷ []);
  account_max_attempts = or_default o.account_max_attempts 10;
  max_state_size = or_default o.max_state_size 50_000;
  max_account_state_size = or_default o.max_account_state_size 100_000;
}

unfoldable pub new_guard : Options → Guard
unfolding configure
new_guard o = record { config = configure o; state = []; account_state = [] }

pub record Request : Type 0 where
  pub sender : Sender
  pub path : Text

unfoldable pub is_sensitive : List Text → Text → Bool
unfolding starts_with text_eq
is_sensitive paths path = any (λ s. text_eq path s || starts_with path (s ++ codes "/")) paths

unfoldable pub is_failure : Config → ℕ → Bool
is_failure c status = any (λ code. code == status) c.failed_codes

abbrev pub ip_of : Guard → Request → Text
ip_of g r = client_ip g.trust_proxy r.sender

abbrev pub guards : Guard → Request → Bool
guards g r = is_sensitive g.sensitive_paths (to_lower r.path)

-- The fields of the answer that the middleware reads.
pub record Verdict : Type 0 where
  pub blocked : Bool
  pub retry_after : ℕ
  pub attempts : ℕ

abbrev pub pass : Verdict
pass = record { blocked = false; retry_after = 0; attempts = 0 }

-- `entry.blockUntil && now < entry.blockUntil`; with 0 for `null` the first test is implied.
abbrev pub is_blocked_at : ℕ → Entry → Bool
is_blocked_at now e = ltb now e.block_until

check_entry : Guard → Text → ℕ → Entry → Guard × Verdict
check_entry g ip now e =
    if is_blocked_at now e
    then (
      g,
      record { blocked = true; retry_after = e.block_until - now; attempts = length e.attempts },
    )
    else if e.block_until == 0
    then (g, pass)
    else (record g { state = put ip (record e { block_until = 0; attempts = [] }) g.state }, pass)

unfoldable pub check : Guard → Request → ℕ → Guard × Verdict
unfolding check_entry
check g r now =
    if guards g r
    then elim (get (ip_of g r) g.state) [
      | none ↦ (g, pass)
      | some e ↦ check_entry g (ip_of g r) now e
    ]
    else (g, pass)

unfoldable pub check_account : Guard → Option Text → ℕ → Guard × Verdict
check_account g none now = (g, pass)
check_account g (some account) now = elim (get account g.account_state) [
  | none ↦ (g, pass)
  | some attempts ↦
      let kept = recent g.window_ms now attempts in
      (
        record g { account_state = put account kept g.account_state },
        if leb g.account_max_attempts (length kept)
            then record {
              blocked = true;
              retry_after = g.block_duration_ms;
              attempts = length kept;
            }
            else pass,
      )
]

-- How long the n-th block lasts (n counts from 1).
unfoldable pub block_span : Config → ℕ → ℕ
block_span c n =
    min (c.block_duration_ms * (if c.progressive_backoff then 2 ^ (n - 1) else 1))
      c.max_block_duration_ms

unfoldable pub fail_entry : Config → ℕ → Option Entry → Entry
unfolding block_span
fail_entry c now found =
    let e : Entry = elim found [
      | none ↦ record { attempts = []; block_until = 0; block_count = 0 }
      | some e ↦ e
    ] in
    let attempts = recent c.window_ms now e.attempts ++ now ∷ [] in
    if leb c.max_attempts (length attempts)
    then record {
      attempts = attempts;
      block_until = now + block_span c (suc e.block_count);
      block_count = suc e.block_count;
    }
    else record e { attempts = attempts }

unfoldable pub make_room {ℓ} : {V : Type ℓ} → ℕ → JsMap V → JsMap V
make_room limit m = if leb limit (length m) then evict_oldest m else m

fail_account : Guard → Option Text → ℕ → JsMap (List ℕ)
unfolding make_room
fail_account g none now = g.account_state
fail_account g (some account) now =
    let room = make_room g.max_account_state_size g.account_state in
    elim (get account room) [
      | none ↦ put account (now ∷ []) room
      | some attempts ↦ put account (attempts ++ now ∷ []) room
    ]

unfoldable pub record_response : Guard → Request → ℕ → Option Text → ℕ → Guard
unfolding fail_account fail_entry make_room
record_response g r status account now =
    let ip = ip_of g r in
    let room = make_room g.max_state_size g.state in
    if guards g r
    then if is_failure g.config status
      then record g {
        state = put ip (fail_entry g.config now (get ip room)) room;
        account_state = fail_account g account now;
      }
      else record g { state = delete ip room }
    else g

gc_entry : ℕ → ℕ → Entry → Option Entry
gc_entry window now e =
    let kept = recent window now e.attempts in
    if length kept == 0 && (e.block_until == 0 || leb e.block_until now)
    then none
    else some (record e { attempts = kept })

gc_account : ℕ → ℕ → List ℕ → Option (List ℕ)
gc_account window now attempts =
    let kept = recent window now attempts in if length kept == 0 then none else some kept

unfoldable pub gc : Guard → ℕ → Guard
unfolding gc_entry gc_account
gc g now = record g {
  state = sweep (gc_entry g.window_ms now) g.state;
  account_state = sweep (gc_account g.window_ms now) g.account_state;
}

unfoldable pub reset : Guard → Text → Guard
reset g ip = record g { state = delete ip g.state }

-- `destroy` leaves the account map as it is.
unfoldable pub destroy : Guard → Guard
destroy g = record g { state = [] }

blocked_entries : ℕ → JsMap Entry → List (Text × ℕ)
blocked_entries now [] = []
blocked_entries now ((ip, e) ∷ m) =
    if is_blocked_at now e
    then (ip, e.block_until) ∷ blocked_entries now m
    else blocked_entries now m

unfoldable pub get_blocked_ips : Guard → ℕ → List (Text × ℕ)
unfolding blocked_entries
get_blocked_ips g now = blocked_entries now g.state
