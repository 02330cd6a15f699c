-- ===== src/Sequence/Detectors.antt =====
-- src/modules/sequence-anomaly.js: the detectors. The values are doubles, and a velocity is a count over a time.
use shield_wall.Prelude.{
  ℕ, ◌-◌, ◌*◌, double, Bool, true, false, ◌&&◌, ◌||◌, not, Option, none, some, List, [], ◌∷◌, map,
  length, take, any, Text, ltb, leb, ◌==◌, if◌then◌else◌,
}
use shield_wall.Sequence.{Ring, ring_iterate}
use shield_wall.Sequence.Params.{ParamClass, identifier, page, batch, Classes}

-- The value of a parameter: `parseInt` of it, which may be `Infinity`, or the text of a UUID.
pub data Val : Type 0 where
  number : ℕ → Val
  infinity : Val
  uuid : Text → Val

pub record Seen : Type 0 where
  pub val : Val
  pub ts : ℕ

pub record Entry : Type 0 where
  pub param_class : ParamClass
  pub ring : Ring Seen
  pub last_activity : ℕ

-- The difference of two numbers; that of two equal ones is `up 0`.
pub data Diff : Type 0 where
  up : ℕ → Diff
  down : ℕ → Diff

-- The JSON settings.
pub record Config : Type 0 where
  pub max_param_keys : ℕ
  pub param_history_ttl_ms : ℕ
  pub history_max_len : ℕ
  pub tracking_enabled : Bool
  pub max_resources : ℕ
  pub resource_ttl_ms : ℕ
  pub min_distinct_ips : ℕ
  pub min_hits_for_fanout : ℕ
  pub time_window_ms : ℕ
  pub allowed_diffs : List Diff
  pub min_sequence_length : ℕ
  pub min_sequence_velocity : ℕ
  pub max_sequence_velocity : ℕ
  pub min_requests : ℕ
  pub min_velocity : ℕ
  pub max_velocity : ℕ
  pub param_classes : Classes
  pub sequential_scraping_on : Bool
  pub velocity_spike_on : Bool
  pub global_fanout_on : Bool

-- Requests over milliseconds, or the upper bound.
pub data Velocity : Type 0 where
  rate : ℕ → ℕ → Velocity
  bound : ℕ → Velocity

pub data Signal : Type 0 where
  sequential_scraping : Text → ParamClass → List Val → ℕ → Velocity → Signal
  param_velocity_spike : Text → ℕ → Velocity → Signal
  distributed_scraping : Text → ℕ → ℕ → List Text → Signal

signed : (ℕ → Diff) → Option ℕ → Option Diff
signed sign none = none
signed sign (some n) = some (sign n)

-- `curr - prev`, rounded to a double, and `none` where that is `NaN` or not finite.
unfoldable pub diff_of : Val → Val → Option Diff
unfolding double signed
diff_of (number a) (number b) =
    if leb a b then signed up (double (b - a)) else signed down (double (a - b))
diff_of (number a) infinity = none
diff_of (number a) (uuid u) = none
diff_of infinity v = none
diff_of (uuid u) v = none

diff_eq : Diff → Diff → Bool
diff_eq (up a) (up b) = a == b
diff_eq (up a) (down b) = false
diff_eq (down a) (up b) = false
diff_eq (down a) (down b) = a == b

-- `allowed.has(diff)`, where the allowed differences are finite.
unfoldable pub is_allowed : List Diff → Option Diff → Bool
unfolding diff_eq
is_allowed allowed none = false
is_allowed allowed (some d) = any (diff_eq d) allowed

-- Every entry follows the one before by an allowed difference.
unfoldable pub is_sequential : List Diff → List Seen → Bool
is_sequential allowed [] = true
is_sequential allowed (x ∷ []) = true
is_sequential allowed (x ∷ y ∷ xs) =
    is_allowed allowed (diff_of x.val y.val) && is_sequential allowed (y ∷ xs)

unfoldable pub last_ts : ℕ → List Seen → ℕ
last_ts t [] = t
last_ts t (x ∷ xs) = last_ts x.ts xs

-- The time from the first entry to the last, 0 where the clock went back.
unfoldable pub time_diff : List Seen → ℕ
unfolding last_ts
time_diff [] = 0
time_diff (x ∷ xs) = last_ts x.ts xs - x.ts

-- The number of requests is more, or less, than so many a second would be.
unfoldable pub is_above : ℕ → ℕ → ℕ → Bool
is_above per_sec n ms = ltb (per_sec * ms) (n * 1000)

unfoldable pub is_below : ℕ → ℕ → ℕ → Bool
is_below per_sec n ms = ltb (n * 1000) (per_sec * ms)

unfoldable pub velocity_of : ℕ → ℕ → ℕ → Velocity
velocity_of most n ms =
    if ms == 0 then bound most else if is_above most n ms then bound most else rate n ms

unfoldable pub is_slow : ℕ → Velocity → Bool
is_slow least (rate n ms) = is_below least n ms
is_slow least (bound v) = ltb v least

unfoldable pub is_page : ParamClass → Bool
is_page identifier = false
is_page page = true
is_page batch = false

-- What both tests of a history give.
unfoldable pub scraping : Config → Text → ParamClass → List Seen → List Signal
scraping c key class history =
    let v = velocity_of c.max_sequence_velocity (length history) (time_diff history) in
    if ltb (length history) c.min_sequence_length
    then []
    else if not (is_sequential c.allowed_diffs history)
    then []
    else if is_slow c.min_sequence_velocity v
    then []
    else sequential_scraping key class (map (λ h. h.val) (take 5 history)) (length history) v ∷ []

-- `_detectSequential`
unfoldable pub detect_sequential : Config → Text → ParamClass → Entry → List Signal
unfolding is_page
detect_sequential c key class e =
    if not c.sequential_scraping_on
    then []
    else if is_page class
    then []
    else scraping c key class (ring_iterate e.ring)

unfoldable pub spike : Config → Text → List Seen → List Signal
spike c key history =
    let n = length history in
    let ms = time_diff history in
    if ltb n c.min_requests
    then []
    else if ms == 0
    then []
    else if is_below c.min_velocity n ms || is_above c.max_velocity n ms
    then []
    else param_velocity_spike key n (rate n ms) ∷ []

-- `_detectVelocitySpike`
unfoldable pub detect_velocity_spike : Config → Text → Entry → List Signal
detect_velocity_spike c key e =
    if not c.velocity_spike_on then [] else spike c key (ring_iterate e.ring)
