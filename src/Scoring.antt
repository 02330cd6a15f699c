-- ===== src/Scoring.antt =====
-- src/core/engine.js: matches, their severities and the risk that they add up to. The source's scores are
-- floating-point numbers; here they are exact: the `score` of a match counts hundredths, a sensitivity
-- tenths, and the risk of a request hundred-thousandths.
pub mod Bounds
use shield_wall.Prelude.{
  ℕ, zero, suc, ◌+◌, ◌-◌, ◌*◌, ◌/◌, ◌%◌, ◌^◌, ◌≤◌, ◌<◌, min, max, ◌≡◌, refl, sym, ap, subst, ◌∙◌,
  ◌≢◌, ◌↔◌, ◌⊎◌, inl, inr, ite, if_pos, if_neg, Bool, true, false, ◌&&◌, ◌||◌, not, Option, none,
  some, List, [], ◌∷◌, ◌++◌, map, filter, reverse, arith, dec_lt, dec_le, ℕ_discrete, length,
  get_elem?, set_at, take, drop, any, all, length-append, length-filter-le, length-take,
  length-drop, All, All-mono, All-append, All-append_left, All-append_right, keep, keep-append,
  keep-eq-nil, keep_comm, JsMap, get, put, delete, evict_oldest, sweep, get-put, get-delete,
  get-put_ne, get-put_self, get-delete_ne, get-delete_self, get-evict_oldest_self, length-delete-le,
  length-evict_oldest-le, length-evict_oldest, length-put-le, length-put_present, length-put_absent,
  length-sweep-le, IsMap, put-IsMap, delete-IsMap, evict_oldest-IsMap, get-sweep, sweep-IsMap, Text,
  codes, text_eq, text_eq_refl, text_eq_iff, text_eq_ne, ne_of_text_eq, starts_with, includes,
  to_lower, split_onto, split, is_space, trim_start, trim, ltb, leb, ◌==◌, if◌then◌else◌, ltb→lt,
  lt→ltb, leb→le, le→leb, ==_iff, Bool-cases, Option-cases, both_branches, AllValues, AllValues-get,
  AllValues-put, AllValues-delete, AllValues-evict_oldest, recent, length-recent-le, recent-recent,
  recent-append, recent-All, All-recent,
}

pub data Severity : Type 0 where
  critical : Severity
  high : Severity
  medium : Severity
  low : Severity
  info : Severity
  unknown : Severity

-- A match without a category or a rule has the empty text there; one without a score has 0.
pub record Match : Type 0 where
  pub rule : Text
  pub severity : Severity
  pub category : Text
  pub score : ℕ

-- `SEVERITY_PRIORITY[s] || 0`
pub priority : Severity → ℕ
priority critical = 4
priority high = 3
priority medium = 2
priority low = 1
priority info = 0
priority unknown = 0

-- `SEVERITY_WEIGHTS[s] || 0`
pub weight : Severity → ℕ
weight critical = 100
weight high = 50
weight medium = 20
weight low = 10
weight info = 1
weight unknown = 0

-- The loop of `_getHighestSeverity`, with `h` and `hp`.
pub highest_loop : Severity → ℕ → List Match → Severity
unfolding priority
highest_loop h hp [] = h
highest_loop h hp (m ∷ ms) =
    let p = priority m.severity in
    let higher = highest_loop m.severity p ms in
    let same = highest_loop h hp ms in if ltb hp p then higher else same

unfoldable pub get_highest_severity : List Match → Severity
unfolding highest_loop
get_highest_severity ms = highest_loop info 0 ms

pub base_cost : Match → ℕ
unfolding weight
base_cost m = if ltb 0 m.score then m.score else weight m.severity * 100

-- The sum of the costs, in thousandths, at a sensitivity in tenths.
pub weighted_sum : ℕ → List Match → ℕ
unfolding base_cost
weighted_sum sensitivity [] = 0
weighted_sum sensitivity (m ∷ ms) = base_cost m * sensitivity + weighted_sum sensitivity ms

first_part : List Text → Text
first_part [] = []
first_part (t ∷ ts) = t

rule_family : Text → Text
unfolding first_part split
rule_family [] = codes "unknown"
rule_family (c ∷ r) = first_part (split b':' (c ∷ r))

category_of : Text → Text → Text
unfolding rule_family
category_of [] rule = rule_family rule
category_of (c ∷ cs) rule = c ∷ cs

-- `new Set(...)`
pub add_category : List Text → Text → List Text
unfolding text_eq
add_category seen c = if any (text_eq c) seen then seen else seen ++ c ∷ []

pub category_hits : List Text → List Match → List Text
unfolding add_category category_of
category_hits seen [] = seen
category_hits seen (m ∷ ms) = category_hits (add_category seen (category_of m.category m.rule)) ms

pub is_bot : Match → Bool
unfolding includes
is_bot m = includes m.rule (codes "fingerprinter") || includes m.rule (codes "bot")

pub is_payload_anomaly : Match → Bool
unfolding includes
is_payload_anomaly m = includes m.rule (codes "anomaly") || includes m.rule (codes "injection")

-- The factors of 1.5, 2 and 1.8, as 15 of 10, 2 of 1 and 18 of 10.
pub boost : List Match → ℕ
unfolding category_hits is_bot is_payload_anomaly
boost ms =
    let hits = length (category_hits [] ms) in
    (if leb 3 hits then 15 else 10)
    * (if leb 4 hits then 2 else 1)
    * (if any is_bot ms && any is_payload_anomaly ms then 18 else 10)

unfoldable pub risk_score : ℕ → List Match → ℕ
unfolding weighted_sum boost
risk_score sensitivity ms = weighted_sum sensitivity ms * boost ms
