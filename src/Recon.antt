-- ===== src/Recon.antt =====
-- src/core/recon-tracker.js: the addresses that probed the server, each with its score, the time it was
-- last seen and the last paths. A call reads the clock once, as `now`.
pub mod Taint
mod Tests
use shield_wall.Prelude.{
  ℕ, ◌+◌, ◌||◌, Option, none, some, List, [], ◌∷◌, ◌++◌, length, drop, JsMap, get, put, delete,
  evict_oldest, sweep, Text, ltb, leb, ◌==◌, if◌then◌else◌,
}
use shield_wall.Paths.{is_scanner_path}

pub record Trace : Type 0 where
  pub score : ℕ
  pub last_seen : ℕ
  pub paths : List Text

abbrev pub ttl : ℕ
ttl = 3_600_000

abbrev pub max_entries : ℕ
max_entries = 20_000

-- The entry that a new address starts with, where it may push the oldest one out.
pub ensure : Text → ℕ → JsMap Trace → JsMap Trace
unfolding evict_oldest
ensure ip now m = elim (get ip m) [
  | none ↦
      let roomy = if leb max_entries (length m) then evict_oldest m else m in
      put ip (record { score = 0; last_seen = now; paths = [] }) roomy
  | some t ↦ m
]

-- What an attempt costs.
unfoldable pub points : Text → ℕ → ℕ
unfolding is_scanner_path
points path status =
    (if is_scanner_path path then 10 else 0) + (if status == 404 || status == 403 then 2 else 0)

-- `shift` when there are more than ten.
cap : List Text → List Text
cap ps = if ltb 10 (length ps) then drop 1 ps else ps

pub observe : Text → ℕ → ℕ → Trace → Trace
unfolding points cap
observe path status now t = record {
  score = t.score + points path status;
  last_seen = now;
  paths = cap (if is_scanner_path path then t.paths ++ path ∷ [] else t.paths);
}

unfoldable pub record_recon_attempt : Text → Text → ℕ → ℕ → JsMap Trace → JsMap Trace
unfolding ensure observe
record_recon_attempt ip path status now m =
    let known = ensure ip now m in
    elim (get ip known) [ none ↦ known | some t ↦ put ip (observe path status now t) known ]

-- The new table and the taint; a trace that is too old is dropped.
unfoldable pub get_reputation_taint : Text → ℕ → JsMap Trace → JsMap Trace × ℕ
get_reputation_taint ip now m = elim (get ip m) [
  | none ↦ (m, 0)
  | some t ↦ if ltb (t.last_seen + ttl) now then (delete ip m, 0) else (m, t.score)
]

unless_old : ℕ → Trace → Option Trace
unless_old now t = if ltb (t.last_seen + ttl) now then none else some t

-- The background timer.
unfoldable pub cleanup : ℕ → JsMap Trace → JsMap Trace
unfolding unless_old sweep
cleanup now m = sweep (unless_old now) m
