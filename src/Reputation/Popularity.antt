-- ===== src/Reputation/Popularity.antt =====
-- src/modules/reputation.js: the counts of the fingerprints add up.
use shield_wall.Prelude.{
  ℕ, suc, ◌+◌, ◌/◌, ◌≤◌, ◌≡◌, List, [], ◌∷◌, arith, JsMap, get, put, sweep, Text,
}
use shield_wall.Reputation.{
  Tracker, new_tracker, count_of, track_drift, record_fingerprint, halve, decay, cleanup,
}

pub sum : JsMap ℕ → ℕ
sum [] = 0
sum ((fp, n) ∷ m) = n + sum m

-- One more fingerprint is one more in the sum.
sum-put : (fp : Text) (m : JsMap ℕ) → sum (put fp (count_of (get fp m) + 1) m) ≡ suc (sum m)
unfolding sum put get count_of
sum-put fp [] = omega arith
sum-put fp ((j, n) ∷ m) = ground (arith, sum-put fp m)

count_of-le : (fp : Text) (m : JsMap ℕ) → count_of (get fp m) ≤ sum m
unfolding sum get count_of
count_of-le fp [] = omega arith
count_of-le fp ((j, n) ∷ m) = ground (arith, count_of-le fp m)

-- Halving each count takes at least half of the sum away.
sum-halve : (m : JsMap ℕ) → sum (sweep halve m) ≤ sum m / 2
unfolding sum sweep halve
sum-halve [] = omega arith
sum-halve ((j, n) ∷ m) = ground (arith, sum-halve m)

pub data Call : Type 0 where
  records : Text → Call
  cleans : ℕ → Call
  tracks : Text → Text → ℕ → Call

unfoldable pub step : Tracker → Call → Tracker
unfolding record_fingerprint cleanup
step t (records fp) = record_fingerprint fp t
step t (cleans now) = cleanup now t
step t (tracks ip fp now) = (track_drift ip fp now t).0

unfoldable pub run : Tracker → List Call → Tracker
run t [] = t
run t (c ∷ cs) = run (step t c) cs

step-sum :
    (t : Tracker) (c : Call)
    → sum t.popularity ≤ t.total_seen
    → sum (step t c).popularity ≤ (step t c).total_seen
unfolding step record_fingerprint cleanup decay track_drift
step-sum t (records fp) h = omega (arith, sum-put fp t.popularity)
step-sum t (cleans now) h = ground (arith, sum-halve t.popularity)
step-sum t (tracks ip fp now) h = h

run-sum :
    (t : Tracker) (cs : List Call)
    → sum t.popularity ≤ t.total_seen
    → sum (run t cs).popularity ≤ (run t cs).total_seen
unfolding run
run-sum t [] h = h
run-sum t (c ∷ cs) h = run-sum (step t c) cs (step-sum t c h)

-- After any calls on a new tracker, halving included, the counts of all fingerprints together are at
-- most the number of fingerprints seen: so no fingerprint has a frequency above 1.
pub sum-run :
    (ttl max_history : ℕ) (cs : List Call)
    → (sum (run (new_tracker ttl max_history) cs).popularity
        ≤ (run (new_tracker ttl max_history) cs).total_seen)
      × ((fp : Text)
          → count_of (get fp (run (new_tracker ttl max_history) cs).popularity)
            ≤ (run (new_tracker ttl max_history) cs).total_seen)
unfolding new_tracker sum
sum-run ttl max_history cs =
    let t = run (new_tracker ttl max_history) cs in
    let total = run-sum (new_tracker ttl max_history) cs (omega arith) in
    (total, λ fp. omega (arith, total, count_of-le fp t.popularity))
